-- ===== src/Internal/Ring.antt =====
-- internal/ring.go: the byte ring. A method on `*Ring` returns the new ring with its results; an
-- `int` argument is a natural number, so the guards against negative ones are not there, and the
-- sums of indices stay below the largest `int`, since each is at most twice the buffer's length.
pub mod Line
pub mod Round
pub mod Write
pub mod Discard
pub mod Read
pub mod Stage
pub mod Queue
mod Tests
use lneto.Base.{
  ℕ, ◌+◌, ◌-◌, min, Bool, true, false, not, ◌&&◌, ◌||◌, Option, none, some, List, [], ◌++◌, ltb,
  leb, ◌==◌, if◌then◌else◌, length, take, drop, write_at, Ran, ran, panicked,
}

pub data Error : Type 0 where
  buffer_full empty_write invalid_commit invalid_discard discard_exceeds : Error
  short_buffer unexpected_eof eof : Error

-- `end` is spelled `stop`.
pub record Ring : Type 0 where
  pub buf : List ℕ
  pub off : ℕ
  pub stop : ℕ

unfoldable pub size : Ring → ℕ
size r = length r.buf

unfoldable pub is_full : Ring → Bool
unfolding size
is_full r = not (r.stop == 0) && (r.stop == r.off || (r.stop == size r && r.off == 0))

unfoldable pub is_empty : Ring → Bool
is_empty r = r.stop == 0

unfoldable pub free : Ring → ℕ
unfolding size
free r =
    if r.stop == 0 || r.off == 0
    then size r - r.stop
    else if ltb r.off r.stop
    then r.off + (size r - r.stop)
    else r.off - r.stop

unfoldable pub buffered : Ring → ℕ
unfolding size
buffered r = size r - free r

unfoldable pub mid_free : Ring → ℕ
mid_free r = if leb r.off r.stop || r.stop == 0 then 0 else r.off - r.stop

-- The placement of the next write.
unfoldable pub write_start : Ring → ℕ
unfolding size
write_start r = if r.stop == 0 then r.off else if r.stop == size r then 0 else r.stop

-- Go's `copy(buf[lo:hi], b)`: the number of bytes copied, and the buffer after it.
unfoldable pub copy_to : List ℕ → ℕ → ℕ → List ℕ → ℕ × List ℕ
copy_to buf lo hi b = let n = min (hi - lo) (length b) in (n, write_at buf lo (take n b))

-- A written ring, the number of bytes and the error.
abbrev pub Written : Type 0
Written = Ring × ℕ × Option Error

-- The `panic` after a write that leaves `End` at 0.
unfoldable pub check_stop : Ring → ℕ → Ran Written
check_stop r n = if r.stop == 0 then panicked else ran (r, n, none)

-- The end of `Write`, where the bytes go behind `End` and round to the start.
unfoldable pub write_tail : Ring → List ℕ → Ran Written
unfolding size copy_to check_stop
write_tail r b =
    let (n, buf1) = copy_to r.buf r.stop (size r) b in
    let (n2, buf2) = copy_to buf1 0 (size r) (drop n b) in
    if ltb n (length b)
    then check_stop (record r { buf = buf2; stop = n2 }) (n + n2)
    else check_stop (record r { buf = buf1; stop = r.stop + n }) n

unfoldable pub write : Ring → List ℕ → Ran Written
unfolding copy_to check_stop
write r b =
    let (n, buf1) = copy_to r.buf r.stop r.off b in
    if length b == 0
    then ran (r, 0, some empty_write)
    else if is_full r || ltb (free r) (length b)
    then ran (r, 0, some buffer_full)
    else if ltb 0 (mid_free r)
    then check_stop (record r { buf = buf1; stop = r.stop + n }) n
    else write_tail (if r.stop == 0 then record r { stop = r.off } else r) b

unfoldable pub free_limited : Ring → ℕ → ℕ
unfolding size
free_limited r limit_offset =
    let at = if r.stop == 0 then r.off else r.stop in
    if is_full r
    then 0
    else if r.stop == 0
    then if leb at limit_offset then limit_offset - at else (size r - at) + limit_offset
    else if leb at limit_offset && leb at r.off
    then min r.off limit_offset - at
    else if leb at limit_offset
    then limit_offset - at
    else if leb at r.off
    then r.off - at
    else (size r - at) + min limit_offset r.off

unfoldable pub write_limited : Ring → List ℕ → ℕ → Ran Written
unfolding size
write_limited r b limit_offset =
    if ltb (size r) limit_offset
    then panicked
    else if ltb (size r) (length b)
    then ran (r, 0, some short_buffer)
    else if ltb (free_limited r limit_offset) (length b)
    then ran (r, 0, some buffer_full)
    else write r b

unfoldable pub peek_write : Ring → List ℕ → ℕ → Ring × Bool
unfolding size copy_to
peek_write r b offset =
    let at = write_start r + offset in
    let at' = if leb (size r) at then at - size r else at in
    let (n, buf1) = copy_to r.buf at' (size r) b in
    let (n2, buf2) = copy_to buf1 0 (size r) (drop n b) in
    if ltb (free r) (offset + length b)
    then (r, false)
    else (record r { buf = if ltb n (length b) then buf2 else buf1 }, true)

unfoldable pub commit : Ring → ℕ → Ring × Option Error
unfolding size
commit r n =
    let start = if r.stop == 0 then r.off else r.stop in
    let stop' = start + n in
    if n == 0
    then (r, some invalid_commit)
    else if ltb (free r) n
    then (r, some buffer_full)
    else (record r { stop = if ltb (size r) stop' then stop' - size r else stop' }, none)

unfoldable pub emptied : Ring → Ring
unfolding size
emptied r = record r { off = if r.stop == size r then 0 else r.stop; stop = 0 }

unfoldable pub read_discard : Ring → ℕ → Ring × Option Error
unfolding size
read_discard r n =
    if n == 0
    then (r, some invalid_discard)
    else if ltb (buffered r) n
    then (r, some discard_exceeds)
    else if n == buffered r
    then (emptied r, none)
    else if ltb (size r) (n + r.off)
    then (record r { off = n - (size r - r.off) }, none)
    else (record r { off = r.off + n }, none)

unfoldable pub add_off : Ring → ℕ → ℕ → ℕ
unfolding size
add_off r a b = let result = a + b in if ltb (size r) result then result - size r else result

-- `read` into a slice of `n` bytes: the bytes copied to its front, and the error.
unfoldable pub read_bytes : Ring → ℕ → List ℕ × Option Error
read_bytes r n =
    let first = take n (drop r.off r.buf) in
    if n == 0
    then ([], none)
    else if is_empty r
    then ([], some eof)
    else if ltb r.off r.stop
    then (take n (drop r.off (take r.stop r.buf)), none)
    else if ltb (length first) n
    then (first ++ take (n - length first) (take r.stop r.buf), none)
    else (first, none)

unfoldable pub read_peek : Ring → ℕ → List ℕ × Option Error
unfolding read_bytes
read_peek r n = read_bytes r n

-- The bytes, the error and the ring of a read.
abbrev pub Taken : Type 0
Taken = List ℕ × Option Error × Ring

unfoldable pub on_read_end : Ring → ℕ → Ran Ring
unfolding size
on_read_end r total =
    let new_off = add_off r r.off total in
    if total == 0
    then panicked
    else if new_off == r.stop
    then ran (emptied r)
    else if new_off == size r
    then ran (record r { off = 0 })
    else ran (record r { off = new_off })

unfoldable pub finish_read : List ℕ → Ran Ring → Ran Taken
finish_read bytes panicked = panicked
finish_read bytes (ran r) = ran (bytes, none, r)

unfoldable pub read_after : Ring → ℕ → List ℕ × Option Error → Ran Taken
unfolding finish_read
read_after r n (bytes, some err) = ran (bytes, some err, r)
read_after r n (bytes, none) =
    if n == 0 then ran (bytes, none, r) else finish_read bytes (on_read_end r (length bytes))

unfoldable pub read : Ring → ℕ → Ran Taken
unfolding read_after
read r n = read_after r n (read_bytes r n)

-- On a platform with 64-bit `int`, where the overflow check of `ReadAt` is compiled out.
unfoldable pub read_at : Ring → ℕ → ℕ → List ℕ × Option Error
unfolding read_peek
read_at r n offset =
    if ltb (buffered r) (offset + n)
    then ([], some unexpected_eof)
    else read_peek (record r { off = add_off r r.off offset }) n

unfoldable pub reset : Ring → Ring
reset r = record r { off = 0; stop = 0 }
