-- ===== src/Dns/Append.antt =====
-- dns/dns.go: `Message.AppendTo`. A buffer is its bytes and the capacity that is left. `extra` is the
-- runtime's: the capacity left after a buffer of that length has been moved for that many bytes more.
use lneto.Base.{
  ℕ, ◌+◌, ◌-◌, ◌/◌, ◌%◌, ◌^◌, Option, none, some, List, [], ◌∷◌, ◌++◌, ltb, leb, ◌==◌,
  if◌then◌else◌, length, Ran, ran, panicked,
}
use lneto.Dns.{Error, invalid_name}
use lneto.Dns.Name.{Name}
use lneto.Dns.Message.{Question, ResourceHeader, Resource}
use lneto.Dns.Parse.{size_header, Message}

pub record Buf : Type 0 where
  pub bytes : List ℕ
  pub room : ℕ

unfoldable pub be16 : ℕ → List ℕ
be16 v = v / 2 ^ 8 % 2 ^ 8 ∷ v % 2 ^ 8 ∷ []

unfoldable pub be32 : ℕ → List ℕ
unfolding be16
be32 v = be16 (v / 2 ^ 16 % 2 ^ 16) ++ be16 (v % 2 ^ 16)

unfoldable pub and_then {ℓ κ} : {A : Type ℓ} {B : Type κ} → Ran A → (A → Ran B) → Ran B
and_then (ran a) f = f a
and_then panicked f = panicked

-- Bytes that there is room for.
unfoldable pub grown : Buf → List ℕ → Buf
grown b xs = record { bytes = b.bytes ++ xs; room = b.room - length xs }

-- `b[len(b):len(b)+2]` is in the capacity, or it panics.
unfoldable pub append16 : Buf → ℕ → Ran Buf
unfolding grown be16
append16 b v = if leb 2 b.room then ran (grown b (be16 v)) else panicked

unfoldable pub append32 : Buf → ℕ → Ran Buf
unfolding grown be32
append32 b v = if leb 4 b.room then ran (grown b (be32 v)) else panicked

unfoldable pub name_len : Name → Ran ℕ
name_len n = if ltb (2 ^ 16 - 1) (length n) then panicked else ran (length n % 2 ^ 16)

-- `Question.Len`
unfoldable pub question_len : Question → Ran ℕ
unfolding name_len and_then
question_len q = and_then (name_len q.name) (λ n. ran ((n + 4) % 2 ^ 16))

-- `Resource.Len`
unfoldable pub len_resource : Resource → Ran ℕ
unfolding name_len and_then
len_resource r =
    and_then (name_len r.header.name)
      (λ n. ran (((n + 10) % 2 ^ 16 + length r.raw % 2 ^ 16) % 2 ^ 16))

-- A loop `for i := range xs { l += xs[i].Len() }`.
unfoldable pub add_lens {ℓ} : {S : Type ℓ} → (S → Ran ℕ) → List S → ℕ → Ran ℕ
unfolding and_then
add_lens len [] l = ran l
add_lens len (x ∷ xs) l = and_then (len x) (λ n. add_lens len xs ((l + n) % 2 ^ 16))

unfoldable pub len_resources : Message → Ran ℕ
unfolding add_lens question_len len_resource and_then
len_resources m = and_then (add_lens question_len m.questions 0) (λ l.
    and_then (add_lens len_resource m.answers l) (λ l.
      and_then (add_lens len_resource m.authorities l)
        (λ l. add_lens len_resource m.additionals l)))

-- `Message.Len`
unfoldable pub message_len : Message → Ran ℕ
unfolding len_resources and_then
message_len m = and_then (len_resources m) (λ l. ran ((size_header + l) % 2 ^ 16))

-- The next entry, or the end at an error.
unfoldable pub or_error :
    Ran (Buf × Option Error) → (Buf → Ran (Buf × Option Error)) → Ran (Buf × Option Error)
or_error (ran (b, some e)) next = ran (b, some e)
or_error (ran (b, none)) next = next b
or_error panicked next = panicked

unfoldable pub append_each {ℓ} :
    {S : Type ℓ} → (S → Buf → Ran (Buf × Option Error)) → List S → Buf → Ran (Buf × Option Error)
unfolding or_error
append_each append [] b = ran (b, none)
append_each append (x ∷ xs) b = or_error (append x b) (λ b. append_each append xs b)

-- The twelve bytes that the setters of the frame write.
unfoldable pub header_bytes : Message → ℕ → ℕ → List ℕ
unfolding be16
header_bytes m txid flags =
    be16 txid
    ++ (be16 flags
        ++ (be16 (length m.questions)
            ++ (be16 (length m.answers)
                ++ (be16 (length m.authorities) ++ be16 (length m.additionals)))))

module _ (extra : ℕ → ℕ → ℕ) where
  -- `append(b, xs...)`
  unfoldable pub append_bytes : Buf → List ℕ → Buf
  unfolding grown
  append_bytes b xs =
      if leb (length xs) b.room
      then grown b xs
      else record { bytes = b.bytes ++ xs; room = extra (length b.bytes) (length xs) }

  -- `slices.Grow(b, n)`
  unfoldable pub grow : Buf → ℕ → Buf
  grow b n =
      if leb n b.room then b else record { bytes = b.bytes; room = n + extra (length b.bytes) n }

  -- `Name.AppendTo`
  unfoldable pub append_name_to : Name → Buf → Buf × Option Error
  unfolding append_bytes
  append_name_to n b = if length n == 0 then (b, some invalid_name) else (append_bytes b n, none)

  unfoldable pub append_question : Question → Buf → Ran (Buf × Option Error)
  unfolding append_name_to append16 and_then or_error
  append_question q b =
      or_error (ran (append_name_to q.name b)) (λ b.
        and_then (append16 b q.kind) (λ b. and_then (append16 b q.class) (λ b. ran (b, none))))

  -- `ResourceHeader.appendTo`
  unfoldable pub append_header : ResourceHeader → Buf → Ran (Buf × Option Error)
  unfolding append_name_to append16 append32 and_then or_error
  append_header h b = or_error (ran (append_name_to h.name b)) (λ b.
      and_then (append16 b h.kind) (λ b. and_then (append16 b h.class) (λ b.
        and_then (append32 b h.ttl) (λ b. and_then (append16 b h.size) (λ b. ran (b, none))))))

  unfoldable pub append_resource : Resource → Buf → Ran (Buf × Option Error)
  unfolding append_header append_bytes or_error
  append_resource r b = or_error (append_header r.header b) (λ b. ran (append_bytes b r.raw, none))

  -- `Message.AppendTo`
  unfoldable pub append_message : Message → Buf → ℕ → ℕ → Ran (Buf × Option Error)
  unfolding message_len and_then grow grown header_bytes append_each append_question append_resource
      or_error
  append_message m b txid flags = and_then (message_len m) (λ n.
      let b' = grow b n in
      if leb size_header b'.room
      then or_error (append_each append_question m.questions (grown b' (header_bytes m txid flags)))
          (λ b. or_error (append_each append_resource m.answers b) (λ b.
            or_error (append_each append_resource m.authorities b)
              (λ b. append_each append_resource m.additionals b)))
      else panicked)
