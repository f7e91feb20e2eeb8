-- ===== src/Arp.antt =====
-- arp/cache.go: the cache of an ARP handler. A pointer to an entry is its index. The bits of `eflags`
-- are the fields of a record.
pub mod Acquire
pub mod Answers
pub mod Handler
mod Tests
use lneto.Base.{
  ℕ, ◌+◌, Bool, true, false, not, ◌&&◌, ◌||◌, Option, none, some, List, [], ◌∷◌, ◌++◌, map, ltb,
  leb, ◌==◌, if◌then◌else◌, length, get_elem?, set, take, drop, replicate, Ran, ran, panicked,
}

pub record Eflags : Type 0 where
  pub in_use : Bool
  pub ipv6 : Bool
  pub pending_response : Bool
  pub incomplete : Bool
  pub incomplete_pending_query : Bool
  pub priority : Bool
  pub resolve_triggers_callback : Bool

pub record Entry : Type 0 where
  pub addr : List ℕ
  pub mac : List ℕ
  pub age : ℕ
  pub flags : Eflags

abbrev pub no_flags : Eflags
no_flags = record {
  in_use = false;
  ipv6 = false;
  pending_response = false;
  incomplete = false;
  incomplete_pending_query = false;
  priority = false;
  resolve_triggers_callback = false;
}

-- `entry{}`
unfoldable pub destroyed : Entry
destroyed = record { addr = replicate 16 0; mac = replicate 6 0; age = 0; flags = no_flags }

-- `copy(e.addr[:], proto)`
unfoldable pub copy_addr : List ℕ → List ℕ → List ℕ
copy_addr addr proto = take 16 proto ++ drop (length proto) addr

-- `entry.use`
unfoldable pub use_entry : Entry → List ℕ → List ℕ → Eflags → Entry
unfolding copy_addr
use_entry e mac proto flags = record {
  addr = copy_addr e.addr proto;
  mac = mac;
  age = 0;
  flags = record flags { in_use = true; ipv6 = flags.ipv6 || leb 16 (length proto) };
}

unfoldable pub age_entry : Entry → Entry
age_entry e = if e.flags.in_use && ltb e.age 255 then record e { age = e.age + 1 } else e

unfoldable pub age : List Entry → List Entry
unfolding age_entry
age entries = map age_entry entries

-- `internal.BytesEqual`
unfoldable pub bytes_equal : List ℕ → List ℕ → Bool
bytes_equal [] [] = true
bytes_equal [] (b ∷ bs) = false
bytes_equal (a ∷ as') [] = false
bytes_equal (a ∷ as') (b ∷ bs) = a == b && bytes_equal as' bs

unfoldable pub matches : List ℕ → Entry → Bool
unfolding bytes_equal
matches addr e = e.flags.in_use && bytes_equal (take (length addr) e.addr) addr

-- The first entry that a test holds of.
unfoldable pub find_from : (Entry → Bool) → ℕ → List Entry → Option ℕ
find_from test i [] = none
find_from test i (e ∷ entries) = if test e then some i else find_from test (i + 1) entries

-- `Lookup`, for an address of at most 16 bytes.
unfoldable pub lookup : List Entry → List ℕ → Option ℕ
unfolding find_from matches
lookup entries addr = find_from (matches addr) 0 entries

unfoldable pub get_next_flagged : List Entry → (Eflags → Bool) → Option ℕ
unfolding find_from
get_next_flagged entries has = find_from (λ e. e.flags.in_use && has e.flags) 0 entries

-- `clearFlags`
unfoldable pub clear_flags : List Entry → (Eflags → Bool) → (Eflags → Eflags) → List Entry
clear_flags entries has clear =
    map (λ e. if has e.flags then record e { flags = clear e.flags } else e) entries

-- `flags.hasAny(priorityFlags)`
unfoldable pub has_priority : Eflags → Bool
has_priority flags = flags.pending_response || flags.incomplete || flags.priority

unfoldable pub age_at : List Entry → ℕ → ℕ
age_at entries i = elim (get_elem? entries i) [ none ↦ 0 | some e ↦ e.age ]

-- The oldest entry without priority so far, when the entry at `i` is looked at.
unfoldable pub next_passive : List Entry → ℕ → Entry → Option ℕ → Option ℕ
unfolding has_priority age_at
next_passive entries i e none = if has_priority e.flags then none else some i
next_passive entries i e (some p) =
    if has_priority e.flags then some p else if ltb (age_at entries p) e.age then some i else some p

-- The loop of `acquireNext`: `oldest`, `oldestPassive`, and whether `oldest` is not in use.
unfoldable pub scan : List Entry → ℕ → List Entry → ℕ → Option ℕ → ℕ × Option ℕ × Bool
unfolding next_passive age_at
scan entries i [] oldest passive = (oldest, passive, false)
scan entries i (e ∷ rest) oldest passive =
    if not e.flags.in_use
    then (i, passive, true)
    else scan entries (i + 1) rest (if ltb (age_at entries oldest) e.age then i else oldest)
        (next_passive entries i e passive)

-- The entry that `acquireNext` takes.
unfoldable pub pick : ℕ × Option ℕ × Bool → ℕ
pick (oldest, passive, free) = if free then oldest else elim passive [ none ↦ oldest | some p ↦ p ]

-- `acquireNext`, with the index of the entry that it returns. Without entries it panics.
unfoldable pub acquire_next : List Entry → Ran (ℕ × List Entry)
unfolding scan pick age destroyed
acquire_next entries =
    let i = pick (scan entries 0 entries 0 none) in
    if ltb i (length entries) then ran (i, set (age entries) i destroyed) else panicked
