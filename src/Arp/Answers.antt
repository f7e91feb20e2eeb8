-- ===== src/Arp/Answers.antt =====
-- arp/handler.go: an address that was seeded is found.
use lneto.Base.{
  ℕ, zero, suc, ◌+◌, ◌≤◌, ◌<◌, ◌≡◌, refl, sym, ap, ◌∙◌, ◌≢◌, inl, inr, Bool, true, ◌&&◌, none, some,
  List, [], ◌∷◌, map, arith, ltb, ◌==◌, Bool-cases, length, set, take, drop, get_elem?-set_self,
  length-map, take_all, take_at, ran,
}
use lneto.Arp.{
  Eflags, Entry, no_flags, destroyed, copy_addr, use_entry, age_entry, age, bytes_equal, matches,
  find_from, lookup, scan, pick, acquire_next,
}
use lneto.Arp.Acquire.{pick-Picked, Picked-inside}
use lneto.Arp.Handler.{Handler, use_acquired, cache_seed, cache_lookup}

some-ne-none : {i : ℕ} → some i ≢ none
some-ne-none e = ground arith

-- No entry passes the test, but for the one that is set.
find_from-set :
    (test : Entry → Bool) (k i : ℕ) (e : Entry) (es : List Entry)
    → find_from test k es ≡ none
    → test e ≡ true
    → i < length es
    → find_from test k (set es i e) ≡ some (k + i)
unfolding find_from
find_from-set test k i e [] nothing is h = absurd (omega arith)
find_from-set test k zero e (x ∷ es) nothing is h = rw (is) (ap some (omega arith))
find_from-set test k (suc i) e (x ∷ es) nothing is h = elim (Bool-cases (test x)) [
  | inl t ↦ absurd (some-ne-none {i = k} (rw (← nothing, find_from, t) refl))
  | inr f ↦ rw (f) (
      find_from-set test (k + 1) i e es (sym (rw (find_from, f) refl) ∙ nothing) is (omega arith)
      ∙ ap some {x = k + 1 + i} {y = k + suc i} (omega arith))
]

find_from-map :
    (test : Entry → Bool) (f : Entry → Entry) (k : ℕ) (es : List Entry)
    → ((e : Entry) → test (f e) ≡ test e)
    → find_from test k (map f es) ≡ find_from test k es
unfolding find_from
find_from-map test f k [] same = refl
find_from-map test f k (e ∷ es) same = rw (same e, find_from-map test f (k + 1) es same) refl

matches-age : (addr : List ℕ) (e : Entry) → matches addr (age_entry e) ≡ matches addr e
unfolding matches age_entry
matches-age addr e = elim (Bool-cases (e.flags.in_use && ltb e.age 255)) [
  | inl y ↦ rw (age_entry, y) refl
  | inr n ↦ rw (age_entry, n) refl
]

bytes_equal_refl : (xs : List ℕ) → bytes_equal xs xs ≡ true
unfolding bytes_equal
bytes_equal_refl [] = refl
bytes_equal_refl (x ∷ xs) =
    let e : (x == x) ≡ true = ground arith in rw (e, bytes_equal_refl xs) refl

matches-use :
    (proto mac : List ℕ) (flags : Eflags)
    → length proto ≤ 16
    → matches proto (use_entry destroyed mac proto flags) ≡ true
unfolding matches use_entry copy_addr
matches-use proto mac flags h =
    let whole : take 16 proto ≡ proto = take_all 16 proto h in
    rw (whole, take_at proto (drop (length proto) destroyed.addr) refl, bytes_equal_refl proto) refl

set-set : (es : List Entry) (i : ℕ) (a b : Entry) → set (set es i a) i b ≡ set es i b
set-set [] i a b = refl
set-set (e ∷ es) zero a b = refl
set-set (e ∷ es) (suc i) a b = ap (λ xs. e ∷ xs) (set-set es i a b)

-- `CacheSeed` of an address of at most 16 bytes that `CacheLookup` does not find, into a cache with
-- entries and with a hardware address of 6 bytes, does not panic and has no error, and
-- `CacheLookup` of the address then gives the hardware address.
pub cache_lookup-cache_seed :
    (h : Handler) (proto hw : List ℕ)
    → 1 ≤ length h.entries
    → length proto ≤ 16
    → length hw ≡ 6
    → lookup h.entries proto ≡ none
    → (h' : Handler) × (cache_seed h proto hw ≡ ran (h', none))
      × (cache_lookup h' proto ≡ (hw, none))
unfolding cache_seed cache_lookup use_acquired acquire_next age lookup
cache_lookup-cache_seed h proto hw some_entry short six nothing =
    let es = h.entries in
    let i = pick (scan es 0 es 0 none) in
    let e = use_entry destroyed hw proto no_flags in
    let inside : i < length es = Picked-inside es i (pick-Picked es some_entry) in
    let hw6 : (length hw == 6) ≡ true = ground arith in
    let ok : ltb i (length es) ≡ true = ground arith in
    let size = length-map es age_entry in
    let aged : find_from (matches proto) 0 (age es) ≡ none =
      find_from-map (matches proto) age_entry 0 es (matches-age proto) ∙ nothing in
    let found : find_from (matches proto) 0 (set (age es) i e) ≡ some (0 + i) =
      find_from-set (matches proto) 0 i e (age es) aged (matches-use proto hw no_flags short)
        (omega arith) in
    let place : 0 + i ≡ i = omega arith in
    let here = get_elem?-set_self (age es) i e (omega arith) in
    (
      record h { entries = set (age es) i e },
      rw (hw6, ok, set-set (age es) i destroyed e) refl,
      rw (cache_lookup, lookup, found, place, here) refl,
    )
