-- ===== src/Arp/Tests.antt =====
-- arp: runs of the cache, and its theorems at concrete entries.
use lneto.Base.{
  ℕ, ◌≡◌, refl, ◌≢◌, true, none, some, List, [], ◌∷◌, arith, get_elem?, replicate, ran,
}
use lneto.Arp.{Entry, no_flags, destroyed, age_entry, lookup, acquire_next}
use lneto.Arp.Acquire.{Picked, acquire_next_lem}
use lneto.Arp.Handler.{Handler, cache_seed, cache_lookup}
use lneto.Arp.Answers.{cache_lookup-cache_seed}

abbrev learned : Entry
learned = record {
  addr = 10 ∷ 0 ∷ 0 ∷ 1 ∷ replicate 12 0;
  mac = 2 ∷ 0 ∷ 0 ∷ 0 ∷ 0 ∷ 1 ∷ [];
  age = 4;
  flags = record no_flags { in_use = true };
}

abbrev queried : Entry
queried = record {
  addr = 10 ∷ 0 ∷ 0 ∷ 2 ∷ replicate 12 0;
  mac = replicate 6 0;
  age = 9;
  flags = record no_flags { in_use = true; incomplete = true; priority = true };
}

-- The query is older, and is kept.
acquire_run :
    acquire_next (queried ∷ learned ∷ []) ≡ ran (1, record queried { age = 10 } ∷ destroyed ∷ [])
unfolding acquire_next
acquire_run = refl

acquire_next_lem_example :
    (i : ℕ) × (after : List Entry) × (acquire_next (queried ∷ learned ∷ []) ≡ ran (i, after))
    × Picked (queried ∷ learned ∷ []) i
    × (get_elem? after i ≡ some destroyed)
    × ((j : ℕ) (e : Entry)
        → j ≢ i
        → get_elem? (queried ∷ learned ∷ []) j ≡ some e
        → get_elem? after j ≡ some (age_entry e))
acquire_next_lem_example = acquire_next_lem (queried ∷ learned ∷ []) (omega arith)

abbrev handler : Handler
handler = record { our_proto_addr = 10 ∷ 0 ∷ 0 ∷ 9 ∷ []; entries = queried ∷ learned ∷ [] }

not_there : lookup handler.entries (10 ∷ 0 ∷ 0 ∷ 3 ∷ []) ≡ none
unfolding lookup
not_there = refl

cache_lookup-cache_seed_example :
    (h' : Handler) × (cache_seed handler (10 ∷ 0 ∷ 0 ∷ 3 ∷ []) (2 ∷ 0 ∷ 0 ∷ 0 ∷ 0 ∷ 3 ∷ [])
      ≡ ran (h', none))
    × (cache_lookup h' (10 ∷ 0 ∷ 0 ∷ 3 ∷ []) ≡ (2 ∷ 0 ∷ 0 ∷ 0 ∷ 0 ∷ 3 ∷ [], none))
cache_lookup-cache_seed_example =
    cache_lookup-cache_seed handler (10 ∷ 0 ∷ 0 ∷ 3 ∷ []) (2 ∷ 0 ∷ 0 ∷ 0 ∷ 0 ∷ 3 ∷ []) (omega arith)
      (omega arith) refl not_there

-- An address of 4 bytes finds the entry of an address of 16 bytes that begins with them.
prefix_run :
    cache_lookup
      (record {
        our_proto_addr = 10 ∷ 0 ∷ 0 ∷ 9 ∷ [];
        entries =
            record {
              addr = 10 ∷ 0 ∷ 0 ∷ 3 ∷ replicate 12 7;
              mac = 6 ∷ 6 ∷ 6 ∷ 6 ∷ 6 ∷ 6 ∷ [];
              age = 0;
              flags = record no_flags { in_use = true; ipv6 = true };
            }
            ∷ [];
      })
      (10 ∷ 0 ∷ 0 ∷ 3 ∷ [])
    ≡ (6 ∷ 6 ∷ 6 ∷ 6 ∷ 6 ∷ 6 ∷ [], none)
unfolding cache_lookup
prefix_run = refl
