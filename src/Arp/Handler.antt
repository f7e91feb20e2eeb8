-- ===== src/Arp/Handler.antt =====
-- arp/handler.go: what a user of the handler does with the cache. The state is `ourProtoAddr` and the
-- cache's entries.
use lneto.Base.{
  ℕ, Bool, true, false, ◌||◌, Option, none, some, List, [], ◌==◌, if◌then◌else◌, length, get_elem?,
  set, replicate, Ran, ran, panicked,
}
use lneto.Arp.{Eflags, Entry, no_flags, destroyed, use_entry, lookup, clear_flags, acquire_next}

pub data Error : Type 0 where
  unsupported mismatch_len query_not_found query_pending : Error

-- The part of `Handler` that these operations touch.
pub record Handler : Type 0 where
  pub our_proto_addr : List ℕ
  pub entries : List Entry

unfoldable pub use_acquired :
    Handler → Ran (ℕ × List Entry) → List ℕ → List ℕ → Eflags → Ran (Handler × Option Error)
unfolding use_entry
use_acquired h panicked mac proto flags = panicked
use_acquired h (ran (i, entries)) mac proto flags =
    ran (record h { entries = set entries i (use_entry destroyed mac proto flags) }, none)

-- `CacheSeed`
unfoldable pub cache_seed : Handler → List ℕ → List ℕ → Ran (Handler × Option Error)
unfolding use_acquired acquire_next
cache_seed h proto_addr hw_addr =
    if length hw_addr == 6
    then use_acquired h (acquire_next h.entries) hw_addr proto_addr no_flags
    else ran (h, some unsupported)

-- `CacheLookup`
unfoldable pub cache_lookup : Handler → List ℕ → List ℕ × Option Error
unfolding lookup
cache_lookup h proto_addr = elim (lookup h.entries proto_addr) [
  | none ↦ ([], some query_not_found)
  | some i ↦ elim (get_elem? h.entries i) [
    | none ↦ ([], some query_not_found)
    | some e ↦ if e.flags.incomplete then ([], some query_pending) else (e.mac, none)
  ]
]

-- `CacheRemove`
unfoldable pub cache_remove : Handler → List ℕ → Handler × Option Error
unfolding lookup destroyed
cache_remove h proto_addr = elim (lookup h.entries proto_addr) [
  | none ↦ (h, some query_not_found)
  | some i ↦ (record h { entries = set h.entries i destroyed }, none)
]

-- `StartQuery`
unfoldable pub start_query : Handler → List ℕ → Bool → Ran (Handler × Option Error)
unfolding use_acquired acquire_next
start_query h proto trigger_callback =
    if length proto == length h.our_proto_addr
    then use_acquired h (acquire_next h.entries) (replicate 6 0) proto (record {
      in_use = false;
      ipv6 = false;
      pending_response = false;
      incomplete = true;
      incomplete_pending_query = true;
      priority = true;
      resolve_triggers_callback = trigger_callback;
    })
    else ran (h, some mismatch_len)

-- `AbortPending`
unfoldable pub abort_pending : Handler → Handler
unfolding clear_flags
abort_pending h = record h {
  entries =
      clear_flags h.entries (λ f. f.pending_response || f.incomplete)
        (λ f. record f { in_use = false });
}
