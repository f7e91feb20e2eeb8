-- ===== src/Tcp/Reassembly/Tests.antt =====
-- Witnesses for tcp/reassembly.go: a ring of 16 bytes, and segments at 1004 and then at 1000 of the
-- stream that has its sequence number's last byte at each place.
use lneto.Base.{
  ℕ, ◌+◌, ◌%◌, ◌≡◌, refl, true, false, none, [], ◌∷◌, arith, replicate, write_at, rotate, ran,
}
use lneto.Tcp.Value.{Value, less_than, add, sizeof}
use lneto.Internal.Ring.{Ring, size, free, write_start, copy_to, write, peek_write}
use lneto.Internal.Ring.Line.{IsValid, line}
use lneto.Tcp.Reassembly.{
  Reassembly, enabled, insertion_point, overlaps_predecessor, successor, insert_at, stage, store_at,
  store, reassemble,
}
use lneto.Tcp.Reassembly.Stream.{bytes, Chain, Holds}
use lneto.Tcp.Reassembly.Receive.{Received, write-reassemble}
use lneto.Tcp.Reassembly.Store.{Stored, store-Stored}

abbrev rx0 : Ring
rx0 = record { buf = replicate 16 0; off = 14; stop = 0 }

rx0-IsValid : IsValid rx0
rx0-IsValid = record { off_in = omega arith; stop_in = omega arith }

abbrev reasm0 : Reassembly
reasm0 = record { held = []; capacity = 8 }

abbrev low_byte : Value → ℕ
low_byte v = v % 256

store-Stored_example :
    Stored low_byte 1000 reasm0 rx0 1004 3 (store reasm0 rx0 1000 1004 (bytes low_byte 1004 3))
unfolding Chain free
store-Stored_example =
    store-Stored low_byte 1000 1004 3 reasm0 rx0 (omega arith) (omega arith) rx0-IsValid
      (omega arith) (omega arith)

-- The ring and the reassembly after that call.
abbrev rx1 : Ring
rx1 = record rx0 { buf = 0 ∷ 0 ∷ 236 ∷ 237 ∷ 238 ∷ replicate 11 0 }

abbrev reasm1 : Reassembly
reasm1 = record { held = record { seq = 1004; n = 3 } ∷ []; capacity = 8 }

store-ahead : store reasm0 rx0 1000 1004 (bytes low_byte 1004 3) ≡ (reasm1, rx1, true)
unfolding store enabled insertion_point overlaps_predecessor successor store_at stage insert_at
    sizeof add peek_write write_start free size copy_to write_at bytes
store-ahead = refl

-- The same bytes again are reported as held, and others over them are refused.
store-again : store reasm1 rx1 1000 1004 (bytes low_byte 1004 3) ≡ (reasm1, rx1, true)
unfolding store enabled insertion_point overlaps_predecessor successor store_at sizeof add free size
    bytes less_than
store-again = refl

store-over : store reasm1 rx1 1000 1006 (bytes low_byte 1006 3) ≡ (reasm1, rx1, false)
unfolding store enabled insertion_point overlaps_predecessor successor store_at sizeof add free size
    bytes less_than
store-over = refl

reasm1-Holds : Holds low_byte 1000 rx1 reasm1
unfolding Chain sizeof line write_start size rotate bytes free add
reasm1-Holds = (
  record {
    seq_in = omega arith;
    above = omega arith;
    some_bytes = omega arith;
    staged = λ q. refl;
  },
  omega arith,
)

-- Four bytes fill the gap, and three held ones follow.
write-reassemble_example :
    (rx2 : Ring) × (r' : Reassembly) × (rx' : Ring) × (k : ℕ) × (write rx1 (bytes low_byte 1000 4)
      ≡ ran (rx2, 4, none))
    × (reassemble reasm1 rx2 (add 1000 4) ≡ (r', rx', k))
    × Received low_byte 1000 rx1 (4 + k) r' rx'
unfolding free
write-reassemble_example =
    write-reassemble low_byte 1000 reasm1 rx1 4 (omega arith)
      (record { off_in = omega arith; stop_in = omega arith }) (omega arith) reasm1-Holds
      (omega arith) (omega arith)
