-- ===== src/Internal/Ring/Tests.antt =====
-- Witnesses for internal/ring.go, on a ring of five bytes whose readable bytes go round its end.
use lneto.Base.{ℕ, ◌+◌, ◌≡◌, refl, none, some, List, [], ◌∷◌, arith, length, ran}
use lneto.Internal.Ring.{
  buffer_full, discard_exceeds, eof, Ring, size, free, buffered, read_discard,
}
use lneto.Internal.Ring.Line.{IsValid, contents, length-contents}
use lneto.Internal.Ring.Queue.{
  Op, put, get, skip, wrote, got, skipped, queue_step, queue_run, ring_run, ring_run_refines,
}

-- 7, then 8, then 9
abbrev wrapped : Ring
wrapped = record { buf = 8 ∷ 9 ∷ 0 ∷ 0 ∷ 7 ∷ []; off = 4; stop = 2 }

wrapped-IsValid : IsValid wrapped
wrapped-IsValid = omega arith

contents-wrapped : contents wrapped ≡ 7 ∷ 8 ∷ 9 ∷ []
unfolding contents
contents-wrapped = refl

abbrev two : List ℕ
two = 1 ∷ 2 ∷ []

abbrev script : List Op
script = put (1 ∷ 2 ∷ []) ∷ put (3 ∷ []) ∷ get 4 ∷ skip 2 ∷ put (4 ∷ 5 ∷ []) ∷ get 9 ∷ get 1 ∷ []

script_replies :
    queue_run 5 (7 ∷ 8 ∷ 9 ∷ []) script
    ≡ wrote 2 none
      ∷ wrote 0 (some buffer_full)
      ∷ got (7 ∷ 8 ∷ 9 ∷ 1 ∷ []) none
      ∷ skipped (some discard_exceeds)
      ∷ wrote 2 none
      ∷ got (2 ∷ 4 ∷ 5 ∷ []) none
      ∷ got [] (some eof)
      ∷ []
unfolding queue_run queue_step
script_replies = refl

ring_run_refines_example : ring_run wrapped script ≡ ran (queue_run 5 (7 ∷ 8 ∷ 9 ∷ []) script)
unfolding size contents
ring_run_refines_example = ring_run_refines script wrapped-IsValid

-- A read position of 4 that is moved to the end of a buffer of five bytes, with more to be read.
end_of_buffer : (read_discard wrapped 1).0.off ≡ 5
unfolding read_discard size buffered free
end_of_buffer = refl

length-contents_example :
    (length (contents wrapped) ≡ buffered wrapped)
    × (buffered wrapped + free wrapped ≡ size wrapped)
length-contents_example = length-contents wrapped-IsValid
