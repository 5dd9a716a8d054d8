-- ===== src/Ring/Tests.antt =====
-- The theorems on the event ring at concrete inputs: a ring of four slots.
use mathlib.Core.List.{Sublist}
use asyncinput.Prelude.{ℕ, ◌≡◌, refl, List, [], ◌∷◌, ◌++◌, arith, length, take, drop, min}
use asyncinput.Ring.{RingBuf, ring_push, ring_pop_many}
use asyncinput.Ring.Fifo.{offer}
use asyncinput.Ring.Bounds.{IsValid}
use asyncinput.Ring.Refine.{contents, contents-ring_push}
use asyncinput.Ring.Drain.{ring_pop_many-poll}
use asyncinput.Ring.Runs.{Op, put, take_many, run, run-sublist, run_lossless}

-- 8, then 9, round the end of the slots
abbrev wrapped : RingBuf ℕ
wrapped = record { ev = 9 ∷ 0 ∷ 0 ∷ 8 ∷ []; head = 1; tail = 3 }

wrapped-IsValid : IsValid 4 wrapped
wrapped-IsValid = omega arith

wrapped-contents : contents 4 0 wrapped ≡ 8 ∷ 9 ∷ []
wrapped-contents = refl

contents-ring_push_example :
    contents 4 0 (ring_push 4 0 wrapped 7) ≡ offer 3 (contents 4 0 wrapped) 7
contents-ring_push_example = contents-ring_push 4 0 wrapped 7 wrapped-IsValid

ring_pop_many-poll_example :
    let (n, r, out) = ring_pop_many 4 0 wrapped (5 ∷ 5 ∷ 5 ∷ []) 3 in
    (n ≡ min 3 (length (contents 4 0 wrapped)))
    × (contents 4 0 r ≡ drop 3 (contents 4 0 wrapped))
    × (take n out ≡ take 3 (contents 4 0 wrapped))
    × (drop n out ≡ drop n (5 ∷ 5 ∷ 5 ∷ []))
ring_pop_many-poll_example =
    ring_pop_many-poll 4 0 wrapped (5 ∷ 5 ∷ 5 ∷ []) 3 wrapped-IsValid (omega arith)

-- More is pushed than fits.
abbrev crowded : List (Op ℕ)
crowded = put 1 ∷ put 2 ∷ take_many 1 ∷ put 3 ∷ take_many 9 ∷ []

run-sublist_example :
    let (taken, end) = run 4 0 wrapped crowded in
    Sublist (taken ++ contents 4 0 end) (contents 4 0 wrapped ++ (1 ∷ 2 ∷ 3 ∷ []))
run-sublist_example = run-sublist 4 0 crowded wrapped wrapped-IsValid

run_lossless_example :
    let (taken, end) = run 4 0 wrapped (put 1 ∷ take_many 2 ∷ []) in
    taken ++ contents 4 0 end ≡ contents 4 0 wrapped ++ (1 ∷ [])
run_lossless_example =
    run_lossless 4 0 (put 1 ∷ take_many 2 ∷ []) wrapped wrapped-IsValid (omega arith)
