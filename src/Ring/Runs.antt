-- ===== src/Ring/Runs.antt =====
-- A worker thread pushes and the application polls. Both hold the ring's lock for a whole call, so a
-- run of the two threads is a sequence of calls; here is what any such sequence does.
use mathlib.Core.List.{Sublist, append_assoc, append-nil}
use mathlib.Core.List.Sublist
use asyncinput.Prelude.{
  ℕ, ◌+◌, ◌-◌, ◌≤◌, ◌≡◌, refl, sym, ap, ap₂, subst₂, ◌∙◌, List, [], ◌∷◌, ◌++◌, arith, length,
  length-append, length-drop, length-replicate, take, drop, take-append-drop, replicate, ltb,
  lt→ltb, Bool-cases, inl, inr,
}
use asyncinput.Ring.{RingBuf, ring_push, ring_pop_many}
use asyncinput.Ring.Fifo.{offer, poll}
use asyncinput.Ring.Bounds.{IsValid, ring_push-IsValid, ring_pop_many-IsValid}
use asyncinput.Ring.Refine.{contents, contents-ring_push}
use asyncinput.Ring.Drain.{ring_pop_many-poll}

pub data Op {ℓ} (A : Type ℓ) : Type ℓ where
  put : A → Op A
  take_many : ℕ → Op A

module _ {ℓ} {A : Type ℓ} where
  -- the pushed events, in order
  abbrev pub puts : List (Op A) → List A
  puts [] = []
  puts (put e ∷ ops) = e ∷ puts ops
  puts (take_many max ∷ ops) = puts ops

  -- all events that the calls took, in order, and what stays queued
  unfoldable pub serve : ℕ → List A → List (Op A) → List A × List A
  serve cap q [] = ([], q)
  serve cap q (put e ∷ ops) = serve cap (offer cap q e) ops
  serve cap q (take_many max ∷ ops) =
      let (n, q', got) = poll max q in let (rest, end) = serve cap q' ops in (got ++ rest, end)

module _ {ℓ} {A : Type ℓ} (size : ℕ) (blank : A) where
  -- The same of a ring. A poller offers an array of `max` elements and reads the first n.
  unfoldable pub run : RingBuf A → List (Op A) → List A × RingBuf A
  run r [] = ([], r)
  run r (put e ∷ ops) = run (ring_push size blank r e) ops
  run r (take_many max ∷ ops) =
      let (n, r', out) = ring_pop_many size blank r (replicate max blank) max in
      let (rest, end) = run r' ops in (take n out ++ rest, end)

  -- Whatever the interleaving of pushes and polls, a valid ring hands out and keeps exactly the
  -- events that the bounded queue of its contents does.
  pub run-serve :
      (ops : List (Op A)) (r : RingBuf A)
      → IsValid size r
      → ((run r ops).0 ≡ (serve (size - 1) (contents size blank r) ops).0)
        × (contents size blank (run r ops).1 ≡ (serve (size - 1) (contents size blank r) ops).1)
  unfolding run serve poll
  run-serve [] r v = (refl, refl)
  run-serve (put e ∷ ops) r v =
      let (taken, left) =
        run-serve ops (ring_push size blank r e) (ring_push-IsValid size blank r e v) in
      let pushed = contents-ring_push size blank r e v in
      (
        taken ∙ ap (λ q. (serve (size - 1) q ops).0) pushed,
        left ∙ ap (λ q. (serve (size - 1) q ops).1) pushed,
      )
  run-serve (take_many max ∷ ops) r v =
      let out = replicate max blank in
      let (_, rest, got, _) =
        ring_pop_many-poll size blank r out max v (omega (arith, length-replicate max blank)) in
      let (taken, left) =
        run-serve ops (ring_pop_many size blank r out max).1
          (ring_pop_many-IsValid size blank r out max v) in
      (
        ap₂ ◌++◌ got (taken ∙ ap (λ q. (serve (size - 1) q ops).0) rest),
        left ∙ ap (λ q. (serve (size - 1) q ops).1) rest,
      )

module _ {ℓ} {A : Type ℓ} (cap : ℕ) where
  -- While the capacity suffices nothing is dropped.
  serve_lossless :
      (q : List A) (ops : List (Op A))
      → length q + length (puts ops) ≤ cap
      → let (taken, left) = serve cap q ops in taken ++ left ≡ q ++ puts ops
  unfolding serve offer poll
  serve_lossless q [] h = sym (append-nil q)
  serve_lossless q (put e ∷ ops) h =
      rw (lt→ltb (length q) cap (omega arith), serve, offer)
        (serve_lossless (q ++ e ∷ []) ops (omega (arith, length-append q (e ∷ [])))
          ∙ append_assoc q (e ∷ []) (puts ops))
  serve_lossless q (take_many max ∷ ops) h =
      append_assoc (take max q) _ _
      ∙ ap (◌++◌ (take max q)) (serve_lossless (drop max q) ops (omega (arith, length-drop max q)))
      ∙ sym (append_assoc (take max q) (drop max q) (puts ops))
      ∙ ap (λ xs. xs ++ puts ops) (take-append-drop max q)

  -- Otherwise events are lost, but none is made up, repeated or reordered.
  serve-sublist :
      (q : List A) (ops : List (Op A))
      → let (taken, left) = serve cap q ops in Sublist (taken ++ left) (q ++ puts ops)
  unfolding serve offer poll
  serve-sublist q [] = rw append-nil (Sublist.refl q)
  serve-sublist q (put e ∷ ops) = elim (Bool-cases (ltb (length q) cap)) [
    | inl room ↦
        rw (room, serve, offer)
          (rw (append_assoc q (e ∷ []) (puts ops)) at (serve-sublist (q ++ e ∷ []) ops))
    | inr full ↦
        rw (full, serve, offer)
          (Sublist.trans (serve-sublist q ops)
            (Sublist.append (Sublist.refl q) (Sublist.cons e (Sublist.refl (puts ops)))))
  ]
  serve-sublist q (take_many max ∷ ops) =
      subst₂ Sublist (sym (append_assoc (take max q) _ _))
        (sym (append_assoc (take max q) (drop max q) (puts ops))
          ∙ ap (λ xs. xs ++ puts ops) (take-append-drop max q))
        (Sublist.append (Sublist.refl (take max q)) (serve-sublist (drop max q) ops))

module _ {ℓ} {A : Type ℓ} (size : ℕ) (blank : A) where
  -- From a valid ring, with a worker that pushes and an application that polls in any interleaving:
  -- what was handed out followed by what is still queued is, in order, a sublist of what was queued
  -- followed by what was pushed. So no event is made up, repeated or overtaken.
  pub run-sublist :
      (ops : List (Op A)) (r : RingBuf A)
      → IsValid size r
      → let (taken, end) = run size blank r ops in
        Sublist (taken ++ contents size blank end) (contents size blank r ++ puts ops)
  run-sublist ops r v =
      let (taken, left) = run-serve size blank ops r v in
      rw (taken, left) (serve-sublist (size - 1) (contents size blank r) ops)

  -- From a valid ring, with pushes and polls in any interleaving: if what is queued and what is
  -- pushed fit into `size - 1` slots together, then what was handed out followed by what is still
  -- queued is what was queued followed by what was pushed. No event is lost.
  pub run_lossless :
      (ops : List (Op A)) (r : RingBuf A)
      → IsValid size r
      → length (contents size blank r) + length (puts ops) ≤ size - 1
      → let (taken, end) = run size blank r ops in
        taken ++ contents size blank end ≡ contents size blank r ++ puts ops
  run_lossless ops r v h =
      let (taken, left) = run-serve size blank ops r v in
      ap₂ ◌++◌ taken left ∙ serve_lossless (size - 1) (contents size blank r) ops h
