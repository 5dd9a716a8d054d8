-- ===== src/Ring/Drain.antt =====
-- `ring_pop_many` takes the oldest events, in order, into the front of the caller's array.
use native.Mathlib.Numerals.{add-one}
use asyncinput.Prelude.{
  ℕ, zero, suc, ◌+◌, ◌%◌, ◌≤◌, ◌≡◌, refl, sym, ap, ◌∙◌, List, [], ◌∷◌, ◌++◌, min, arith, ℕ_discrete,
  length, get_or, set, take, drop, length-take, take-append_length, drop-append_length, eq→==,
  ne→==,
}
use asyncinput.Ring.{RingBuf, pop_loop, ring_pop_many}
use asyncinput.Ring.Bounds.{IsValid}
use asyncinput.Ring.Refine.{contents, contents_some, contents_none, next_cases}

module _ {ℓ} {A : Type ℓ} where
  -- `xs` written into `out` from index `n` on
  abbrev overlay : List A → ℕ → List A → List A
  overlay out n [] = out
  overlay out n (x ∷ xs) = overlay (set out n x) (suc n) xs

  overlay-suc :
      (a : A) (out : List A) (n : ℕ) (xs : List A)
      → overlay (a ∷ out) (suc n) xs ≡ a ∷ overlay out n xs
  overlay-suc a out n [] = refl
  overlay-suc a out n (x ∷ xs) = overlay-suc a (set out n x) (suc n) xs

  overlay-zero :
      (out xs : List A) → length xs ≤ length out → overlay out 0 xs ≡ xs ++ drop (length xs) out
  overlay-zero out [] h = refl
  overlay-zero [] (x ∷ xs) h = absurd (omega arith)
  overlay-zero (a ∷ out) (x ∷ xs) h =
      overlay-suc x out 0 xs ∙ ap (◌∷◌ x) (overlay-zero out xs (omega arith))

module _ {ℓ} {A : Type ℓ} (size : ℕ) (blank : A) where
  -- what `k` more rounds make of the loop's variables
  record Popped (k n : ℕ) (r : RingBuf A) (out : List A) (end : ℕ × RingBuf A × List A)
      : Type ℓ where
    count : end.0 ≡ n + min k (length (contents size blank r))
    rest : contents size blank end.1 ≡ drop k (contents size blank r)
    copied : end.2 ≡ overlay out n (take k (contents size blank r))

  tail-IsValid :
      (r : RingBuf A) → IsValid size r → IsValid size (record r { tail = (r.tail + 1) % size })
  tail-IsValid r v = omega (arith, next_cases size r.tail v.tail_in)

  pop_loop-Popped :
      (k n : ℕ) (r : RingBuf A) (out : List A)
      → IsValid size r
      → Popped k n r out (pop_loop size blank k n r out)
  unfolding pop_loop
  pop_loop-Popped zero n r out v = record { count = omega arith; rest = refl; copied = refl }
  pop_loop-Popped (suc k) n r out v = elim (ℕ_discrete r.tail r.head) [
    | yes e ↦ rw (eq→== _ _ e, pop_loop) (stopped (contents_none size blank r v e))
    | no ne ↦
        rw (ne→== _ _ ne, pop_loop)
          (went (contents_some size blank r v ne)
            (pop_loop-Popped k (n + 1) r' out' (tail-IsValid r v)))
  ]
    where
      r' : RingBuf A
      r' = record r { tail = (r.tail + 1) % size }

      out' : List A
      out' = set out n (get_or r.ev r.tail blank)

      stopped : contents size blank r ≡ [] → Popped (suc k) n r out (n, r, out)
      stopped e = record { count = rw e (omega arith); rest = rw e; copied = rw e }

      went :
          contents size blank r ≡ get_or r.ev r.tail blank ∷ contents size blank r'
          → Popped k (n + 1) r' out' (pop_loop size blank k (n + 1) r' out')
          → Popped (suc k) n r out (pop_loop size blank k (n + 1) r' out')
      went e ih = record {
        count = omega (arith, ih.count, ap length e);
        rest = ih.rest ∙ sym (ap (drop (suc k)) e);
        copied = ih.copied ∙ rw add-one (ap (λ m. overlay out n (take (suc k) m)) (sym e));
      }

  Popped-poll :
      (r : RingBuf A) (out : List A) (max : ℕ) (end : ℕ × RingBuf A × List A)
      → max ≤ length out
      → Popped max 0 r out end
      → (end.0 ≡ min max (length (contents size blank r)))
        × (contents size blank end.1 ≡ drop max (contents size blank r))
        × (take end.0 end.2 ≡ take max (contents size blank r))
        × (drop end.0 end.2 ≡ drop end.0 out)
  Popped-poll r out max end h p = (
    omega (arith, p.count),
    p.rest,
    rw (len, whole) (take-append_length xs _),
    rw (len, whole) (drop-append_length xs _),
  )
    where
      xs : List A
      xs = take max (contents size blank r)

      len : end.0 ≡ length xs
      len = omega (arith, p.count, length-take max (contents size blank r))

      whole : end.2 ≡ xs ++ drop (length xs) out
      whole =
          p.copied ∙ overlay-zero out xs (omega (arith, length-take max (contents size blank r)))

  -- A call that may take `max` events out of a valid ring takes the oldest ones, as many as the
  -- bound and the ring allow, leaves the later ones queued in order, and returns the number taken;
  -- the events stand in order at the front of the caller's array, whose other elements stay as they
  -- were, provided the array has room for `max` events.
  pub ring_pop_many-poll :
      (r : RingBuf A) (out : List A) (max : ℕ)
      → IsValid size r
      → max ≤ length out
      → let (n, r', out') = ring_pop_many size blank r out max in
        (n ≡ min max (length (contents size blank r)))
        × (contents size blank r' ≡ drop max (contents size blank r))
        × (take n out' ≡ take max (contents size blank r))
        × (drop n out' ≡ drop n out)
  unfolding ring_pop_many
  ring_pop_many-poll r out max v h = Popped-poll r out max _ h (pop_loop-Popped max 0 r out v)
