-- ===== src/Prelude/Tally.antt =====
-- Sums of a weight over a list, and what appending, overwriting and moving the last element into a
-- gap do to them. A weight that is 1 on some elements and 0 on the others counts.
use native.Mathlib.Numerals.{add-one}
use asyncinput.Prelude.{
  ℕ, zero, suc, ◌+◌, ◌<◌, ◌≤◌, ◌≡◌, refl, ap, List, [], ◌∷◌, ◌++◌, arith, length, get_or, set, take,
  dec_lt,
}

module _ {ℓ} {A : Type ℓ} where
  abbrev pub tally : (A → ℕ) → List A → ℕ
  tally w [] = 0
  tally w (x ∷ xs) = w x + tally w xs

  pub tally-append : (w : A → ℕ) (xs ys : List A) → tally w (xs ++ ys) ≡ tally w xs + tally w ys
  tally-append w [] ys = omega arith
  tally-append w (x ∷ xs) ys = omega (arith, tally-append w xs ys)

  -- The prefix grows by the element that is written at its end.
  pub take-set_end :
      (xs : List A) (n : ℕ) (v : A)
      → n < length xs
      → take (n + 1) (set xs n v) ≡ take n xs ++ v ∷ []
  take-set_end [] n v h = elim h [ ]
  take-set_end (x ∷ xs) zero v h = refl
  take-set_end (x ∷ xs) (suc n) v h =
      rw add-one (ap (◌∷◌ x) (rw add-one at (take-set_end xs n v (omega arith))))

  pub tally-take-suc :
      (w : A → ℕ) (xs : List A) (n : ℕ) (d : A)
      → n < length xs
      → tally w (take (suc n) xs) ≡ tally w (take n xs) + w (get_or xs n d)
  tally-take-suc w [] n d h = elim h [ ]
  tally-take-suc w (x ∷ xs) zero d h = omega arith
  tally-take-suc w (x ∷ xs) (suc n) d h = omega (arith, tally-take-suc w xs n d (omega arith))

  pub tally-set :
      (w : A → ℕ) (xs : List A) (m i : ℕ) (v d : A)
      → i < m
      → i < length xs
      → tally w (take m (set xs i v)) + w (get_or xs i d) ≡ tally w (take m xs) + w v
  tally-set w [] m i v d h k = elim k [ ]
  tally-set w (x ∷ xs) zero i v d h k = elim h [ ]
  tally-set w (x ∷ xs) (suc m) zero v d h k = omega arith
  tally-set w (x ∷ xs) (suc m) (suc i) v d h k =
      omega (arith, tally-set w xs m i v d (omega arith) (omega arith))

  pub take-set_after : (xs : List A) (m i : ℕ) (v : A) → m ≤ i → take m (set xs i v) ≡ take m xs
  take-set_after [] m i v h = refl
  take-set_after (x ∷ xs) zero i v h = refl
  take-set_after (x ∷ xs) (suc m) zero v h = elim h [ ]
  take-set_after (x ∷ xs) (suc m) (suc i) v h = ap (◌∷◌ x) (take-set_after xs m i v (omega arith))

  -- The last element of a prefix moved into the place of element `i`: the shorter prefix has lost
  -- just element `i`.
  pub tally_move :
      (w : A → ℕ) (xs : List A) (n i : ℕ) (d : A)
      → i < suc n
      → n < length xs
      → w (get_or xs i d) + tally w (take n (set xs i (get_or xs n d))) ≡ tally w (take (suc n) xs)
  tally_move w xs n i d h k = elim (dec_lt i n) [
    | yes p ↦
        omega
          (arith, tally-take-suc w xs n d k, tally-set w xs n i (get_or xs n d) d p (omega arith))
    | no p ↦
        let e : i ≡ n = omega arith in
        rw e (
          omega (
            arith,
            tally-take-suc w xs n d k,
            ap (tally w) (take-set_after xs n n (get_or xs n d) (omega arith)),
          ))
  ]
