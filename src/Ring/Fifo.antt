-- ===== src/Ring/Fifo.antt =====
-- What a ring promises: a first-in first-out queue of at most `cap` events, oldest first, that
-- drops the newest event when it is full.
use asyncinput.Prelude.{ℕ, List, [], ◌∷◌, ◌++◌, min, ltb, if◌then◌else◌, length, take, drop}

module _ {ℓ} {A : Type ℓ} where
  unfoldable pub offer : ℕ → List A → A → List A
  offer cap q e = if ltb (length q) cap then q ++ (e ∷ []) else q

  -- how many are taken, what stays, what was taken
  unfoldable pub poll : ℕ → List A → ℕ × List A × List A
  poll max q = (min max (length q), drop max q, take max q)
