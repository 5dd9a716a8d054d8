-- ===== src/Apps/Linear.antt =====
-- The compare-and-exchange loops of examples are atomic, and some thread always gets on.
use asyncinput.Prelude.{
  ℕ, ◌≡◌, ◌≢◌, refl, sym, ap, ◌∙◌, Bool, not, ◌&&◌, List, [], ◌∷◌, arith, if◌then◌else◌, ◌==◌,
  by_if, if_true, if_false, inl, inr, Bool-cases,
}
use asyncinput.Apps.Bits.{
  bit_at, bit_at-or_bit, bit_at-clear_bit, bit_at-or_bit_other, bit_at-clear_bit_other,
}
use asyncinput.Apps.Mask.{
  Update, new_mask, Local, outside, trying, Masked, enter, exchange, Move, load, compare, move,
  moves, at_rest,
}

-- the calls one after the other, the last one first
abbrev pub replay : ℕ → List Update → ℕ
replay m [] = m
replay m (u ∷ us) = new_mask u (replay m us)

-- a bit after them: what the last call on it says, or what it was
abbrev pub verdict : ℕ → ℕ → List Update → ℕ
verdict m b [] = bit_at m b
verdict m b (u ∷ us) = if u.bit == b then (if u.down then 1 else 0) else verdict m b us

enter-replay :
    (m : ℕ) (i : ℕ) (u : Update) (l : Local) (s : Masked)
    → s.mask ≡ replay m s.done
    → (enter i u l s).mask ≡ replay m (enter i u l s).done
unfolding enter
enter-replay m i u outside s h = h
enter-replay m i u (trying v n) s h = h

exchange-replay :
    (m : ℕ) (spurious : Bool) (i : ℕ) (l : Local) (s : Masked)
    → s.mask ≡ replay m s.done
    → (exchange spurious i l s).mask ≡ replay m (exchange spurious i l s).done
unfolding exchange
exchange-replay m spurious i outside s h = h
exchange-replay m spurious i (trying u n) s h =
    by_if (λ (t : Masked). t.mask ≡ replay m t.done) (s.mask == n && not spurious) _ _
      (λ same. ap (new_mask u) (ground (arith, h, same))) (λ _. h)

moves-replay :
    (m : ℕ) (ms : List Move) (s : Masked)
    → s.mask ≡ replay m s.done
    → (moves ms s).mask ≡ replay m (moves ms s).done
unfolding moves move
moves-replay m [] s h = h
moves-replay m (load i u ∷ ms) s h = moves-replay m ms _ (enter-replay m i u (s.local i) s h)
moves-replay m (compare spurious i ∷ ms) s h =
    moves-replay m ms _ (exchange-replay m spurious i (s.local i) s h)

hit : (u : Update) (m : ℕ) → bit_at (new_mask u m) u.bit ≡ (if u.down then 1 else 0)
unfolding new_mask
hit u m = elim (Bool-cases u.down) [
  | inl set ↦ rw set (bit_at-or_bit m u.bit)
  | inr clear ↦ rw clear (bit_at-clear_bit m u.bit)
]

miss : (u : Update) (m b : ℕ) → u.bit ≢ b → bit_at (new_mask u m) b ≡ bit_at m b
unfolding new_mask
miss u m b h = elim (Bool-cases u.down) [
  | inl set ↦ rw set (bit_at-or_bit_other m u.bit b h)
  | inr clear ↦ rw clear (bit_at-clear_bit_other m u.bit b h)
]

pub bit_at-new_mask :
    (u : Update) (m b : ℕ)
    → bit_at (new_mask u m) b ≡ (if u.bit == b then (if u.down then 1 else 0) else bit_at m b)
bit_at-new_mask u m b = elim (Bool-cases (u.bit == b)) [
  | inl same ↦
      ap (bit_at (new_mask u m)) (sym (ground (arith, same)))
      ∙ hit u m
      ∙ sym (if_true (u.bit == b) _ _ same)
  | inr other ↦ miss u m b (λ q. ground (arith, other, q)) ∙ sym (if_false (u.bit == b) _ _ other)
]

bit_at-replay : (m b : ℕ) (us : List Update) → bit_at (replay m us) b ≡ verdict m b us
bit_at-replay m b [] = refl
bit_at-replay m b (u ∷ us) =
    bit_at-new_mask u (replay m us) b
    ∙ ap (λ n. if u.bit == b then (if u.down then 1 else 0) else n) (bit_at-replay m b us)

-- However the moves of the threads interleave and however often the weak exchange fails, a bit of the mask
-- is what the last call of `set_bit` on it that came to its end says: no call undoes another one on a
-- different bit.
pub moves-bit_at :
    (m : ℕ) (ms : List Move) (b : ℕ)
    → bit_at (moves ms (at_rest m)).mask b ≡ verdict m b (moves ms (at_rest m)).done
moves-bit_at m ms b =
    let s = moves ms (at_rest m) in
    ap (λ n. bit_at n b) (moves-replay m ms (at_rest m) refl) ∙ bit_at-replay m b s.done
