-- ===== src/Apps/Progress.antt =====
-- Of the threads in the compare-and-exchange loops of examples some thread always gets on.
use asyncinput.Prelude.{
  ℕ, ◌<◌, ◌≤◌, ◌≡◌, refl, sym, ap, subst, ◌∙◌, ◌⊎◌, Bool, true, false, not, ◌&&◌, List, [], ◌∷◌,
  arith, length, ◌==◌, by_if, if_true, if_false, inl, inr,
}
use asyncinput.Apps.Mask.{
  Update, Local, outside, trying, Masked, put_local, enter, exchange, Move, load, compare, move,
  moves,
}

-- Which thread moves.
abbrev pub by : Move → ℕ
by (load i u) = i
by (compare spurious i) = i

abbrev pub others : ℕ → List Move → Bool
others i [] = true
others i (m ∷ ms) = not (by m == i) && others i ms

-- A thread that does not move keeps its place; the mask changes only by a call that ends.
record Waited (i : ℕ) (s t : Masked) : Type 0 where
  pub place : t.local i ≡ s.local i
  pub ended : (t.mask ≡ s.mask) ⊎ (length s.done < length t.done)
  pub grows : length s.done ≤ length t.done

enter-Waited :
    (i j : ℕ) (u : Update) (l : Local) (s : Masked) → (j == i) ≡ false → Waited i s (enter j u l s)
unfolding enter
enter-Waited i j u outside s h = record {
  place = if_false (j == i) _ _ h;
  ended = inl refl;
  grows = omega arith;
}
enter-Waited i j u (trying v m) s h = record { place = refl; ended = inl refl; grows = omega arith }

exchange-Waited :
    (i j : ℕ) (spurious : Bool) (l : Local) (s : Masked)
    → (j == i) ≡ false
    → Waited i s (exchange spurious j l s)
unfolding exchange
exchange-Waited i j spurious outside s h = record {
  place = refl;
  ended = inl refl;
  grows = omega arith;
}
exchange-Waited i j spurious (trying u m) s h =
    by_if (Waited i s) (s.mask == m && not spurious) _ _
      (λ _. record {
        place = if_false (j == i) _ _ h;
        ended = inr (omega arith);
        grows = omega arith;
      })
      (λ _. record { place = if_false (j == i) _ _ h; ended = inl refl; grows = omega arith })

move-Waited : (i : ℕ) (m : Move) (s : Masked) → (by m == i) ≡ false → Waited i s (move m s)
unfolding move
move-Waited i (load j u) s h = enter-Waited i j u (s.local j) s h
move-Waited i (compare spurious j) s h = exchange-Waited i j spurious (s.local j) s h

Waited-trans : (i : ℕ) (r s t : Masked) → Waited i r s → Waited i s t → Waited i r t
Waited-trans i r s t p q = record {
  place = q.place ∙ p.place;
  ended = ground (arith, p.ended, q.ended, p.grows, q.grows);
  grows = omega (arith, p.grows, q.grows);
}

moves-Waited : (i : ℕ) (ms : List Move) (s : Masked) → others i ms ≡ true → Waited i s (moves ms s)
unfolding moves
moves-Waited i [] s h = record { place = refl; ended = inl refl; grows = omega arith }
moves-Waited i (m ∷ ms) s h =
    Waited-trans i s (move m s) _ (move-Waited i m s (ground (arith, h)))
      (moves-Waited i ms (move m s) (ground (arith, h)))

placed : (i : ℕ) (l : Local) (s : Masked) → (put_local i l s).local i ≡ l
placed i l s = if_true (i == i) _ _ (ground arith)

-- A thread outside stays there until it enters.
exchange-outside :
    (spurious : Bool) (i : ℕ) (s : Masked)
    → s.local i ≡ outside
    → (move (compare spurious i) s).local i ≡ outside
unfolding move exchange
exchange-outside spurious i s h = ap (λ l. (exchange spurious i l s).local i) h ∙ h

-- An exchange that finds what the thread holds, and does not fail spuriously, ends the call.
exchange-ends :
    (i : ℕ) (u : Update) (s : Masked)
    → s.local i ≡ trying u s.mask
    → (move (compare false i) s).local i ≡ outside
unfolding move exchange
exchange-ends i u s h =
    ap (λ l. (exchange false i l s).local i) h
    ∙ ap (λ (t : Masked). t.local i) (if_true (s.mask == s.mask && not false) _ _ (ground arith))
    ∙ placed i outside s

-- After an exchange the thread is out of the loop, or holds what is in the mask.
exchange-reloads :
    (i : ℕ) (u : Update) (m : ℕ) (s : Masked)
    → s.local i ≡ trying u m
    → let t = move (compare false i) s in (t.local i ≡ outside) ⊎ (t.local i ≡ trying u t.mask)
unfolding move exchange
exchange-reloads i u m s h =
    subst
      (λ l. let t = exchange false i l s in (t.local i ≡ outside) ⊎ (t.local i ≡ trying u t.mask))
      (sym h)
      (by_if (λ (t : Masked). (t.local i ≡ outside) ⊎ (t.local i ≡ trying u t.mask))
        (s.mask == m && not false) _ _ (λ _. inl (placed i outside s))
        (λ _. inr (placed i (trying u s.mask) s)))

-- A thread in the loop tries twice, neither try failing spuriously, while the others move at will between
-- the two tries: then it is out of the loop, or a call of another thread came to its end between them. So
-- the loop ends unless others get on.
pub exchange-progress :
    (i : ℕ) (u : Update) (m : ℕ) (s : Masked) (ms : List Move)
    → s.local i ≡ trying u m
    → others i ms ≡ true
    → let tried = move (compare false i) s in
      let waited = moves ms tried in
      ((move (compare false i) waited).local i ≡ outside) ⊎ (length tried.done < length waited.done)
exchange-progress i u m s ms here away =
    let tried = move (compare false i) s in
    let waited = moves ms tried in
    let w = moves-Waited i ms tried away in
    elim (exchange-reloads i u m s here) [
      | inl out ↦ inl (exchange-outside false i waited (w.place ∙ out))
      | inr again ↦ elim w.ended [
        | inr grown ↦ inr grown
        | inl same ↦ inl (exchange-ends i u waited (w.place ∙ again ∙ ap (trying u) (sym same)))
      ]
    ]
