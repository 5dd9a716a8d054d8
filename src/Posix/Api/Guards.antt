-- ===== src/Posix/Api/Guards.antt =====
-- What the exported functions of src/libasyncinput_posix.c do outside the calls they are made for.
use asyncinput.Prelude.{
  ℕ, ◌≡◌, refl, sym, ap, ◌∙◌, List, true, false, not, ◌||◌, Option, none, some, if_true, if_false,
  subst, by_if,
}
use asyncinput.Prelude.Int.{ℤ, pos, minus_one, nonzero, not_positive, is_neg}
use asyncinput.Event.{NiEvent, NiKeyEvent}
use asyncinput.Posix.{Env, G, zeroed}
use asyncinput.Posix.Api.{
  ni_init, enable_reader, start, fresh, ni_register_callback, ni_poll, ni_register_key_callback,
  ni_poll_key_events, ni_shutdown, ni_enable_mice,
}
use asyncinput.Posix.Api.Init.{scanned_kept}

-- Without libxkbcommon `ni_init` never succeeds: from a state that is not initialized it returns -1 and
-- the library stays not initialized.
pub ni_init-without_xkb :
    (e : Env) (flags : ℤ) (g : G)
    → e.have_xkb ≡ false
    → g.initialized ≡ false
    → let (result, s) = ni_init e flags g in (result ≡ minus_one) × (s.initialized ≡ false)
unfolding ni_init start zeroed fresh
ni_init-without_xkb e flags g x off =
    by_if (λ (r : ℤ × G). (r.0 ≡ minus_one) × (r.1.initialized ≡ false)) (nonzero flags) _ _
      (λ _. (refl, off))
      (λ _.
        subst (λ (r : ℤ × G). (r.0 ≡ minus_one) × (r.1.initialized ≡ false))
          (sym (if_false g.initialized _ _ off))
          (by_if (λ (r : ℤ × G). (r.0 ≡ minus_one) × (r.1.initialized ≡ false))
            (is_neg (e.epoll_create g.trace)) _ _ (λ _. (refl, refl))
            (λ _.
              subst (λ (r : ℤ × G). (r.0 ≡ minus_one) × (r.1.initialized ≡ false))
                (sym (if_false e.have_xkb _ _ x))
                (refl, ap (λ (u : G). u.initialized) (scanned_kept e g.trace)))))

module _ (g : G) (off : g.initialized ≡ false) where
  poll_guarded :
      (evts : Option (List NiEvent)) (max : ℤ) → ni_poll evts max g ≡ (minus_one, evts, g)
  unfolding ni_poll
  poll_guarded none max = refl
  poll_guarded (some out) max = if_true _ _ _ (ap (λ b. not b || not_positive max) off)

  key_poll_guarded :
      (evts : Option (List NiKeyEvent)) (max : ℤ)
      → ni_poll_key_events evts max g ≡ (minus_one, evts, g)
  unfolding ni_poll_key_events
  key_poll_guarded none max = refl
  key_poll_guarded (some out) max = if_true _ _ _ (ap (λ b. not b || not_positive max) off)

  -- Before `ni_init`, registering a callback of either kind and polling either queue return -1, and
  -- `ni_shutdown` returns 0; none of them changes anything, whatever the arguments.
  uninitialized_inert :
      (cb : Option ℕ) (user_data : ℕ) (flags max : ℤ) (evts : Option (List NiEvent))
      (key_evts : Option (List NiKeyEvent))
      → (ni_register_callback cb user_data flags g ≡ (minus_one, g))
        × (ni_register_key_callback cb user_data flags g ≡ (minus_one, g))
        × (ni_poll evts max g ≡ (minus_one, evts, g))
        × (ni_poll_key_events key_evts max g ≡ (minus_one, key_evts, g))
        × (ni_shutdown g ≡ (pos 0, g))
  unfolding ni_register_callback ni_register_key_callback ni_shutdown
  uninitialized_inert cb user_data flags max evts key_evts = (
    if_true _ _ _ (ap (λ b. not b || nonzero flags) off),
    if_true _ _ _ (ap not off),
    poll_guarded evts max,
    key_poll_guarded key_evts max,
    ap (λ s. (pos 0, s)) (if_false g.initialized _ _ off),
  )

-- Once a mice thread was started, `ni_enable_mice` sets the flag and does nothing else: a reader that
-- left its loop, because the flag was off or its device failed, is not started again, and the result
-- is 0.
ni_enable_mice-keeps_thread :
    (e : Env) (enabled : ℤ) (g : G) (t : ℕ)
    → g.initialized ≡ true
    → g.mice_thread ≡ some t
    → ni_enable_mice e enabled g ≡ (pos 0, record g { mice_enabled = nonzero enabled })
unfolding ni_enable_mice
ni_enable_mice-keeps_thread e enabled g t on running =
    let g' : G = record g { mice_enabled = nonzero enabled } in
    if_false (not g.initialized) _ _ (ap not on)
    ∙ by_if (λ (r : ℤ × G). r ≡ (pos 0, g')) (nonzero enabled) _ _
        (λ _. ap (λ t. enable_reader e t g') running) (λ _. refl)
