-- ===== src/Apps/Motion.antt =====
-- What examples/mouse_demo.c and examples/hotplug_mouse_wait.c count.
use asyncinput.Prelude.{
  ℕ, ◌+◌, ◌%◌, ◌^◌, ◌≡◌, Bool, true, false, ◌&&◌, ◌||◌, List, [], ◌∷◌, some, if◌then◌else◌, arith,
}
use asyncinput.Prelude.Int.{ℤ, eqb_ℤ}
use asyncinput.Event.{Codes, NiEvent, ni_is_rel_event, ni_is_key_event, ni_is_mouse_button_code}
use asyncinput.Posix.Keys.{to_uint32}
use asyncinput.Apps.Mouse.{
  Motion, fetch_add, press, bit_for_code, mouse_on_input, hotplug_on_ev, Axis, along_x, along_y,
  along_wheel, counter, exchange_zero, Shown, moved_by, buttons, Turn, input, take, look, turns,
}

apart :
    (code x w h : ℤ)
    → eqb_ℤ x w ≡ false
    → eqb_ℤ x h ≡ false
    → eqb_ℤ code x ≡ true
    → (eqb_ℤ code w || eqb_ℤ code h) ≡ false
apart code x w h xw xh same = ground (arith, xw, xh, same)

wheel_case :
    (rel x y w button : Bool) (dx dy mask n : ℕ) (s : Motion)
    → (x ≡ true → w ≡ false)
    → (y ≡ true → w ≡ false)
    → (if rel
          then (if x
              then record s { g_dx = dx }
              else if y
              then record s { g_dy = dy }
              else if w
              then record s { g_wheel = (s.g_wheel + n) % 2 ^ 32 }
              else s)
          else if button
          then record s { g_btnmask = mask }
          else s).g_wheel
        % 2 ^ 32
      ≡ (s.g_wheel + (if rel && w then n else 0)) % 2 ^ 32
wheel_case rel x y w button dx dy mask n s p q = ground (arith, p, q)

-- what was shown along an axis
abbrev pub shown_at : Shown → Axis → ℕ
shown_at (buttons m) a = 0
shown_at (moved_by along_x n) along_x = n
shown_at (moved_by along_y n) along_y = n
shown_at (moved_by along_wheel n) along_wheel = n
shown_at (moved_by _ n) _ = 0

abbrev pub shown_along : Axis → List Shown → ℕ
shown_along a [] = 0
shown_along a (s ∷ ss) = shown_at s a + shown_along a ss

module _ (c : Codes) (rel_hwheel : ℤ) where
  -- The codes of the movements differ, as the values of the kernel's header do.
  pub record IsApart : Type 0 where
    pub x_y : eqb_ℤ c.rel_x c.rel_y ≡ false
    pub x_wheel : eqb_ℤ c.rel_x c.rel_wheel ≡ false
    pub x_hwheel : eqb_ℤ c.rel_x rel_hwheel ≡ false
    pub y_wheel : eqb_ℤ c.rel_y c.rel_wheel ≡ false
    pub y_hwheel : eqb_ℤ c.rel_y rel_hwheel ≡ false

  -- how far an event moves along an axis
  abbrev pub travel : Axis → NiEvent → ℕ
  travel along_x ev =
      if eqb_ℤ ev.type c.ev_rel && eqb_ℤ ev.code c.rel_x then to_uint32 ev.value else 0
  travel along_y ev =
      if eqb_ℤ ev.type c.ev_rel && eqb_ℤ ev.code c.rel_y then to_uint32 ev.value else 0
  travel along_wheel ev =
      if eqb_ℤ ev.type c.ev_rel && (eqb_ℤ ev.code c.rel_wheel || eqb_ℤ ev.code rel_hwheel)
      then to_uint32 ev.value
      else 0

  abbrev pub travelled : Axis → List (Turn c rel_hwheel) → ℕ
  travelled a [] = 0
  travelled a (input ev ∷ ts) = travel a ev + travelled a ts
  travelled a (_ ∷ ts) = travelled a ts

  counted :
      (a : Axis) (ev : NiEvent) (s : Motion)
      → IsApart
      → (counter a (mouse_on_input c rel_hwheel ev s)) % 2 ^ 32
        ≡ (counter a s + travel a ev) % 2 ^ 32
  unfolding mouse_on_input ni_is_rel_event
  counted along_x ev s h = ground (arith, h.x_y)
  counted along_y ev s h = ground (arith, h.x_y)
  counted along_wheel ev s h =
      wheel_case (eqb_ℤ ev.type c.ev_rel) (eqb_ℤ ev.code c.rel_x) (eqb_ℤ ev.code c.rel_y)
        (eqb_ℤ ev.code c.rel_wheel || eqb_ℤ ev.code rel_hwheel)
        (ni_is_key_event c (some ev) && ni_is_mouse_button_code c ev.code)
        (fetch_add s.g_dx ev.value) (fetch_add s.g_dy ev.value)
        (press (bit_for_code c rel_hwheel ev.code) ev.value s.g_btnmask) (to_uint32 ev.value) s
        (apart ev.code c.rel_x c.rel_wheel rel_hwheel h.x_wheel h.x_hwheel)
        (apart ev.code c.rel_y c.rel_wheel rel_hwheel h.y_wheel h.y_hwheel)

  shown-taken :
      (a b : Axis) (s : Motion) (ss : List Shown)
      → shown_along b (moved_by a (counter a s) ∷ ss) + counter b (exchange_zero a s)
        ≡ shown_along b ss + counter b s
  unfolding exchange_zero
  shown-taken a b s ss = ground arith

  -- With codes that differ, in any order of the callback and of the atomic operations of `main`, and for each
  -- of the three counters: what was shown and what the counter still holds is what it held at first and
  -- all that the events moved, modulo 2^32. No movement is lost or shown twice.
  pub turns-travelled :
      (b : Axis) (ts : List (Turn c rel_hwheel)) (s : Motion)
      → IsApart
      → let (printed, end) = turns c rel_hwheel ts s in
        (shown_along b printed + counter b end) % 2 ^ 32 ≡ (counter b s + travelled b ts) % 2 ^ 32
  unfolding turns
  turns-travelled b [] s h = omega arith
  turns-travelled b (input ev ∷ ts) s h =
      omega (arith, turns-travelled b ts (mouse_on_input c rel_hwheel ev s) h, counted b ev s h)
  turns-travelled b (take a ∷ ts) s h = omega (
    arith,
    turns-travelled b ts (exchange_zero a s) h,
    shown-taken a b s (turns c rel_hwheel ts (exchange_zero a s)).0,
  )
  turns-travelled b (look ∷ ts) s h = omega (arith, turns-travelled b ts s h)

  -- With codes that differ, the callback of hotplug_mouse_wait.c does to the movements and the buttons what that
  -- of mouse_demo.c does.
  mouse_on_input-hotplug_on_ev :
      (ev : NiEvent) (s : Motion)
      → IsApart
      → let t = mouse_on_input c rel_hwheel ev s in
        let u = hotplug_on_ev c rel_hwheel ev s in
        (t.g_dx ≡ u.g_dx) × (t.g_dy ≡ u.g_dy) × (t.g_btnmask ≡ u.g_btnmask)
  unfolding mouse_on_input hotplug_on_ev ni_is_rel_event ni_is_key_event
  mouse_on_input-hotplug_on_ev ev s h =
      (ground (arith, h.x_y), ground (arith, h.x_y), ground (arith, h.x_y))
