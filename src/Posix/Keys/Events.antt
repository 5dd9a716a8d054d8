-- ===== src/Posix/Keys/Events.antt =====
-- The high-level key events that `maybe_emit_key_event` of src/libasyncinput_posix.c makes.
use asyncinput.Prelude.{
  ℕ, ◌+◌, ◌-◌, ◌<◌, ◌^◌, ◌≡◌, refl, sym, ap, subst, ◌∙◌, List, [], Bool, true, false, none, some,
  if◌then◌else◌, arith, if_true,
}
use asyncinput.Prelude.Int.{pos, nonzero, of_Bool, eqb_ℤ, eqb_ℤ_refl}
use asyncinput.Event.{NiEvent, NiKeyEvent, blank_key_event}
use asyncinput.Ring.{ring_size}
use asyncinput.Ring.Fifo.{offer}
use asyncinput.Ring.Bounds.{IsValid}
use asyncinput.Ring.Refine.{contents, contents-ring_push}
use asyncinput.Posix.{Env, G, XkbMod, shift, ctrl, alt, logo}
use asyncinput.Posix.Mice.{bit}
use asyncinput.Posix.Keys.{
  mods_of, mods_mask_from_state, make_key_event, emit_key, emit_key_to, translate,
  maybe_emit_key_event, xkb_code,
}

four_bits :
    (a b c d : Bool)
    → let m =
        (if a then 1 else 0) + (if b then 2 else 0) + (if c then 4 else 0) + (if d then 8 else 0) in
      (bit m 0 ≡ a) × (bit m 1 ≡ b) × (bit m 2 ≡ c) × (bit m 3 ≡ d) × (m < 16)
four_bits a b c d = ground arith

-- In a build with libxkbcommon and with a keyboard state, bits 0 to 3 of the mask say whether shift, ctrl,
-- alt and the logo key are active, and no other bit is set.
mods_mask_from_state-bits :
    (e : Env) (g : G) (st : ℕ)
    → e.have_xkb ≡ true
    → g.xkb_state ≡ some st
    → let m = mods_mask_from_state e g in
      (bit m 0 ≡ e.xkb_mod_active g.trace st shift)
      × (bit m 1 ≡ e.xkb_mod_active g.trace st ctrl)
      × (bit m 2 ≡ e.xkb_mod_active g.trace st alt)
      × (bit m 3 ≡ e.xkb_mod_active g.trace st logo)
      × (m < 16)
unfolding mods_mask_from_state mods_of
mods_mask_from_state-bits e g st x h =
    let active : XkbMod → Bool = e.xkb_mod_active g.trace st in
    subst
      (λ m.
        (bit m 0 ≡ active shift)
        × (bit m 1 ≡ active ctrl)
        × (bit m 2 ≡ active alt)
        × (bit m 3 ≡ active logo)
        × (m < 16))
      (sym (if_true e.have_xkb _ _ x ∙ ap (mods_of e g) h))
      (four_bits (active shift) (active ctrl) (active alt) (active logo))

-- An evdev code becomes the XKB keycode that is 8 more.
pub xkb_code_lem : (n : ℕ) → n + 8 < 2 ^ 32 → xkb_code (pos n) ≡ n + 8
xkb_code_lem n h = omega (arith, h)

no_text :
    (down : Bool) (t : List ℕ)
    → (if down then t else []) ≡ (if down then if down then t else [] else [])
no_text true t = refl
no_text false t = refl

-- In a build with libxkbcommon, with the xkb layer enabled, a keyboard state, a valid key queue
-- and no key callback, a key event of a device puts one key event in the key queue (or drops it,
-- if 1023 are queued): for the same device and time, down unless the value is 0, and without text
-- if it is up.
pub maybe_emit_key_event_queues :
    (e : Env) (base : NiEvent) (g : G) (st : ℕ)
    → e.have_xkb ≡ true
    → g.xkb_enabled ≡ true
    → base.type ≡ e.codes.ev_key
    → g.xkb_state ≡ some st
    → g.key_cb ≡ none
    → IsValid ring_size g.key_queue
    → let s = maybe_emit_key_event e base g in
      (kev : NiKeyEvent) × (contents ring_size blank_key_event s.key_queue
        ≡ offer (ring_size - 1) (contents ring_size blank_key_event g.key_queue) kev)
      × (kev.device_id ≡ base.device_id)
      × (kev.timestamp_ns ≡ base.timestamp_ns)
      × (kev.down ≡ of_Bool (nonzero base.value))
      × (kev.text ≡ (if nonzero base.value then kev.text else []))
unfolding maybe_emit_key_event translate make_key_event emit_key emit_key_to
maybe_emit_key_event_queues e base g st x on key has no_cb v =
    let (kev, g') = make_key_event e base st g in
    let opened =
      if_true g.xkb_enabled _ _ on
      ∙ if_true e.have_xkb _ _ x
      ∙ if_true (eqb_ℤ base.type e.codes.ev_key) _ _
          (subst (λ t. eqb_ℤ base.type t ≡ true) key (eqb_ℤ_refl base.type))
      ∙ ap (λ o. translate e base o g) has
      ∙ ap (λ c. emit_key_to c kev g') no_cb in
    (
      kev,
      ap (λ (s : G). contents ring_size blank_key_event s.key_queue) opened
          ∙ contents-ring_push ring_size blank_key_event g.key_queue kev v,
      refl,
      refl,
      refl,
      no_text (nonzero base.value) _,
    )
