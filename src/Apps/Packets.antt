-- ===== src/Apps/Packets.antt =====
-- examples/mouse_demo.c behind the mice thread of src/libasyncinput_posix.c: the callback gets the
-- events of whole packets.
use asyncinput.Prelude.{
  ℕ, ◌≡◌, refl, ap, ◌∙◌, Bool, true, false, ◌||◌, [], ◌∷◌, some, if◌then◌else◌,
}
use asyncinput.Prelude.Int.{ℤ, pos, neg, nonzero, of_Bool}
use asyncinput.Event.{portable_codes}
use asyncinput.Posix.Mice.{signed_char, bit, when, move_event, packet_events}
use asyncinput.Posix.Mice.Packets.{decoded, packet_events-decoded}
use asyncinput.Apps.Bits.{bit_at}
use asyncinput.Apps.Mask.{Update, new_mask}
use asyncinput.Apps.Linear.{bit_at-new_mask}
use asyncinput.Apps.Mouse.{Motion, fetch_add, press, mouse_on_input, mouse_on_all}

-- NI_REL_HWHEEL as the header gives it
abbrev pub hwheel : ℤ
hwheel = pos 6

ignored :
    (b : Bool) (ts dx dy : ℤ) (s : Motion)
    → mouse_on_all portable_codes hwheel (when b (move_event ts dx dy)) s ≡ s
unfolding mouse_on_all mouse_on_input asyncinput.Event.ni_is_rel_event
    asyncinput.Event.ni_is_key_event asyncinput.Event.ni_is_mouse_button_code
    asyncinput.Apps.Mouse.bit_for_code
ignored true ts dx dy s = refl
ignored false ts dx dy s = refl

-- the mask after the three buttons
abbrev three : ℕ → ℕ → ℕ
three buttons m =
    press (some 2) (of_Bool (bit buttons 2))
      (press (some 1) (of_Bool (bit buttons 1)) (press (some 0) (of_Bool (bit buttons 0)) m))

abbrev after : ℕ → ℕ → ℕ → Motion → Motion
after buttons x y s = record s {
  g_dx = fetch_add s.g_dx (signed_char x);
  g_dy = fetch_add s.g_dy (neg (signed_char y));
  g_btnmask = three buttons s.g_btnmask;
}

decoded-after :
    (ts : ℤ) (buttons x y : ℕ) (s : Motion)
    → mouse_on_all portable_codes hwheel (decoded portable_codes ts buttons x y) s
      ≡ after buttons x y s
unfolding mouse_on_all mouse_on_input asyncinput.Event.ni_is_rel_event
    asyncinput.Event.ni_is_key_event asyncinput.Event.ni_is_mouse_button_code
    asyncinput.Apps.Mouse.bit_for_code
decoded-after ts buttons x y s =
    ignored (nonzero (signed_char x) || nonzero (signed_char y)) ts (signed_char x)
      (neg (signed_char y)) (after buttons x y s)

abbrev one_or_zero : Bool → ℕ
one_or_zero b = if b then 1 else 0

flag : (b : Bool) → one_or_zero (nonzero (of_Bool b)) ≡ one_or_zero b
flag true = refl
flag false = refl

-- one button on the mask
abbrev pressed : ℕ → ℕ → Update
pressed buttons i = record { bit = i; down = nonzero (of_Bool (bit buttons i)) }

left_bit : (buttons m : ℕ) → bit_at (three buttons m) 0 ≡ (if bit buttons 0 then 1 else 0)
left_bit buttons m =
    let m1 = new_mask (pressed buttons 0) m in
    let m2 = new_mask (pressed buttons 1) m1 in
    bit_at-new_mask (pressed buttons 2) m2 0
    ∙ bit_at-new_mask (pressed buttons 1) m1 0
    ∙ bit_at-new_mask (pressed buttons 0) m 0
    ∙ flag (bit buttons 0)

right_bit : (buttons m : ℕ) → bit_at (three buttons m) 1 ≡ (if bit buttons 1 then 1 else 0)
right_bit buttons m =
    let m1 = new_mask (pressed buttons 0) m in
    let m2 = new_mask (pressed buttons 1) m1 in
    bit_at-new_mask (pressed buttons 2) m2 1
    ∙ bit_at-new_mask (pressed buttons 1) m1 1
    ∙ flag (bit buttons 1)

middle_bit : (buttons m : ℕ) → bit_at (three buttons m) 2 ≡ (if bit buttons 2 then 1 else 0)
middle_bit buttons m =
    let m1 = new_mask (pressed buttons 0) m in
    let m2 = new_mask (pressed buttons 1) m1 in
    bit_at-new_mask (pressed buttons 2) m2 2 ∙ flag (bit buttons 2)

-- Given the events that the mice thread makes of a packet of three bytes, with the codes of the header,
-- the callback of mouse_demo.c has added the movement, y turned around, modulo 2^32, and the bits of the
-- left, right and middle button are those of the packet. The unified events of the packet count for nothing.
pub mouse_on_all-packet_events :
    (ts : ℤ) (buttons x y z : ℕ) (s : Motion)
    → let t =
        mouse_on_all portable_codes hwheel
          (packet_events portable_codes ts (buttons ∷ x ∷ y ∷ z ∷ []) 3)
          s in
      (t.g_dx ≡ fetch_add s.g_dx (signed_char x))
      × (t.g_dy ≡ fetch_add s.g_dy (neg (signed_char y)))
      × (bit_at t.g_btnmask 0 ≡ (if bit buttons 0 then 1 else 0))
      × (bit_at t.g_btnmask 1 ≡ (if bit buttons 1 then 1 else 0))
      × (bit_at t.g_btnmask 2 ≡ (if bit buttons 2 then 1 else 0))
mouse_on_all-packet_events ts buttons x y z s =
    let read =
      ap (λ evs. mouse_on_all portable_codes hwheel evs s)
        (packet_events-decoded portable_codes ts buttons x y z)
      ∙ decoded-after ts buttons x y s in
    (
      ap (λ (t : Motion). t.g_dx) read,
      ap (λ (t : Motion). t.g_dy) read,
      ap (λ (t : Motion). bit_at t.g_btnmask 0) read ∙ left_bit buttons s.g_btnmask,
      ap (λ (t : Motion). bit_at t.g_btnmask 1) read ∙ right_bit buttons s.g_btnmask,
      ap (λ (t : Motion). bit_at t.g_btnmask 2) read ∙ middle_bit buttons s.g_btnmask,
    )
