-- ===== src/Posix/Mice/Packets.antt =====
-- What the loop body of `mice_worker` makes of the bytes it reads: packets of three bytes, each
-- decoded into key, button and movement events.
use asyncinput.Prelude.{ℕ, ◌≡◌, refl, ap, ◌∙◌, List, [], ◌∷◌, ◌++◌, Bool, true, false, not, ◌||◌}
use asyncinput.Prelude.Int.{ℤ, pos, neg, nonzero, of_Bool}
use asyncinput.Event.{Codes, NiEvent}
use asyncinput.Posix.{Env, G, now_ns}
use asyncinput.Posix.Mice.{
  Reader, fresh_reader, signed_char, bit, mice_event, button_event, move_event, when, packet_events,
  emit_all, mice_byte, mice_bytes,
}

-- The events of one packet: for each button its evdev key event, then for each button its unified event,
-- both with 1 for pressed and 0 for released; then the movement, y turned around, and the unified movement
-- event unless both are 0.
abbrev pub decoded : Codes → ℤ → ℕ → ℕ → ℕ → List NiEvent
decoded c ts buttons x y =
    mice_event ts c.ev_key c.btn_left (of_Bool (bit buttons 0))
    ∷ mice_event ts c.ev_key c.btn_right (of_Bool (bit buttons 1))
    ∷ mice_event ts c.ev_key c.btn_middle (of_Bool (bit buttons 2))
    ∷ button_event ts (pos 1) (of_Bool (bit buttons 0))
    ∷ button_event ts (pos 2) (of_Bool (bit buttons 1))
    ∷ button_event ts (pos 3) (of_Bool (bit buttons 2))
    ∷ mice_event ts c.ev_rel c.rel_x (signed_char x)
    ∷ mice_event ts c.ev_rel c.rel_y (neg (signed_char y))
    ∷ when (nonzero (signed_char x) || nonzero (signed_char y))
        (move_event ts (signed_char x) (neg (signed_char y)))

-- One of the two conditional events of a button is emitted.
pressed_or_released :
    (b : Bool) (ts extra : ℤ) (rest : List NiEvent)
    → when b (button_event ts extra (pos 1))
        ++ (when (not b) (button_event ts extra (pos 0)) ++ rest)
      ≡ button_event ts extra (of_Bool b) ∷ rest
pressed_or_released true ts extra rest = refl
pressed_or_released false ts extra rest = refl

-- The wheel branch adds nothing.
no_wheel :
    (ts : ℤ) (b : Bool) (dx dy : ℤ)
    → when b (move_event ts dx dy) ++ [] ≡ when b (move_event ts dx dy)
no_wheel ts true dx dy = refl
no_wheel ts false dx dy = refl

-- Three bytes of a packet make the loop body emit, for each button, its evdev key event and its
-- unified event, both with 1 for pressed and 0 for released; then the movement, y turned around,
-- and the unified movement event unless both are 0. There is no wheel event, whatever the fourth
-- byte of the buffer is.
pub packet_events-decoded :
    (c : Codes) (ts : ℤ) (buttons x y z : ℕ)
    → packet_events c ts (buttons ∷ x ∷ y ∷ z ∷ []) 3 ≡ decoded c ts buttons x y
unfolding packet_events
packet_events-decoded c ts buttons x y z =
    let dx = signed_char x in
    let dy = neg (signed_char y) in
    let moves = mice_event ts c.ev_rel c.rel_x dx ∷ mice_event ts c.ev_rel c.rel_y dy ∷ [] in
    let moved = nonzero dx || nonzero (signed_char y) in
    let whole = moves ++ when moved (move_event ts dx dy) ++ [] in
    ap
      (λ t.
        mice_event ts c.ev_key c.btn_left (of_Bool (bit buttons 0))
        ∷ mice_event ts c.ev_key c.btn_right (of_Bool (bit buttons 1))
        ∷ mice_event ts c.ev_key c.btn_middle (of_Bool (bit buttons 2))
        ∷ t)
      (pressed_or_released (bit buttons 0) ts (pos 1) _
        ∙ ap (◌∷◌ (button_event ts (pos 1) (of_Bool (bit buttons 0)))) (
            pressed_or_released (bit buttons 1) ts (pos 2) _
            ∙ ap (◌∷◌ (button_event ts (pos 2) (of_Bool (bit buttons 1)))) (
                pressed_or_released (bit buttons 2) ts (pos 3) whole
                ∙ ap (λ t. button_event ts (pos 3) (of_Bool (bit buttons 2)) ∷ moves ++ t)
                    (no_wheel ts moved dx dy))))

-- the whole packets in a sequence of bytes, each decoded at the time the clock gives, and emitted
unfoldable pub replay : Env → List ℕ → G → G
unfolding now_ns emit_all
replay e (buttons ∷ x ∷ y ∷ bs) g =
    let (ts, g') = now_ns e g in replay e bs (emit_all (decoded e.codes ts buttons x y) g')
replay e _ g = g

-- how many bytes of a packet have come
abbrev pub left_over : List ℕ → ℕ
left_over (a ∷ b ∷ c ∷ bs) = left_over bs
left_over (a ∷ b ∷ []) = 2
left_over (a ∷ []) = 1
left_over [] = 0

module _ (e : Env) where
  -- Reading some bytes and then others leaves the reader and the state as reading all of them at
  -- once does: what the loop does depends on the sequence of bytes only, not on how the reads
  -- divide it.
  mice_bytes-append :
      (xs ys : List ℕ) (m : Reader) (g : G)
      → mice_bytes e (xs ++ ys) m g ≡ (let (m', g') = mice_bytes e xs m g in mice_bytes e ys m' g')
  unfolding mice_bytes
  mice_bytes-append [] ys m g = refl
  mice_bytes-append (b ∷ xs) ys m g =
      let (m', g') = mice_byte e b m g in mice_bytes-append xs ys m' g'

  replays :
      (bs : List ℕ) (p0 p1 p2 p3 : ℕ) (g : G)
      → let start : Reader = record { pkt = p0 ∷ p1 ∷ p2 ∷ p3 ∷ []; have = 0 } in
        let (m, s) = mice_bytes e bs start g in (m.have ≡ left_over bs) × (s ≡ replay e bs g)
  unfolding mice_bytes mice_byte replay
  replays [] p0 p1 p2 p3 g = (refl, refl)
  replays (a ∷ []) p0 p1 p2 p3 g = (refl, refl)
  replays (a ∷ b ∷ []) p0 p1 p2 p3 g = (refl, refl)
  replays (a ∷ b ∷ c ∷ bs) p0 p1 p2 p3 g =
      let (ts, g') = now_ns e g in
      let m : Reader = record { pkt = a ∷ b ∷ c ∷ p3 ∷ []; have = 0 } in
      let step =
        ap (λ evs. mice_bytes e bs m (emit_all evs g'))
          (packet_events-decoded e.codes ts a b c p3) in
      let (h, s) = replays bs a b c p3 (emit_all (decoded e.codes ts a b c) g') in
      (ap (λ (r : Reader × G). r.0.have) step ∙ h, ap (λ (r : Reader × G). r.1) step ∙ s)

  -- A reader that has just started emits for the bytes it reads the events of each whole packet, in the
  -- order of the bytes, and keeps the one or two bytes of a packet that is not whole yet.
  pub mice_bytes-replay :
      (bs : List ℕ) (g : G)
      → let (m, s) = mice_bytes e bs fresh_reader g in (m.have ≡ left_over bs) × (s ≡ replay e bs g)
  mice_bytes-replay bs g = replays bs 0 0 0 0 g
