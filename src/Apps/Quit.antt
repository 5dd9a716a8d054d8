-- ===== src/Apps/Quit.antt =====
-- When examples/sdl3_asyncinput.c is told to quit.
use asyncinput.Prelude.{
  ℕ, ◌≡◌, refl, sym, ap, ap₂, ◌∙◌, Bool, true, false, ◌&&◌, ◌||◌, List, [], ◌∷◌, if◌then◌else◌,
  ◌==◌, by_if, arith,
}
use asyncinput.Prelude.Int.{ℤ, eqb_ℤ, nonzero}
use asyncinput.Event.{NiEvent}
use asyncinput.Apps.Bits.{bit_at, zero-bit_at}
use asyncinput.Apps.Linear.{bit_at-new_mask}
use asyncinput.Apps.Game.{
  GameKeys, Game, Role, gameplay, modifier, neutral, is_fn, role, track, ctrl_any, alt_any, quit_if,
  game_key, game_on_input, game_after,
}

-- whether a key has this bit of the modifiers
abbrev pub has_bit : Role → ℕ → Bool
has_bit (modifier j) i = j == i
has_bit _ i = false

-- Whether the last event of a modifier key, one with this bit, was its press.
abbrev pub held : GameKeys → ℕ → List (ℤ × NiEvent) → Bool
held k i [] = false
held k i ((now, ev) ∷ past) =
    if eqb_ℤ ev.type k.ev_key && has_bit (role k ev.code) i then nonzero ev.value else held k i past

-- Ctrl and Alt are held, each on one side at least.
abbrev pub chord : GameKeys → List (ℤ × NiEvent) → Bool
chord k evs = (held k 0 evs || held k 1 evs) && (held k 2 evs || held k 3 evs)

-- some press so far that asks to quit: Esc, Q, or a code from F1 to F12 while Ctrl and Alt are held
abbrev pub quits : GameKeys → List (ℤ × NiEvent) → Bool
quits k [] = false
quits k ((now, ev) ∷ past) =
    quits k past
    || (eqb_ℤ ev.type k.ev_key
        && (nonzero ev.value
            && ((eqb_ℤ ev.code k.key_esc || eqb_ℤ ev.code k.key_q)
                || (chord k ((now, ev) ∷ past) && is_fn k ev.code))))

abbrev pub one_or_zero : Bool → ℕ
one_or_zero b = if b then 1 else 0

track-modifier :
    (r : Role) (down : Bool) (s : Game) (i : ℕ)
    → bit_at (track r down s).g_modmask i
      ≡ (if has_bit r i then one_or_zero down else bit_at s.g_modmask i)
unfolding track
track-modifier (gameplay j) down s i = refl
track-modifier (modifier j) down s i =
    bit_at-new_mask (record { bit = j; down = down }) s.g_modmask i
track-modifier neutral down s i = refl

track-quit : (r : Role) (down : Bool) (s : Game) → (track r down s).g_should_quit ≡ s.g_should_quit
unfolding track
track-quit (gameplay j) down s = refl
track-quit (modifier j) down s = refl
track-quit neutral down s = refl

quit_if-g_modmask : (b : Bool) (s : Game) → (quit_if b s).g_modmask ≡ s.g_modmask
quit_if-g_modmask true s = refl
quit_if-g_modmask false s = refl

quit_if-g_should_quit : (b : Bool) (s : Game) → (quit_if b s).g_should_quit ≡ (s.g_should_quit || b)
quit_if-g_should_quit b s = ground arith

game_key-g_modmask :
    (k : GameKeys) (now code : ℤ) (down : Bool) (s : Game) (i : ℕ)
    → bit_at (game_key k now code down s).g_modmask i
      ≡ (if has_bit (role k code) i then one_or_zero down else bit_at s.g_modmask i)
unfolding game_key
game_key-g_modmask k now code down s i =
    let tracked = track (role k code) down (record s { g_last_input_ns = now }) in
    let asked = quit_if (down && (eqb_ℤ code k.key_esc || eqb_ℤ code k.key_q)) tracked in
    ap (λ n. bit_at n i)
      (quit_if-g_modmask (down && (ctrl_any asked && (alt_any asked && is_fn k code))) asked
        ∙ quit_if-g_modmask (down && (eqb_ℤ code k.key_esc || eqb_ℤ code k.key_q)) tracked)
    ∙ track-modifier (role k code) down (record s { g_last_input_ns = now }) i

-- A test that is decided.
taken :
    (key bit down past : Bool)
    → key ≡ true
    → (if bit then one_or_zero down else one_or_zero past)
      ≡ one_or_zero (if key && bit then down else past)
taken key bit down past h = ground (arith, h)

untaken : (key bit down past : Bool) → key ≡ false → past ≡ (if key && bit then down else past)
untaken key bit down past h = ground (arith, h)

held-g_modmask :
    (k : GameKeys) (evs : List (ℤ × NiEvent)) (i : ℕ)
    → bit_at (game_after k evs).g_modmask i ≡ one_or_zero (held k i evs)
unfolding game_after game_on_input
held-g_modmask k [] i = zero-bit_at i
held-g_modmask k ((now, ev) ∷ past) i =
    let bit = has_bit (role k ev.code) i in
    let down = nonzero ev.value in
    let key = eqb_ℤ ev.type k.ev_key in
    let s = game_after k past in
    by_if
      (λ (g : Game).
        bit_at g.g_modmask i ≡ one_or_zero (if key && bit then down else held k i past))
      key _ _
      (λ yes.
        game_key-g_modmask k now ev.code down s i
        ∙ ap (λ n. if bit then one_or_zero down else n) (held-g_modmask k past i)
        ∙ taken key bit down (held k i past) yes)
      (λ no. held-g_modmask k past i ∙ ap one_or_zero (untaken key bit down (held k i past) no))

-- the mask as the callback reads it
chord_read :
    (a b c d : ℕ) (p q r s : Bool)
    → a ≡ one_or_zero p
    → b ≡ one_or_zero q
    → c ≡ one_or_zero r
    → d ≡ one_or_zero s
    → ((a == 1 || b == 1) && (c == 1 || d == 1)) ≡ ((p || q) && (r || s))
chord_read a b c d p q r s ha hb hc hd = ground (arith, ha, hb, hc, hd)

both_asked :
    (past down esc ctrl alt fn chorded : Bool)
    → (ctrl && alt) ≡ chorded
    → ((past || (down && esc)) || (down && (ctrl && (alt && fn))))
      ≡ (past || (down && (esc || (chorded && fn))))
both_asked past down esc ctrl alt fn chorded h = ground (arith, h)

-- the state before the test for the chord
abbrev asked_state : GameKeys → ℤ → ℤ → Bool → Game → Game
asked_state k now code down s =
    quit_if (down && (eqb_ℤ code k.key_esc || eqb_ℤ code k.key_q))
      (track (role k code) down (record s { g_last_input_ns = now }))

asked-held :
    (k : GameKeys) (now : ℤ) (ev : NiEvent) (past : List (ℤ × NiEvent)) (i : ℕ)
    → eqb_ℤ ev.type k.ev_key ≡ true
    → bit_at (asked_state k now ev.code (nonzero ev.value) (game_after k past)).g_modmask i
      ≡ one_or_zero (held k i ((now, ev) ∷ past))
asked-held k now ev past i is_key =
    let down = nonzero ev.value in
    let bit = has_bit (role k ev.code) i in
    let before : Game = record (game_after k past) { g_last_input_ns = now } in
    ap (λ n. bit_at n i) (quit_if-g_modmask _ (track (role k ev.code) down before))
    ∙ track-modifier (role k ev.code) down before i
    ∙ ap (λ n. if bit then one_or_zero down else n) (held-g_modmask k past i)
    ∙ taken (eqb_ℤ ev.type k.ev_key) bit down (held k i past) is_key

game_key-g_should_quit :
    (k : GameKeys) (now : ℤ) (ev : NiEvent) (past : List (ℤ × NiEvent))
    → eqb_ℤ ev.type k.ev_key ≡ true
    → let down = nonzero ev.value in
      let s = game_after k past in
      (game_key k now ev.code down s).g_should_quit ≡ (
        s.g_should_quit
        || (down
            && ((eqb_ℤ ev.code k.key_esc || eqb_ℤ ev.code k.key_q)
                || (chord k ((now, ev) ∷ past) && is_fn k ev.code))))
unfolding game_key
game_key-g_should_quit k now ev past is_key =
    let down = nonzero ev.value in
    let s = game_after k past in
    let esc = eqb_ℤ ev.code k.key_esc || eqb_ℤ ev.code k.key_q in
    let before : Game = record s { g_last_input_ns = now } in
    let asked = asked_state k now ev.code down s in
    let held_now = λ (i : ℕ). asked-held k now ev past i is_key in
    quit_if-g_should_quit (down && (ctrl_any asked && (alt_any asked && is_fn k ev.code))) asked
    ∙ ap (λ b. b || (down && (ctrl_any asked && (alt_any asked && is_fn k ev.code))))
        (quit_if-g_should_quit (down && esc) (track (role k ev.code) down before)
          ∙ ap (λ b. b || (down && esc)) (track-quit (role k ev.code) down before))
    ∙ both_asked s.g_should_quit down esc (ctrl_any asked) (alt_any asked) (is_fn k ev.code)
        (chord k ((now, ev) ∷ past))
        (chord_read _ _ _ _ _ _ _ _ (held_now 0) (held_now 1) (held_now 2) (held_now 3))

unasked : (key asks past : Bool) → key ≡ false → past ≡ (past || (key && asks))
unasked key asks past h = ground (arith, h)

-- After any events the program is told to quit exactly if one of them was the press of Esc or of Q, or that of
-- a key with a code from that of F1 to that of F12 at which Ctrl and Alt, each on one side at least, were
-- held: the last event of a key with the modifier's bit was its press.
pub game_after-quits :
    (k : GameKeys) (evs : List (ℤ × NiEvent)) → (game_after k evs).g_should_quit ≡ quits k evs
unfolding game_after game_on_input
game_after-quits k [] = refl
game_after-quits k ((now, ev) ∷ past) =
    let key = eqb_ℤ ev.type k.ev_key in
    let asks =
      nonzero ev.value
      && ((eqb_ℤ ev.code k.key_esc || eqb_ℤ ev.code k.key_q)
          || (chord k ((now, ev) ∷ past) && is_fn k ev.code)) in
    by_if (λ (g : Game). g.g_should_quit ≡ (quits k past || (key && asks))) key _ _
      (λ yes.
        game_key-g_should_quit k now ev past yes
        ∙ ap₂ (λ a b. a || (b && asks)) (game_after-quits k past) (sym yes))
      (λ no. game_after-quits k past ∙ unasked key asks (quits k past) no)
