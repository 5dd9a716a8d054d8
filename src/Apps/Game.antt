-- ===== src/Apps/Game.antt =====
-- The callback of examples/sdl3_asyncinput.c: the keys of the game, the modifiers, and when to quit. The
-- two compare-and-exchange loops are those of Apps/Mask; here a callback runs whole.
use asyncinput.Prelude.{ℕ, Bool, true, false, ◌&&◌, ◌||◌, List, [], ◌∷◌, if◌then◌else◌, ◌==◌}
use asyncinput.Prelude.Int.{ℤ, pos, eqb_ℤ, ltb_ℤ, nonzero}
use asyncinput.Event.{NiEvent}
use asyncinput.Apps.Bits.{bit_at}
use asyncinput.Apps.Mask.{new_mask}

-- The codes that the callback tests, NI_EV_KEY and key codes. On Linux the kernel's header gives them.
pub record GameKeys : Type 0 where
  pub ev_key : ℤ
  pub key_w : ℤ
  pub key_a : ℤ
  pub key_s : ℤ
  pub key_d : ℤ
  pub key_leftctrl : ℤ
  pub key_rightctrl : ℤ
  pub key_leftalt : ℤ
  pub key_rightalt : ℤ
  pub key_esc : ℤ
  pub key_q : ℤ
  pub key_f1 : ℤ
  pub key_f12 : ℤ

pub record Game : Type 0 where
  pub g_modmask : ℕ
  pub g_keymask : ℕ
  pub g_should_quit : Bool
  pub g_last_input_ns : ℤ

abbrev pub game_start : Game
game_start = record { g_modmask = 0; g_keymask = 0; g_should_quit = false; g_last_input_ns = pos 0 }

-- What the `switch` does with a key: a bit of `g_keymask`, a bit of `g_modmask`, nothing.
pub data Role : Type 0 where
  gameplay : ℕ → Role
  modifier : ℕ → Role
  neutral : Role

-- NI_KEY_F1 <= code <= NI_KEY_F12
abbrev pub is_fn : GameKeys → ℤ → Bool
is_fn k code =
    (ltb_ℤ k.key_f1 code || eqb_ℤ k.key_f1 code) && (ltb_ℤ code k.key_f12 || eqb_ℤ code k.key_f12)

unfoldable pub role : GameKeys → ℤ → Role
role k code =
    if eqb_ℤ code k.key_w
    then gameplay 0
    else if eqb_ℤ code k.key_a
    then gameplay 1
    else if eqb_ℤ code k.key_s
    then gameplay 2
    else if eqb_ℤ code k.key_d
    then gameplay 3
    else if eqb_ℤ code k.key_leftctrl
    then modifier 0
    else if eqb_ℤ code k.key_rightctrl
    then modifier 1
    else if eqb_ℤ code k.key_leftalt
    then modifier 2
    else if eqb_ℤ code k.key_rightalt
    then modifier 3
    else neutral

-- `set_bit` or `update_modmask`
unfoldable pub track : Role → Bool → Game → Game
track (gameplay i) down s = record s {
  g_keymask = new_mask (record { bit = i; down = down }) s.g_keymask;
}
track (modifier i) down s = record s {
  g_modmask = new_mask (record { bit = i; down = down }) s.g_modmask;
}
track neutral down s = s

-- (g_modmask & 0x3) != 0 and (g_modmask & 0xC) != 0
abbrev pub ctrl_any : Game → Bool
ctrl_any s = bit_at s.g_modmask 0 == 1 || bit_at s.g_modmask 1 == 1

abbrev pub alt_any : Game → Bool
alt_any s = bit_at s.g_modmask 2 == 1 || bit_at s.g_modmask 3 == 1

-- `if (cond) atomic_store(&g_should_quit, true)`
abbrev pub quit_if : Bool → Game → Game
quit_if b s = if b then record s { g_should_quit = true } else s

-- a key event at the time `now`
unfoldable pub game_key : GameKeys → ℤ → ℤ → Bool → Game → Game
unfolding role track
game_key k now code down s =
    let tracked = track (role k code) down (record s { g_last_input_ns = now }) in
    let asked = quit_if (down && (eqb_ℤ code k.key_esc || eqb_ℤ code k.key_q)) tracked in
    quit_if (down && (ctrl_any asked && (alt_any asked && is_fn k code))) asked

-- `on_input`
unfoldable pub game_on_input : GameKeys → ℤ → NiEvent → Game → Game
unfolding game_key
game_on_input k now ev s =
    if eqb_ℤ ev.type k.ev_key then game_key k now ev.code (nonzero ev.value) s else s

-- the callbacks for events, the last one first, each with its time
unfoldable pub game_after : GameKeys → List (ℤ × NiEvent) → Game
unfolding game_on_input
game_after k [] = game_start
game_after k ((now, ev) ∷ past) = game_on_input k now ev (game_after k past)
