-- ===== src/Event.antt =====
-- The public data of include/asyncinput.h: event codes, `struct ni_event`, `struct ni_key_event`,
-- `struct ni_device_info`, and the inline predicates on events.
pub mod Predicates
pub mod Keys
pub mod Scancodes
mod Tests
use asyncinput.Prelude.{ℕ, Bool, true, false, ◌&&◌, ◌||◌, List, [], Option, none, some}
use asyncinput.Prelude.Int.{ℤ, pos, eqb_ℤ, nonzero}

-- The codes that the backends emit. On Linux their values are those of the kernel's header, which
-- this repository does not hold, so a model of that backend takes them as a parameter.
pub record Codes : Type 0 where
  pub ev_key : ℤ
  pub ev_rel : ℤ
  pub rel_x : ℤ
  pub rel_y : ℤ
  pub rel_wheel : ℤ
  pub btn_left : ℤ
  pub btn_right : ℤ
  pub btn_middle : ℤ
  pub btn_side : ℤ
  pub btn_extra : ℤ

-- The values that the header gives itself on other platforms.
abbrev pub portable_codes : Codes
portable_codes = record {
  ev_key = pos 0x01;
  ev_rel = pos 0x02;
  rel_x = pos 0x00;
  rel_y = pos 0x01;
  rel_wheel = pos 0x08;
  btn_left = pos 0x110;
  btn_right = pos 0x111;
  btn_middle = pos 0x112;
  btn_side = pos 0x113;
  btn_extra = pos 0x114;
}

-- NI_EV_MOUSE, NI_MOUSE_MOVE and NI_MOUSE_BUTTON
abbrev pub ni_ev_mouse : ℤ
ni_ev_mouse = pos 0x2FF

abbrev pub ni_mouse_move : ℤ
ni_mouse_move = pos 1

abbrev pub ni_mouse_button : ℤ
ni_mouse_button = pos 2

pub record NiEvent : Type 0 where
  pub device_id : ℤ
  pub type : ℤ
  pub code : ℤ
  pub value : ℤ
  pub timestamp_ns : ℤ
  pub x : ℤ
  pub y : ℤ
  pub extra : ℤ

-- `struct ni_event ev = {0}`
abbrev pub blank_event : NiEvent
blank_event = record {
  device_id = pos 0;
  type = pos 0;
  code = pos 0;
  value = pos 0;
  timestamp_ns = pos 0;
  x = pos 0;
  y = pos 0;
  extra = pos 0;
}

-- Texts are lists of bytes without the closing NUL.
pub record NiDeviceInfo : Type 0 where
  pub id : ℤ
  pub path : List ℕ
  pub bustype : ℕ
  pub vendor : ℕ
  pub product : ℕ
  pub version : ℕ
  pub name : List ℕ

pub record NiKeyEvent : Type 0 where
  pub device_id : ℤ
  pub keysym : ℕ
  pub text : List ℕ
  pub down : ℤ
  pub mods : ℕ
  pub timestamp_ns : ℤ

abbrev pub blank_key_event : NiKeyEvent
blank_key_event = record {
  device_id = pos 0;
  keysym = 0;
  text = [];
  down = pos 0;
  mods = 0;
  timestamp_ns = pos 0;
}

-- NI_KMOD_SHIFT, NI_KMOD_CTRL, NI_KMOD_ALT and NI_KMOD_SUPER
abbrev pub kmod_shift : ℕ
kmod_shift = 1

abbrev pub kmod_ctrl : ℕ
kmod_ctrl = 2

abbrev pub kmod_alt : ℕ
kmod_alt = 4

abbrev pub kmod_super : ℕ
kmod_super = 8

-- The inline predicates. The pointer may be NULL, which is `none`.
module _ (c : Codes) where
  unfoldable pub ni_is_key_event : Option NiEvent → Bool
  ni_is_key_event none = false
  ni_is_key_event (some ev) = eqb_ℤ ev.type c.ev_key

  unfoldable pub ni_key_down : Option NiEvent → Bool
  unfolding ni_is_key_event
  ni_key_down none = false
  ni_key_down (some ev) = ni_is_key_event (some ev) && nonzero ev.value

  unfoldable pub ni_is_rel_event : Option NiEvent → Bool
  ni_is_rel_event none = false
  ni_is_rel_event (some ev) = eqb_ℤ ev.type c.ev_rel

  unfoldable pub ni_is_mouse_button_code : ℤ → Bool
  ni_is_mouse_button_code code =
      eqb_ℤ code c.btn_left
      || eqb_ℤ code c.btn_right
      || eqb_ℤ code c.btn_middle
      || eqb_ℤ code c.btn_side
      || eqb_ℤ code c.btn_extra

  unfoldable pub ni_button_down : Option NiEvent → Bool
  unfolding ni_is_mouse_button_code
  ni_button_down none = false
  ni_button_down (some ev) =
      eqb_ℤ ev.type c.ev_key && (ni_is_mouse_button_code ev.code && nonzero ev.value)
