-- ===== src/Apps/Handlers.antt =====
-- examples/device_specific_demo.c: the lines that its handlers print, and the filter by a name for the kind of
-- device. A line holds what is filled in, but for the latency, which is in floating point.
pub mod Lines
mod Tests
use asyncinput.Prelude.{
  ℕ, List, [], ◌∷◌, Bool, true, false, not, ◌&&◌, ◌||◌, Option, none, some, if◌then◌else◌, ◌==◌,
}
use asyncinput.Prelude.Int.{ℤ, pos, eqb_ℤ, of_Bool}
use asyncinput.Event.{
  Codes, NiEvent, NiDeviceInfo, ni_is_key_event, ni_is_rel_event, ni_button_down,
}
use asyncinput.Posix.Paths.{codes}

pub data Button : Type 0 where
  left right middle unknown : Button

-- The name of the device, or none in the global handler; whether it is along X.
pub data Printed : Type 0 where
  key_line : Option (List ℕ) → ℤ → Printed
  move_line : Option (List ℕ) → Bool → ℤ → Printed
  button_line : List ℕ → Button → Printed
  code_line : ℤ → Printed

module _ (c : Codes) where
  abbrev pub is_xy : ℤ → Bool
  is_xy code = eqb_ℤ code c.rel_x || eqb_ℤ code c.rel_y

  unfoldable pub keyboard_handler : NiEvent → NiDeviceInfo → Option Printed
  keyboard_handler ev device =
      if ni_is_key_event c (some ev) && eqb_ℤ ev.value (pos 1)
      then some (key_line (some device.name) ev.code)
      else none

  -- `switch (ev->code)`
  abbrev pub btn_name : ℤ → Button
  btn_name code =
      if eqb_ℤ code c.btn_left
      then left
      else if eqb_ℤ code c.btn_right
      then right
      else if eqb_ℤ code c.btn_middle
      then middle
      else unknown

  unfoldable pub mouse_handler : NiEvent → NiDeviceInfo → Option Printed
  mouse_handler ev device =
      if ni_is_rel_event c (some ev)
      then if is_xy ev.code
        then some (move_line (some device.name) (eqb_ℤ ev.code c.rel_x) ev.value)
        else none
      else if ni_button_down c (some ev)
      then some (button_line device.name (btn_name ev.code))
      else none

  unfoldable pub global_fallback_handler : NiEvent → Option Printed
  global_fallback_handler ev =
      if ni_is_key_event c (some ev) && eqb_ℤ ev.value (pos 1)
      then some (key_line none ev.code)
      else if ni_is_rel_event c (some ev) && is_xy ev.code
      then some (move_line none (eqb_ℤ ev.code c.rel_x) ev.value)
      else if ni_button_down c (some ev)
      then some (code_line ev.code)
      else none

-- `strcmp` gives 0; `strstr` finds.
unfoldable pub same_text : List ℕ → List ℕ → Bool
same_text [] [] = true
same_text [] (b ∷ bs) = false
same_text (a ∷ w) [] = false
same_text (a ∷ w) (b ∷ bs) = a == b && same_text w bs

unfoldable pub starts_with : List ℕ → List ℕ → Bool
starts_with [] s = true
starts_with (a ∷ w) [] = false
starts_with (a ∷ w) (b ∷ bs) = a == b && starts_with w bs

unfoldable pub contains : List ℕ → List ℕ → Bool
unfolding starts_with
contains word [] = starts_with word []
contains word (b ∷ bs) = starts_with word (b ∷ bs) || contains word bs

unfoldable pub device_type_filter : NiDeviceInfo → List ℕ → ℤ
unfolding contains same_text
device_type_filter info device_type =
    if same_text device_type (codes "keyboard")
    then of_Bool (
        contains (codes "keyboard") info.name
        || contains (codes "Keyboard") info.name
        || info.vendor == 0x04f2)
    else if same_text device_type (codes "mouse")
    then of_Bool (
        contains (codes "mouse") info.name
        || contains (codes "Mouse") info.name
        || info.vendor == 0x046d)
    else pos 0
