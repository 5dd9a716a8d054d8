-- ===== src/Event/Tests.antt =====
-- The inline predicates of include/asyncinput.h at a concrete event.
use asyncinput.Prelude.{false, refl, ◌≡◌, true, some}
use asyncinput.Prelude.Int.{pos}
use asyncinput.Event.{NiEvent, blank_event, portable_codes, ni_button_down, ni_is_rel_event}

-- the left button goes down
abbrev click : NiEvent
click = record blank_event { type = pos 1; code = pos 0x110; value = pos 1 }

click_down : ni_button_down portable_codes (some click) ≡ true
unfolding ni_button_down asyncinput.Event.ni_is_mouse_button_code
click_down = refl

click_no_movement : ni_is_rel_event portable_codes (some click) ≡ false
unfolding ni_is_rel_event
click_no_movement = refl
