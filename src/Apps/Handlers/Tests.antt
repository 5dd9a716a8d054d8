-- ===== src/Apps/Handlers/Tests.antt =====
-- The theorem on examples/device_specific_demo.c at a concrete input.
use asyncinput.Prelude.{◌≡◌, true, refl, some}
use asyncinput.Prelude.Int.{pos}
use asyncinput.Event.{
  NiEvent, NiDeviceInfo, blank_event, portable_codes, ni_is_key_event, ni_is_rel_event,
  ni_button_down,
}
use asyncinput.Posix.Paths.{codes}
use asyncinput.Apps.Handlers.{
  code_line, button_line, left, mouse_handler, global_fallback_handler, device_type_filter,
}
use asyncinput.Apps.Handlers.Lines.{global_fallback_handler-buttons}

abbrev mouse : NiDeviceInfo
mouse = record {
  id = pos 3;
  path = codes "/dev/input/event3";
  bustype = 3;
  vendor = 1;
  product = 2;
  version = 1;
  name = codes "USB mouse";
}

abbrev click : NiEvent
click = record blank_event { type = pos 1; code = pos 0x110; value = pos 1 }

global_fallback_handler-buttons_example :
    ¬ (global_fallback_handler portable_codes click ≡ some (code_line (pos 0x110)))
global_fallback_handler-buttons_example =
    global_fallback_handler-buttons portable_codes click true (pos 0x110) refl

-- The line is there for a value that only keys repeat with.
repeated :
    global_fallback_handler portable_codes (record click { value = pos 2 })
    ≡ some (code_line (pos 0x110))
unfolding global_fallback_handler ni_is_key_event ni_is_rel_event ni_button_down
repeated = refl

-- The handler for mice names the button.
clicked : mouse_handler portable_codes click mouse ≡ some (button_line (codes "USB mouse") left)
unfolding mouse_handler ni_is_rel_event ni_button_down
clicked = refl

-- The name has the word.
mouse_found : device_type_filter mouse (codes "mouse") ≡ pos 1
unfolding device_type_filter
mouse_found = refl
