-- ===== src/Event/Predicates.antt =====
-- How the inline predicates of include/asyncinput.h relate.
use asyncinput.Prelude.{true, ◌≡◌, refl, ◌↔◌, Option, none, some, arith}
use asyncinput.Event.{
  Codes, NiEvent, ni_is_key_event, ni_key_down, ni_is_mouse_button_code, ni_button_down,
}

module _ (c : Codes) where
  -- A button is down exactly in an event, behind a pointer that is not NULL, that is a key-down
  -- event with the code of one of the five mouse buttons.
  ni_button_down_iff :
      (ev : Option NiEvent)
      → (ni_button_down c ev ≡ true) ↔ (
          (e : NiEvent) × (ev ≡ some e)
          × (ni_key_down c ev ≡ true)
          × (ni_is_mouse_button_code c e.code ≡ true))
  unfolding ni_button_down ni_key_down ni_is_key_event
  ni_button_down_iff none = (λ h. absurd (cc), λ h. absurd (cc (h.1)))
  ni_button_down_iff (some e) =
      (λ h. (e, refl, ground arith, ground arith), λ h. ground (arith, h.1, h.2, h.3))
