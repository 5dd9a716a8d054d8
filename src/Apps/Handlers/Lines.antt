-- ===== src/Apps/Handlers/Lines.antt =====
-- Which lines the global handler of examples/device_specific_demo.c prints.
use asyncinput.Prelude.{
  arith, by_if, subst, if_false, ◌≡◌, refl, sym, ap, Bool, true, false, ◌&&◌, Option, some,
}
use asyncinput.Prelude.Int.{ℤ, pos, of_Bool, eqb_ℤ}
use asyncinput.Event.{Codes, NiEvent, ni_is_key_event, ni_is_rel_event, ni_button_down}
use asyncinput.Apps.Handlers.{Printed, code_line, global_fallback_handler, is_xy}

-- Which event is not a button that is down.
not_down_key :
    (c : Codes) (ev : NiEvent)
    → ni_is_key_event c (some ev) ≡ false
    → ni_button_down c (some ev) ≡ false
unfolding ni_button_down ni_is_key_event
not_down_key c ev h = rw h refl

not_down_up : (c : Codes) (ev : NiEvent) → ev.value ≡ pos 0 → ni_button_down c (some ev) ≡ false
unfolding ni_button_down
not_down_up c ev h = rw h (ground arith)

-- whether the line is another than that for buttons
abbrev IsElse : Option Printed → Type 0
IsElse (some (code_line code)) = ⊥
IsElse _ = Unit

-- A button that is down is a press where its value is 0 or 1, and a press is a key.
not_reached :
    (c : Codes) (ev : NiEvent) (down : Bool)
    → ev.value ≡ of_Bool down
    → (ni_is_key_event c (some ev) && eqb_ℤ ev.value (pos 1)) ≡ false
    → ni_button_down c (some ev) ≡ false
not_reached c ev false level other = not_down_up c ev level
not_reached c ev true level other =
    not_down_key c ev (ground (arith, other, ap (λ (v : ℤ). eqb_ℤ v (pos 1)) level))

global_fallback_handler-IsElse :
    (c : Codes) (ev : NiEvent) (down : Bool)
    → ev.value ≡ of_Bool down
    → IsElse (global_fallback_handler c ev)
unfolding global_fallback_handler
global_fallback_handler-IsElse c ev down level =
    by_if IsElse (ni_is_key_event c (some ev) && eqb_ℤ ev.value (pos 1)) _ _ (λ _. tt)
      (λ other.
        by_if IsElse (ni_is_rel_event c (some ev) && is_xy c ev.code) _ _ (λ _. tt)
          (λ _. subst IsElse (sym (if_false _ _ _ (not_reached c ev down level other))) tt))

-- Of an event whose value is 0 or 1, as the press and the release of a button have it, the global handler
-- never prints its line for buttons, whatever the event's type and code: that branch comes after the one
-- for pressed keys, and a mouse button is a key.
pub global_fallback_handler-buttons :
    (c : Codes) (ev : NiEvent) (down : Bool) (code : ℤ)
    → ev.value ≡ of_Bool down
    → ¬ (global_fallback_handler c ev ≡ some (code_line code))
global_fallback_handler-buttons c ev down code level printed =
    subst IsElse printed (global_fallback_handler-IsElse c ev down level)
