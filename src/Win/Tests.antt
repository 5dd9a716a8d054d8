-- ===== src/Win/Tests.antt =====
-- The theorems on src/libasyncinput_win.c at concrete inputs, with the masks of <windows.h>.
use asyncinput.Prelude.{◌≡◌, refl, [], ◌∷◌, true, some, if◌then◌else◌, not, ◌==◌}
use asyncinput.Prelude.Int.{pos}
use asyncinput.Event.{blank_key_event, portable_codes}
use asyncinput.Win.{
  Win, WinEnv, mouse, keyboard, wm_input, wm_char, win_zeroed, raw_events, button_events,
}
use asyncinput.Win.Translate.{raw_events-motionless}
use asyncinput.Win.Api.{win_init, win_round, win_poll_key_events}
use asyncinput.Win.Steps.{Reachable, begin, next, init, round, IsSafe}
use asyncinput.Win.Keyless.{Reachable-IsSafe, Reachable-win_poll_key_events}

abbrev windows : WinEnv
windows = record {
  codes = portable_codes;
  move_relative = 0;
  key_break = 1;
  left_down = 0x1;
  left_up = 0x2;
  right_down = 0x4;
  right_up = 0x8;
  middle_down = 0x10;
  middle_up = 0x20;
  button_4_down = 0x40;
  button_4_up = 0x80;
  button_5_down = 0x100;
  button_5_up = 0x200;
  wheel = 0x400;
  wheel_delta = 120;
  raw = λ t handle. some (keyboard (pos 1) 30 0);
  clock = λ t. pos 5;
  utf8 = λ t unit. unit ∷ [];
  create_window = λ t. some 3;
  register_raw = λ t. true;
  create_thread = λ t. some 4;
}

-- The mouse moves 7 to the right with the left button pressed.
raw_events-motionless_example :
    raw_events windows (pos 5) (mouse (pos 2) 0 (pos 7) (pos 0) 1 0)
    ≡ (if not (1 == 0) then button_events windows (pos 2) (pos 5) 1 0 else [])
raw_events-motionless_example =
    raw_events-motionless windows (pos 5) (pos 2) (pos 7) (pos 0) 0 1 0 refl

-- `ni_init`, then a key is pressed and its character comes.
abbrev begun : Win
begun = (win_init windows (pos 0) (win_zeroed [])).1

abbrev typed : Win
typed = (win_round windows (wm_input 1 ∷ wm_char 97 ∷ []) begun).1

typed-Reachable : Reachable windows typed
typed-Reachable =
    next begun typed (next (win_zeroed []) begun (begin []) (init (pos 0) (win_zeroed [])))
      (round (wm_input 1 ∷ wm_char 97 ∷ []) begun)

typed-on : typed.initialized ≡ true
unfolding win_round win_init win_zeroed
typed-on = refl

Reachable-IsSafe_example : IsSafe typed
Reachable-IsSafe_example = Reachable-IsSafe windows typed typed-Reachable

Reachable-win_poll_key_events_example :
    win_poll_key_events (some (blank_key_event ∷ [])) (pos 1) typed
    ≡ (pos 0, some (blank_key_event ∷ []), typed)
Reachable-win_poll_key_events_example =
    Reachable-win_poll_key_events windows typed (blank_key_event ∷ []) 0 typed-Reachable typed-on
