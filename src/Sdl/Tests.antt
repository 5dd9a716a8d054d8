-- ===== src/Sdl/Tests.antt =====
-- The theorems on src/libasyncinput_stub.c at concrete inputs.
use asyncinput.Prelude.{[], ◌∷◌, true, false, some}
use asyncinput.Prelude.Int.{pos}
use asyncinput.Event.{portable_codes}
use asyncinput.Sdl.{Sdl, SdlEnv, motion, key, sdl_zeroed, sdl_ni_init, sdl_round}
use asyncinput.Sdl.Runs.{begin, next, init, round, HasValidQueue, Reachable-HasValidQueue}

abbrev working : SdlEnv
working = record {
  codes = portable_codes;
  button_left = 1;
  button_right = 3;
  button_middle = 2;
  ticks = λ t. pos 9;
  sdl_init = λ t. true;
  create_thread = λ t. some 4;
  create_window = λ t. true;
}

-- SDL_Init fails
abbrev broken : SdlEnv
broken = record working { sdl_init = λ t. false }

abbrev begun : Sdl
begun = (sdl_ni_init broken (pos 0) sdl_zeroed).1

Reachable-HasValidQueue_example :
    HasValidQueue (sdl_round broken (motion (pos 3) (pos 0) ∷ key true (pos 4) ∷ []) begun).1
Reachable-HasValidQueue_example =
    Reachable-HasValidQueue broken
      (sdl_round broken (motion (pos 3) (pos 0) ∷ key true (pos 4) ∷ []) begun).1
      (next begun (sdl_round broken (motion (pos 3) (pos 0) ∷ key true (pos 4) ∷ []) begun).1
        (next sdl_zeroed begun begin (init (pos 0) sdl_zeroed))
        (round (motion (pos 3) (pos 0) ∷ key true (pos 4) ∷ []) begun))
