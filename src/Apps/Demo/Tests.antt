-- ===== src/Apps/Demo/Tests.antt =====
-- The theorems on examples/sdl3_demo.c at a concrete input.
use asyncinput.Prelude.{ℕ, ◌≡◌, refl, [], true, Option, none}
use asyncinput.Prelude.Int.{pos}
use asyncinput.Apps.Sample.{desktop}
use asyncinput.Apps.Uinput.{AppEnv}
use asyncinput.Apps.Demo.{Arguments, AppState, Demo}
use asyncinput.Apps.Demo.Holds.{IsClean}
use asyncinput.Apps.Demo.Cleanup.{RunsClean, demo_run, demo_run-IsClean, demo_run-dangles}

abbrev with_key : Arguments
with_key = record { hz = pos 10000; seconds = pos 5; emit_key = true }

abbrev unused : ℕ → Option AppState
unused p = none

abbrev start : Demo
start = record { appstate = none; memory = unused; trace = [] }

nothing_held : IsClean []
nothing_held = record { devices = λ x. (refl, refl); memory = λ p. refl; threads = λ h. refl }

demo_run-IsClean_example : RunsClean (demo_run desktop with_key start)
demo_run-IsClean_example = demo_run-IsClean desktop with_key (λ t. (5, refl)) unused [] nothing_held

-- a system where no thread starts
abbrev threadless : AppEnv
threadless = record desktop { pthread_create = λ t. none }

demo_run-dangles_example : demo_run threadless with_key start ≡ none
demo_run-dangles_example =
    demo_run-dangles threadless with_key 64 unused [] refl refl refl refl (λ s. refl)
