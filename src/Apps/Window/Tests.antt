-- ===== src/Apps/Window/Tests.antt =====
-- The theorem on examples/sdl3_asyncinput.c at a concrete input.
use asyncinput.Prelude.{ℕ, ◌≡◌, refl, [], ◌∷◌, Bool, true, false, Option, none}
use asyncinput.Prelude.Int.{pos}
use asyncinput.Posix.{G}
use asyncinput.Posix.Sample.{outside, idle, booted, booted_lem, idle-IsClosed, idle-off}
use asyncinput.Posix.Quiet.{fits}
use asyncinput.Posix.Worker.{Pending, event, worker_round}
use asyncinput.Posix.{slot}
use asyncinput.Posix.Runs.{worker}
use asyncinput.Posix.Runs.Life.{lived}
use asyncinput.Apps.Sample.{desktop}
use asyncinput.Apps.Demo.Holds.{IsClean}
use asyncinput.Apps.Programs.Release.{IsRun, registered}
use asyncinput.Apps.Window.{game_run}
use asyncinput.Apps.Window.Closing.{ClosesDown, game_run-ClosesDown}

abbrev unused : ℕ → Option Bool
unused p = none

-- The worker reads one event.
abbrev pressed : Pending
pressed = record {
  of_fd = λ fd.
      event (record { tv_sec = pos 1; tv_usec = pos 2; type = 1; code = 30; value = pos 1 }) ∷ [];
  nodes = [];
}

abbrev press : G → G
press g = (worker_round outside pressed (slot 0 ∷ []) g).1

press-IsRun : IsRun outside press
press-IsRun g life = lived g (press g) (worker pressed (slot 0 ∷ []) g) tt life

press_fits : fits (press (registered booted)).trace ≡ true
unfolding worker_round asyncinput.Posix.Api.ni_register_callback asyncinput.Posix.Api.ni_init
    asyncinput.Posix.zeroed asyncinput.Posix.Api.start asyncinput.Posix.Api.start_threads
    asyncinput.Posix.Api.default_names asyncinput.Posix.Api.scanned
    asyncinput.Posix.Api.start_inotify asyncinput.Posix.Api.fresh asyncinput.Posix.Paths.deduced_id
    asyncinput.Posix.Paths.event_path
press_fits = refl

nothing_held : IsClean []
nothing_held = record { devices = λ x. (refl, refl); memory = λ p. refl; threads = λ h. refl }

game_run-ClosesDown_example : ClosesDown (
    game_run outside desktop press
      (record { window = false; appstate = none; memory = unused; trace = []; g = idle }))
game_run-ClosesDown_example =
    game_run-ClosesDown outside idle booted (idle-off, idle-IsClosed) booted_lem press press-IsRun
      press_fits desktop unused [] refl nothing_held
