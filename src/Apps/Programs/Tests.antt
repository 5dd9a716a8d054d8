-- ===== src/Apps/Programs/Tests.antt =====
-- The theorems on the programs of examples at a concrete input.
use asyncinput.Prelude.{◌≡◌, refl, [], ◌∷◌, true, false}
use asyncinput.Posix.{G, inotify}
use asyncinput.Posix.Sample.{outside, idle, booted_lem, idle-IsClosed, idle-off}
use asyncinput.Posix.Quiet.{fits}
use asyncinput.Posix.Devices.{InotifyEvent}
use asyncinput.Posix.Paths.{codes}
use asyncinput.Posix.Worker.{Pending, worker_round}
use asyncinput.Posix.Api.{ni_init}
use asyncinput.Posix.Runs.{worker}
use asyncinput.Posix.Runs.Life.{lived}
use asyncinput.Apps.Sample.{desktop}
use asyncinput.Apps.Uinput.{AppEnv, AppTrace, IsGivenBack, opens, closes, uinput_opened}
use asyncinput.Apps.Programs.{App, benchmark_main}
use asyncinput.Apps.Programs.Release.{IsRun, IsOff, HasJoined, benchmark_main-releases}

-- event3 is unplugged.
abbrev unplugged : InotifyEvent
unplugged = record {
  create = false;
  delete = true;
  moved_to = false;
  len = 16;
  name = codes "event3";
}

abbrev notified : Pending
notified = record { nodes = unplugged ∷ []; of_fd = λ fd. [] }

abbrev unplug : G → G
unplug g = (worker_round outside notified (inotify ∷ []) g).1

unplug-IsRun : IsRun outside unplug
unplug-IsRun g life = lived g (unplug g) (worker notified (inotify ∷ []) g) tt life

abbrev at_start : App
at_start = record { trace = []; g = idle }

none_given : IsGivenBack []
none_given x = (refl, refl)

benchmark_fits : fits (benchmark_main outside desktop unplug at_start).1.g.trace ≡ true
unfolding benchmark_main asyncinput.Apps.Uinput.benchmark_create ni_init asyncinput.Posix.zeroed
    asyncinput.Posix.Api.start asyncinput.Posix.Api.start_threads
    asyncinput.Posix.Api.ni_register_callback asyncinput.Posix.Api.ni_shutdown worker_round
    asyncinput.Posix.Api.default_names asyncinput.Posix.Api.scanned
    asyncinput.Posix.Api.start_inotify asyncinput.Posix.Api.fresh asyncinput.Posix.Paths.deduced_id
    asyncinput.Posix.Paths.event_path
benchmark_fits = refl

benchmark_main-releases_example :
    ((benchmark_main outside desktop unplug at_start).0 ≡ 0)
    × IsOff (benchmark_main outside desktop unplug at_start).1.g
    × IsGivenBack (benchmark_main outside desktop unplug at_start).1.trace
    × HasJoined (benchmark_main outside desktop unplug at_start).1.trace
benchmark_main-releases_example =
    benchmark_main-releases outside idle _ (idle-off, idle-IsClosed) booted_lem desktop [] refl
      none_given unplug unplug-IsRun (tt, λ k. refl) 5 refl benchmark_fits
