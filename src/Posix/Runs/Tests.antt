-- ===== src/Posix/Runs/Tests.antt =====
-- The theorems on the runs of src/libasyncinput_posix.c at a concrete input.
use asyncinput.Prelude.{◌≡◌, inl, none, some, refl, true, false, [], ◌∷◌}
use asyncinput.Prelude.Int.{pos}
use asyncinput.Posix.{context, keymap, state, zeroed, G, RuleNames, inotify}
use asyncinput.Posix.Sample.{outside, idle, booted, booted_lem, idle-IsClosed, idle-off}
use asyncinput.Posix.Quiet.{fits}
use asyncinput.Posix.Devices.{InotifyEvent}
use asyncinput.Posix.Paths.{codes}
use asyncinput.Posix.Worker.{Pending, worker_round}
use asyncinput.Posix.Api.{ni_shutdown}
use asyncinput.Posix.Api.Lifecycle.{IsClosed}
use asyncinput.Posix.Runs.Life.{Life, born, lived, Life-ni_shutdown}
use asyncinput.Posix.Api.{ni_init}
use asyncinput.Posix.Keys.{ni_enable_xkb, ni_set_xkb_names}
use asyncinput.Posix.Keys.Objects.{IsOwned}
use asyncinput.Posix.Mice.{bytes, fresh_reader, mice_round}
use asyncinput.Posix.Runs.{begin, next, init, mice, enable_xkb, set_xkb_names, worker}
use asyncinput.Posix.Runs.Rings.{HasRings}
use asyncinput.Posix.Runs.Safety.{Reachable-HasRings}
use asyncinput.Posix.Runs.Objects.{HasNone, Session, started, onward, Session-IsOwned}

abbrev begun : G
begun = (ni_init outside (pos 0) (zeroed [])).1

abbrev packet_read : G
packet_read = (mice_round outside (bytes (9 ∷ 5 ∷ 2 ∷ 8 ∷ [])) fresh_reader begun).2

packet_fits : fits packet_read.trace ≡ true
unfolding ni_init zeroed asyncinput.Posix.Api.start asyncinput.Posix.Api.start_threads
    asyncinput.Posix.Api.default_names asyncinput.Posix.Api.scanned
    asyncinput.Posix.Api.start_inotify asyncinput.Posix.Api.fresh asyncinput.Posix.Paths.deduced_id
    asyncinput.Posix.Paths.event_path mice_round asyncinput.Posix.Devices.scan_devices
packet_fits = refl

Reachable-HasRings_example : HasRings packet_read
Reachable-HasRings_example =
    Reachable-HasRings outside packet_read
      (next begun packet_read (next (zeroed []) begun (begin []) (init (pos 0) (zeroed [])))
        (mice (bytes (9 ∷ 5 ∷ 2 ∷ 8 ∷ [])) fresh_reader begun))
      packet_fits

-- initialized, the xkb layer enabled, the layout changed
abbrev keyboard : G
keyboard = (ni_enable_xkb outside (pos 1) begun).1

abbrev german : RuleNames
german = record {
  rules = none;
  model = none;
  layout = some (100 ∷ 101 ∷ []);
  variant = none;
  options = none;
}

unused : IsOwned (zeroed [])
unfolding zeroed
unused context x = refl
unused keymap x = refl
unused state x = refl

nothing : HasNone (zeroed [])
unfolding zeroed
nothing = record { ctx = refl; km = refl; st = refl }

keyboard-Session : Session outside keyboard
keyboard-Session =
    onward begun keyboard (enable_xkb (pos 1) begun) tt
      (onward (zeroed []) begun (init (pos 0) (zeroed [])) (inl nothing) (started [] unused))

german_fits : fits (ni_set_xkb_names outside german keyboard).1.trace ≡ true
unfolding ni_init zeroed asyncinput.Posix.Api.start asyncinput.Posix.Api.start_threads
    asyncinput.Posix.Api.default_names asyncinput.Posix.Api.scanned
    asyncinput.Posix.Api.start_inotify asyncinput.Posix.Api.fresh asyncinput.Posix.Paths.deduced_id
    asyncinput.Posix.Paths.event_path ni_enable_xkb ni_set_xkb_names
    asyncinput.Posix.Devices.scan_devices
german_fits = refl

Session-IsOwned_example : IsOwned (ni_set_xkb_names outside german keyboard).1
Session-IsOwned_example =
    Session-IsOwned outside (ni_set_xkb_names outside german keyboard).1
      (onward keyboard (ni_set_xkb_names outside german keyboard).1 (set_xkb_names german keyboard)
        tt keyboard-Session)
      german_fits

-- event3 is unplugged.
abbrev unplugged : InotifyEvent
unplugged = record {
  create = false;
  delete = true;
  moved_to = false;
  len = 16;
  name = codes "event3";
}

abbrev notified : Pending
notified = record { nodes = unplugged ∷ []; of_fd = λ fd. [] }

abbrev left : G
left = (worker_round outside notified (inotify ∷ []) booted).1

left-Life : Life outside left
left-Life =
    lived booted left (worker notified (inotify ∷ []) booted) tt
      (born (pos 0) idle booted idle-IsClosed idle-off booted_lem)

left_fits : fits left.trace ≡ true
unfolding worker_round ni_init zeroed asyncinput.Posix.Api.start asyncinput.Posix.Api.start_threads
    asyncinput.Posix.Api.default_names asyncinput.Posix.Api.scanned
    asyncinput.Posix.Api.start_inotify asyncinput.Posix.Api.fresh asyncinput.Posix.Paths.deduced_id
    asyncinput.Posix.Paths.event_path
left_fits = refl

Life-ni_shutdown_example :
    ((ni_shutdown left).0 ≡ pos 0)
    × ((ni_shutdown left).1.initialized ≡ false)
    × IsClosed (ni_shutdown left).1.trace
Life-ni_shutdown_example = Life-ni_shutdown outside left left-Life left_fits
