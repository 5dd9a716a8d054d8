-- ===== src/Posix/Worker/Tests.antt =====
-- The theorem on the way from the kernel to `ni_poll` at a concrete input.
use asyncinput.Prelude.{true, refl, List, [], ◌∷◌, ◌++◌, some, arith, replicate}
use asyncinput.Prelude.Int.{pos}
use asyncinput.Event.{blank_event}
use asyncinput.Ring.{ring_size}
use asyncinput.Ring.Bounds.{ring_init-IsValid}
use asyncinput.Ring.Refine.{contents}
use asyncinput.Posix.{G, zeroed}
use asyncinput.Posix.Sample.{outside}
use asyncinput.Posix.Worker.{InputEvent, ReadResult, event, error, drain}
use asyncinput.Posix.Worker.Delivery.{Polls, events, arrived, drain-ni_poll}
use asyncinput.Posix.Api.{ni_poll}

abbrev key_a : InputEvent
key_a = record { tv_sec = pos 1; tv_usec = pos 2; type = 1; code = 30; value = pos 1 }

abbrev sync : InputEvent
sync = record { tv_sec = pos 1; tv_usec = pos 2; type = 0; code = 0; value = pos 0 }

-- an initialized library that has read nothing yet
abbrev ready : G
ready = record (zeroed []) { initialized = true }

-- Two events are read, then the descriptor is empty.
abbrev reads : List ReadResult
reads = event key_a ∷ event sync ∷ error ∷ []

drain-ni_poll_example :
    Polls 8
      (contents ring_size blank_event ready.queue ++ events (pos 3) (arrived reads))
      (ni_poll (some (replicate 8 blank_event)) (pos 8) (drain outside (pos 3) reads ready))
unfolding zeroed asyncinput.Ring.ring_init
drain-ni_poll_example =
    drain-ni_poll outside (pos 3) reads ready (replicate 8 blank_event) 7 refl refl refl
      (ring_init-IsValid ring_size blank_event (omega arith)) (omega arith) (omega arith)
