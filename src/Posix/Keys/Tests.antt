-- ===== src/Posix/Keys/Tests.antt =====
-- The theorems on the xkb layer of src/libasyncinput_posix.c at concrete inputs.
use asyncinput.Prelude.{◌-◌, ◌≡◌, refl, [], true, some, arith}
use asyncinput.Prelude.Int.{pos}
use asyncinput.Event.{NiEvent, NiKeyEvent, blank_event, blank_key_event}
use asyncinput.Ring.{ring_size}
use asyncinput.Ring.Bounds.{ring_init-IsValid}
use asyncinput.Ring.Fifo.{offer}
use asyncinput.Ring.Refine.{contents}
use asyncinput.Posix.{G, zeroed}
use asyncinput.Posix.Sample.{outside}
use asyncinput.Posix.Keys.{maybe_emit_key_event}
use asyncinput.Posix.Keys.Events.{maybe_emit_key_event_queues}

-- the key 30 goes down
abbrev pressed : NiEvent
pressed = record blank_event { device_id = pos 3; type = pos 1; code = pos 30; value = pos 1 }

-- the state that the next example starts from
abbrev listening : G
listening = record (zeroed []) { xkb_enabled = true; xkb_state = some 22 }

maybe_emit_key_event_queues_example :
    let s = maybe_emit_key_event outside pressed listening in
    (kev : NiKeyEvent) × (contents ring_size blank_key_event s.key_queue
      ≡ offer (ring_size - 1) (contents ring_size blank_key_event listening.key_queue) kev)
    × (kev.device_id ≡ pos 3)
    × (kev.timestamp_ns ≡ pos 0)
    × (kev.down ≡ pos 1)
    × (kev.text ≡ kev.text)
unfolding zeroed
maybe_emit_key_event_queues_example =
    maybe_emit_key_event_queues outside pressed listening 22 refl refl refl refl refl
      (ring_init-IsValid ring_size blank_key_event (omega arith))
