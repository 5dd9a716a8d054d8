-- ===== src/Posix/Mice/Tests.antt =====
-- The theorems on `mice_worker` of src/libasyncinput_posix.c at concrete inputs.
use asyncinput.Prelude.{◌≡◌, [], ◌∷◌}
use asyncinput.Prelude.Int.{pos}
use asyncinput.Event.{portable_codes}
use asyncinput.Posix.Sample.{outside, booted}
use asyncinput.Posix.Mice.{packet_events, mice_bytes, fresh_reader}
use asyncinput.Posix.Mice.Packets.{decoded, packet_events-decoded, mice_bytes-replay, replay}

-- Buttons 1 and 3 down, 5 to the right, 2 up; then the first byte of a packet.
packet_events-decoded_example :
    packet_events portable_codes (pos 50) (5 ∷ 5 ∷ 2 ∷ 9 ∷ []) 3
    ≡ decoded portable_codes (pos 50) 5 5 2
packet_events-decoded_example = packet_events-decoded portable_codes (pos 50) 5 5 2 9

mice_bytes-replay_example :
    let (m, s) = mice_bytes outside (5 ∷ 5 ∷ 2 ∷ 8 ∷ []) fresh_reader booted in
    (m.have ≡ 1) × (s ≡ replay outside (5 ∷ 5 ∷ 2 ∷ 8 ∷ []) booted)
mice_bytes-replay_example = mice_bytes-replay outside (5 ∷ 5 ∷ 2 ∷ 8 ∷ []) booted
