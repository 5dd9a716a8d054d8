-- ===== src/Apps/Tests.antt =====
-- The theorems on the programs of examples at concrete inputs.
use asyncinput.Prelude.{
  ℕ, ◌+◌, ◌%◌, ◌^◌, ◌<◌, ◌≤◌, ◌≡◌, ◌⊎◌, refl, true, false, if◌then◌else◌, List, [], ◌∷◌, length,
  arith,
}
use asyncinput.Prelude.Int.{ℤ, pos, negsuc, neg}
use asyncinput.Event.{NiEvent, blank_event, portable_codes}
use asyncinput.Posix.Mice.{signed_char, bit, packet_events}
use asyncinput.Apps.Bits.{bit_at}
use asyncinput.Apps.Mask.{
  Update, Masked, Move, load, compare, move, moves, at_rest, outside, trying,
}
use asyncinput.Apps.Linear.{verdict, moves-bit_at}
use asyncinput.Apps.Progress.{exchange-progress}
use asyncinput.Apps.Mouse.{
  at_start, fetch_add, Turn, input, take, look, along_x, along_y, counter, turns, mouse_on_all,
}
use asyncinput.Apps.Motion.{IsApart, travelled, shown_along, turns-travelled}
use asyncinput.Apps.Packets.{hwheel, mouse_on_all-packet_events}
use asyncinput.Apps.Latency.{Stats, no_stats, average, callback_cb}
use asyncinput.Apps.Game.{GameKeys, game_after}
use asyncinput.Apps.Quit.{quits, game_after-quits}
use asyncinput.Apps.Average.{on_events, on_events-average}

-- W goes down, and A
abbrev w_down : Update
w_down = record { bit = 0; down = true }

abbrev a_down : Update
a_down = record { bit = 1; down = true }

-- two threads; the first exchange of the one comes too late
abbrev raced : List Move
raced = load 0 w_down ∷ load 1 a_down ∷ compare false 1 ∷ compare false 0 ∷ compare false 0 ∷ []

raced_both : (moves raced (at_rest 0)).mask ≡ 3
unfolding moves asyncinput.Apps.Mask.new_mask asyncinput.Apps.Bits.or_bit
raced_both = refl

moves-bit_at_example :
    bit_at (moves raced (at_rest 0)).mask 1 ≡ verdict 0 1 (moves raced (at_rest 0)).done
moves-bit_at_example = moves-bit_at 0 raced 1

abbrev waiting : Masked
waiting = record { mask = 2; local = λ i. trying w_down 0; done = a_down ∷ [] }

exchange-progress_example :
    let tried = move (compare false 0) waiting in
    let waited = moves (compare true 1 ∷ []) tried in
    ((move (compare false 0) waited).local 0 ≡ outside) ⊎ (length tried.done < length waited.done)
exchange-progress_example = exchange-progress 0 w_down 0 waiting (compare true 1 ∷ []) refl refl

apart : IsApart portable_codes hwheel
apart = record { x_y = refl; x_wheel = refl; x_hwheel = refl; y_wheel = refl; y_hwheel = refl }

-- 3 to the left
abbrev left : NiEvent
left = record blank_event { type = pos 2; code = pos 0; value = negsuc 2 }

abbrev session : List (Turn portable_codes hwheel)
session = input left ∷ take along_y ∷ input left ∷ take along_x ∷ look ∷ input left ∷ []

turns-travelled_example :
    let (printed, end) = turns portable_codes hwheel session at_start in
    (shown_along along_x printed + counter along_x end) % 2 ^ 32
    ≡ (counter along_x at_start + travelled portable_codes hwheel along_x session) % 2 ^ 32
turns-travelled_example = turns-travelled portable_codes hwheel along_x session at_start apart

mouse_on_all-packet_events_example :
    let t =
      mouse_on_all portable_codes hwheel
        (packet_events portable_codes (pos 50) (5 ∷ 250 ∷ 2 ∷ 0 ∷ []) 3)
        at_start in
    (t.g_dx ≡ fetch_add at_start.g_dx (signed_char 250))
    × (t.g_dy ≡ fetch_add at_start.g_dy (neg (signed_char 2)))
    × (bit_at t.g_btnmask 0 ≡ (if bit 5 0 then 1 else 0))
    × (bit_at t.g_btnmask 1 ≡ (if bit 5 1 then 1 else 0))
    × (bit_at t.g_btnmask 2 ≡ (if bit 5 2 then 1 else 0))
mouse_on_all-packet_events_example = mouse_on_all-packet_events (pos 50) 5 250 2 0 at_start

-- a scan code at the time 100
abbrev scan : NiEvent
scan = record blank_event { type = pos 4; timestamp_ns = pos 100 }

abbrev received : List (ℤ × NiEvent)
received = (pos 130, scan) ∷ (pos 90, scan) ∷ (pos 110, scan) ∷ []

abbrev measured : Stats
measured = on_events portable_codes (pos 4) received no_stats

on_events-average_example :
    (measured.g_min_lat ≤ average measured) × (average measured ≤ measured.g_max_lat)
unfolding asyncinput.Apps.Latency.on_event asyncinput.Prelude.Int.◌+ℤ◌
    asyncinput.Event.ni_is_key_event
on_events-average_example =
    on_events-average portable_codes (pos 4) received (omega arith) (omega arith)

abbrev keys : GameKeys
keys = record {
  ev_key = pos 0x01;
  key_w = pos 0x11;
  key_a = pos 0x1E;
  key_s = pos 0x1F;
  key_d = pos 0x20;
  key_leftctrl = pos 0x1D;
  key_rightctrl = pos 0x61;
  key_leftalt = pos 0x38;
  key_rightalt = pos 0x64;
  key_esc = pos 0x01;
  key_q = pos 0x10;
  key_f1 = pos 0x3B;
  key_f12 = pos 0x58;
}

abbrev key_press : ℕ → NiEvent
key_press code = record blank_event { type = pos 1; code = pos code; value = pos 1 }

-- right Ctrl, left Alt, F3
abbrev switch_terminal : List (ℤ × NiEvent)
switch_terminal = (pos 9, key_press 0x3D) ∷ (pos 8, key_press 0x38) ∷ (pos 7, key_press 0x61) ∷ []

switch_quits : quits keys switch_terminal ≡ true
unfolding asyncinput.Apps.Game.role
switch_quits = refl

game_after-quits_example :
    (game_after keys switch_terminal).g_should_quit ≡ quits keys switch_terminal
game_after-quits_example = game_after-quits keys switch_terminal
