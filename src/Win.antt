-- ===== src/Win.antt =====
-- src/libasyncinput_win.c, the Windows backend: its global `g`, what lies outside the file (the Win32
-- calls and the application's functions), the translation of Raw Input, and the window procedure.
pub mod Translate
pub mod Api
pub mod Steps
pub mod Keyless
mod Tests
use Prim.Native.Nat.{bit_and}
use asyncinput.Prelude.{
  ℕ, ◌+◌, ◌-◌, ◌*◌, ◌/◌, ◌≡◌, Bool, true, false, not, List, [], ◌∷◌, ◌++◌, Option, none, some, ltb,
  ◌==◌, if◌then◌else◌, take,
}
use asyncinput.Prelude.Int.{ℤ, pos, negsuc, neg, nonzero, of_Bool, minus_one}
use asyncinput.Event.{Codes, NiEvent, NiKeyEvent, blank_event, blank_key_event}
use asyncinput.Ring.{RingBuf, ring_size, ring_init, ring_push}
use asyncinput.Ring.Copies.{
  WinRingBuf, WinKeyRingBuf, win_ring_init, win_keyring_init, win_ring_push,
}

-- RAWKEYBOARD and RAWMOUSE, the members that are read
pub data RawInput : Type 0 where
  keyboard : (device : ℤ) (make_code flags : ℕ) → RawInput
  mouse : (device : ℤ) (flags : ℕ) (last_x last_y : ℤ) (buttons amount : ℕ) → RawInput
  hid : RawInput

pub data Message : Type 0 where
  wm_input : (handle : ℕ) → Message
  wm_char : (unit : ℕ) → Message
  wm_destroy : Message
  other : ℕ → Message

-- The calls that leave the file, as far as something depends on them.
pub data WinCall : Type 0 where
  called : ℕ → ℕ → NiEvent → WinCall
  key_called : ℕ → ℕ → NiKeyEvent → WinCall
  clock_read : WinCall
  quit_posted : WinCall
  default_handled : ℕ → WinCall
  window_made : Option ℕ → WinCall
  raw_registered : Bool → WinCall
  window_destroyed : Option ℕ → WinCall
  close_posted : ℕ → WinCall
  thread_made : Option ℕ → WinCall
  waited : Option ℕ → WinCall

abbrev pub WinTrace : Type 0
WinTrace = List WinCall

-- What the outside answers, and the masks of <windows.h>. `raw` is `none` where `GetRawInputData` or
-- `malloc` fails; `clock` is `now_ns` with its floating-point arithmetic; `utf8` is
-- `WideCharToMultiByte`, without bytes where it fails.
pub record WinEnv : Type 0 where
  pub codes : Codes
  pub move_relative : ℕ
  pub key_break : ℕ
  pub left_down : ℕ
  pub left_up : ℕ
  pub right_down : ℕ
  pub right_up : ℕ
  pub middle_down : ℕ
  pub middle_up : ℕ
  pub button_4_down : ℕ
  pub button_4_up : ℕ
  pub button_5_down : ℕ
  pub button_5_up : ℕ
  pub wheel : ℕ
  pub wheel_delta : ℕ
  pub raw : WinTrace → ℕ → Option RawInput
  pub clock : WinTrace → ℤ
  pub utf8 : WinTrace → ℕ → List ℕ
  pub create_window : WinTrace → Option ℕ
  pub register_raw : WinTrace → Bool
  pub create_thread : WinTrace → Option ℕ

-- The global `g`, without the locks and the thread id, which nothing reads, and the trace.
pub record Win : Type 0 where
  pub initialized : Bool
  pub stop : Bool
  pub thread : Option ℕ
  pub hwnd : Option ℕ
  pub queue : WinRingBuf
  pub cb : Option ℕ
  pub cb_user : ℕ
  pub filter : Option ℕ
  pub filter_user : ℕ
  pub device_count : ℕ
  pub key_queue : WinKeyRingBuf
  pub key_cb : Option ℕ
  pub key_cb_user : ℕ
  pub trace : WinTrace

-- `memset(&g, 0, sizeof(g))`, `ring_init` and `keyring_init`
unfoldable pub win_zeroed : WinTrace → Win
win_zeroed t = record {
  initialized = false;
  stop = false;
  thread = none;
  hwnd = none;
  queue = win_ring_init;
  cb = none;
  cb_user = 0;
  filter = none;
  filter_user = 0;
  device_count = 0;
  key_queue = win_keyring_init;
  key_cb = none;
  key_cb_user = 0;
  trace = t;
}

abbrev pub log : WinCall → Win → Win
log c g = record g { trace = c ∷ g.trace }

unfoldable pub win_emit_to : Option ℕ → NiEvent → Win → Win
win_emit_to (some f) ev g = log (called f g.cb_user ev) g
win_emit_to none ev g = record g { queue = win_ring_push g.queue ev }

unfoldable pub win_emit_or_queue : NiEvent → Win → Win
unfolding win_emit_to
win_emit_or_queue ev g = win_emit_to g.cb ev g

unfoldable pub win_emit_all : List NiEvent → Win → Win
unfolding win_emit_or_queue
win_emit_all [] g = g
win_emit_all (ev ∷ evs) g = win_emit_all evs (win_emit_or_queue ev g)

-- `flags & mask`
abbrev pub has : ℕ → ℕ → Bool
has flags mask = not (bit_and flags mask == 0)

-- (SHORT)usButtonData / WHEEL_DELTA, rounded towards 0
abbrev pub wheel_steps : ℕ → ℕ → ℤ
wheel_steps amount delta =
    if ltb amount 32768 then pos (amount / delta) else neg (pos ((65536 - amount) / delta))

-- `ev` of the two branches
abbrev pub win_event : ℤ → ℤ → ℤ → ℤ → ℤ → NiEvent
win_event device ts type code value = record blank_event {
  device_id = device;
  timestamp_ns = ts;
  type = type;
  code = code;
  value = value;
}

-- `if (cond) { …; emit_or_queue(&ev); }`
abbrev pub when : Bool → NiEvent → List NiEvent
when b ev = if b then ev ∷ [] else []

-- the members of RAWMOUSE that say where the mouse went
unfoldable pub move_events : WinEnv → ℤ → ℤ → ℕ → ℤ → ℤ → List NiEvent
move_events e device ts flags x y =
    if has flags e.move_relative
    then when (nonzero x) (win_event device ts e.codes.ev_rel e.codes.rel_x x)
      ++ when (nonzero y) (win_event device ts e.codes.ev_rel e.codes.rel_y (neg y))
    else []

unfoldable pub button_events : WinEnv → ℤ → ℤ → ℕ → ℕ → List NiEvent
button_events e device ts buttons amount =
    let key : ℤ → ℤ → NiEvent = λ code value. win_event device ts e.codes.ev_key code value in
    when (has buttons e.left_down) (key e.codes.btn_left (pos 1))
    ++ (when (has buttons e.left_up) (key e.codes.btn_left (pos 0))
        ++ (when (has buttons e.right_down) (key e.codes.btn_right (pos 1))
            ++ (when (has buttons e.right_up) (key e.codes.btn_right (pos 0))
                ++ (when (has buttons e.middle_down) (key e.codes.btn_middle (pos 1))
                    ++ (when (has buttons e.middle_up) (key e.codes.btn_middle (pos 0))
                        ++ (when (has buttons e.button_4_down) (key e.codes.btn_side (pos 1))
                            ++ (when (has buttons e.button_4_up) (key e.codes.btn_side (pos 0))
                                ++ (when (has buttons e.button_5_down)
                                      (key e.codes.btn_extra (pos 1))
                                    ++ (when (has buttons e.button_5_up)
                                          (key e.codes.btn_extra (pos 0))
                                        ++ when (has buttons e.wheel) (
                                            win_event device ts e.codes.ev_rel e.codes.rel_wheel
                                              (wheel_steps amount e.wheel_delta)))))))))))

-- What `handle_rawinput` emits, in its order.
unfoldable pub raw_events : WinEnv → ℤ → RawInput → List NiEvent
unfolding move_events button_events
raw_events e ts (keyboard device make_code flags) =
    win_event device ts e.codes.ev_key (pos make_code) (of_Bool (not (has flags e.key_break))) ∷ []
raw_events e ts (mouse device flags x y buttons amount) =
    move_events e device ts flags x y
    ++ (if not (buttons == 0) then button_events e device ts buttons amount else [])
raw_events e ts hid = []

unfoldable pub handle_raw : WinEnv → Option RawInput → Win → Win
unfolding raw_events win_emit_all
handle_raw e none g = g
handle_raw e (some r) g = win_emit_all (raw_events e (e.clock g.trace) r) (log clock_read g)

unfoldable pub handle_rawinput : WinEnv → ℕ → Win → Win
unfolding handle_raw
handle_rawinput e handle g = handle_raw e (e.raw g.trace handle) g

-- The key event of a WM_CHAR goes to the key callback; without one it is dropped.
unfoldable pub handle_char : WinEnv → Option ℕ → ℕ → Win → Win
handle_char e none unit g = g
handle_char e (some f) unit g =
    let g' = log clock_read g in
    let kev : NiKeyEvent = record blank_key_event {
      device_id = minus_one;
      down = pos 1;
      timestamp_ns = e.clock g.trace;
      text = take 63 (e.utf8 g'.trace unit);
    } in
    log (key_called f g.key_cb_user kev) g'

unfoldable pub wndproc : WinEnv → Message → Win → Win
unfolding handle_rawinput handle_char
wndproc e (wm_input handle) g = handle_rawinput e handle g
wndproc e (wm_char unit) g = handle_char e g.key_cb unit g
wndproc e wm_destroy g = log quit_posted g
wndproc e (other msg) g = log (default_handled msg) g
