-- ===== src/Sdl.antt =====
-- src/libasyncinput_stub.c, the backend on SDL3 for other platforms. SDL is a parameter. The fields `q`,
-- `head` and `tail` are the ring of Ring.antt.
pub mod Runs
mod Tests
use asyncinput.Prelude.{
  ℕ, ◌+◌, Bool, true, false, not, ◌||◌, List, [], ◌∷◌, ◌++◌, Option, none, some, ◌==◌,
  if◌then◌else◌,
}
use asyncinput.Prelude.Int.{ℤ, pos, neg, minus_one, nonzero, not_positive, pos_part, of_Bool}
use asyncinput.Event.{Codes, NiEvent, NiKeyEvent, blank_event}
use asyncinput.Posix.{RuleNames}
use asyncinput.Ring.{RingBuf, ring_size, ring_init, ring_push, ring_pop_many}

-- SDL_Event, the members that are read. The movements are floats in C, here cut to whole numbers as the
-- assignment to `ev.value` cuts them.
pub data SdlEvent : Type 0 where
  motion : (xrel yrel : ℤ) → SdlEvent
  wheel : (y : ℤ) → SdlEvent
  button : (down : Bool) (which : ℕ) → SdlEvent
  key : (down : Bool) (scancode : ℤ) → SdlEvent
  unread : SdlEvent

pub data SdlCall : Type 0 where
  called : ℕ → ℕ → NiEvent → SdlCall
  ticks_read : SdlCall
  inited : Bool → SdlCall
  quit : SdlCall
  thread_made : Option ℕ → SdlCall
  thread_waited : Option ℕ → SdlCall
  window_made : Bool → SdlCall
  window_destroyed : SdlCall

abbrev pub SdlTrace : Type 0
SdlTrace = List SdlCall

-- What SDL answers, and its button numbers. `sdl_init` is whether SDL_Init succeeds, which SDL3 reports
-- by the result `true`.
pub record SdlEnv : Type 0 where
  pub codes : Codes
  pub button_left : ℕ
  pub button_right : ℕ
  pub button_middle : ℕ
  pub ticks : SdlTrace → ℤ
  pub sdl_init : SdlTrace → Bool
  pub create_thread : SdlTrace → Option ℕ
  pub create_window : SdlTrace → Bool

-- The global `g` without the lock, and the trace.
pub record Sdl : Type 0 where
  pub initialized : Bool
  pub thread : Option ℕ
  pub stop : Bool
  pub queue : RingBuf NiEvent
  pub cb : Option ℕ
  pub cb_user : ℕ
  pub trace : SdlTrace

-- at the program's start
unfoldable pub sdl_zeroed : Sdl
sdl_zeroed = record {
  initialized = false;
  thread = none;
  stop = false;
  queue = ring_init ring_size blank_event;
  cb = none;
  cb_user = 0;
  trace = [];
}

abbrev pub log : SdlCall → Sdl → Sdl
log c g = record g { trace = c ∷ g.trace }

-- `if (g.cb) g.cb(&ev, g.cb_user); else queue_push(&ev);`
unfoldable pub sdl_emit_to : Option ℕ → NiEvent → Sdl → Sdl
sdl_emit_to (some f) ev g = log (called f g.cb_user ev) g
sdl_emit_to none ev g = record g { queue = ring_push ring_size blank_event g.queue ev }

unfoldable pub sdl_emit_all : List NiEvent → Sdl → Sdl
unfolding sdl_emit_to
sdl_emit_all [] g = g
sdl_emit_all (ev ∷ evs) g = sdl_emit_all evs (sdl_emit_to g.cb ev g)

abbrev pub sdl_event : ℤ → ℤ → ℤ → ℤ → NiEvent
sdl_event ts type code value = record blank_event {
  timestamp_ns = ts;
  type = type;
  code = code;
  value = value;
}

abbrev pub moved : ℤ → NiEvent → List NiEvent
moved amount ev = if nonzero amount then ev ∷ [] else []

-- the code of a button, if it has one
unfoldable pub button_code : SdlEnv → ℕ → Option ℤ
button_code e which =
    if which == e.button_left
    then some e.codes.btn_left
    else if which == e.button_right
    then some e.codes.btn_right
    else if which == e.button_middle
    then some e.codes.btn_middle
    else none

abbrev pub button_events : SdlEnv → ℤ → Bool → Option ℤ → List NiEvent
button_events e ts down none = []
button_events e ts down (some code) = sdl_event ts e.codes.ev_key code (of_Bool down) ∷ []

-- the `switch` of `sdl_worker`
unfoldable pub sdl_events : SdlEnv → ℤ → SdlEvent → List NiEvent
unfolding button_code
sdl_events e ts (motion x y) =
    moved x (sdl_event ts e.codes.ev_rel e.codes.rel_x x)
    ++ moved y (sdl_event ts e.codes.ev_rel e.codes.rel_y (neg y))
sdl_events e ts (wheel y) = moved y (sdl_event ts e.codes.ev_rel e.codes.rel_wheel y)
sdl_events e ts (button down which) = button_events e ts down (button_code e which)
sdl_events e ts (key down scancode) = sdl_event ts e.codes.ev_key scancode (of_Bool down) ∷ []
sdl_events e ts unread = []

-- `while (SDL_PollEvent(&e))`
unfoldable pub sdl_pump : SdlEnv → List SdlEvent → Sdl → Sdl
unfolding sdl_events sdl_emit_all
sdl_pump e [] g = g
sdl_pump e (ev ∷ evs) g =
    sdl_pump e evs (sdl_emit_all (sdl_events e (e.ticks g.trace) ev) (log ticks_read g))

-- `sdl_worker` before its loop, and a round of it, with whether it goes on
unfoldable pub sdl_start : SdlEnv → Sdl → Bool × Sdl
sdl_start e g = (e.create_window g.trace, log (window_made (e.create_window g.trace)) g)

unfoldable pub sdl_round : SdlEnv → List SdlEvent → Sdl → Bool × Sdl
unfolding sdl_pump
sdl_round e evs g = if g.stop then (false, log window_destroyed g) else (true, sdl_pump e evs g)

unfoldable pub sdl_started : Option ℕ → Sdl → ℤ × Sdl
sdl_started none g = (minus_one, log quit (log (thread_made none) (record g { thread = none })))
sdl_started (some t) g =
    (pos 0, log (thread_made (some t)) (record g { thread = some t; initialized = true }))

-- `g.stop = 0`, `g.head = g.tail = 0`
abbrev pub emptied : Sdl → Sdl
emptied g = record g { stop = false; queue = record g.queue { head = 0; tail = 0 } }

-- `if (SDL_Init(SDL_INIT_VIDEO) != 0) return -1;`
unfoldable pub sdl_ni_init : SdlEnv → ℤ → Sdl → ℤ × Sdl
unfolding sdl_started
sdl_ni_init e flags g =
    let result = of_Bool (e.sdl_init g.trace) in
    let g' = log (inited (e.sdl_init g.trace)) g in
    if nonzero flags
    then (minus_one, g)
    else if g.initialized
    then (pos 0, g)
    else if nonzero result
    then (minus_one, g')
    else sdl_started (e.create_thread g'.trace) (emptied g')

unfoldable pub sdl_register_callback : Option ℕ → ℕ → ℤ → Sdl → ℤ × Sdl
sdl_register_callback cb user_data flags g =
    if not g.initialized || nonzero flags
    then (minus_one, g)
    else (pos 0, record g { cb = cb; cb_user = user_data })

unfoldable pub sdl_poll : Option (List NiEvent) → ℤ → Sdl → ℤ × Option (List NiEvent) × Sdl
sdl_poll none max_events g = (minus_one, none, g)
sdl_poll (some evts) max_events g =
    let (n, queue, out) = ring_pop_many ring_size blank_event g.queue evts (pos_part max_events) in
    if not g.initialized || not_positive max_events
    then (minus_one, some evts, g)
    else (pos n, some out, record g { queue = queue })

unfoldable pub sdl_shutdown : Sdl → ℤ × Sdl
sdl_shutdown g = (
  pos 0,
  if g.initialized
      then record (log quit (log (thread_waited g.thread) (record g { stop = true }))) {
        initialized = false;
      }
      else g,
)

-- The functions that this backend has only in name: each returns a constant and leaves `g` alone.
unfoldable pub sdl_set_device_filter : Option ℕ → ℕ → Sdl → ℤ × Sdl
sdl_set_device_filter filter user_data g = (pos 0, g)

unfoldable pub sdl_device_count : Sdl → ℕ
sdl_device_count g = 1

unfoldable pub sdl_register_key_callback : Option ℕ → ℕ → ℤ → Sdl → ℤ × Sdl
sdl_register_key_callback cb user_data flags g = (minus_one, g)

unfoldable pub sdl_poll_key_events :
    Option (List NiKeyEvent) → ℤ → Sdl → ℤ × Option (List NiKeyEvent) × Sdl
sdl_poll_key_events evts max_events g = (minus_one, evts, g)

unfoldable pub sdl_enable_xkb : ℤ → Sdl → ℤ × Sdl
sdl_enable_xkb enabled g = (minus_one, g)

unfoldable pub sdl_set_xkb_names : RuleNames → Sdl → ℤ × Sdl
sdl_set_xkb_names names g = (minus_one, g)

unfoldable pub sdl_enable_mice : ℤ → Sdl → ℤ × Sdl
sdl_enable_mice enabled g = (pos 0, g)
