-- ===== src/Win/Steps.antt =====
-- The runs of src/libasyncinput_win.c: the calls of the application and the rounds of the worker thread, in
-- any order. A call of an exported function is one step, as is a message that the worker dispatches.
use asyncinput.Prelude.{ℕ, ◌≡◌, refl, sym, subst, ◌∙◌, List, [], ◌∷◌, Option, none, some, arith}
use asyncinput.Prelude.Int.{ℤ}
use asyncinput.Event.{NiEvent, NiKeyEvent, blank_event, blank_key_event}
use asyncinput.Ring.{ring_size, ring_init}
use asyncinput.Ring.Bounds.{IsValid, ring_init-IsValid, ring_push-IsValid}
use asyncinput.Win.{
  Win, WinEnv, WinTrace, Message, wm_input, wm_char, wm_destroy, other, RawInput, win_zeroed,
  wndproc, handle_rawinput, handle_raw, handle_char, raw_events, win_emit_all, win_emit_or_queue,
  win_emit_to, log, clock_read,
}
use asyncinput.Win.Api.{
  win_init, win_set_device_filter, win_register_callback, win_poll, win_shutdown,
  win_register_key_callback, win_poll_key_events, worker_start, win_round, dispatch_all,
}

pub data Step (e : WinEnv) : Win → Win → Type 0 where
  init : (flags : ℤ) (g : Win) → Step e g (win_init e flags g).1
  set_device_filter :
      (f : Option ℕ) (user : ℕ) (g : Win) → Step e g (win_set_device_filter f user g).1
  register_callback :
      (cb : Option ℕ) (user : ℕ) (flags : ℤ) (g : Win)
      → Step e g (win_register_callback cb user flags g).1
  poll : (evts : Option (List NiEvent)) (max : ℤ) (g : Win) → Step e g (win_poll evts max g).2
  shutdown : (g : Win) → Step e g (win_shutdown g).1
  register_key_callback :
      (cb : Option ℕ) (user : ℕ) (flags : ℤ) (g : Win)
      → Step e g (win_register_key_callback cb user flags g).1
  poll_key_events :
      (evts : Option (List NiKeyEvent)) (max : ℤ) (g : Win)
      → Step e g (win_poll_key_events evts max g).2
  start : (g : Win) → Step e g (worker_start e g).1
  round : (ms : List Message) (g : Win) → Step e g (win_round e ms g).1
  dispatch : (m : Message) (g : Win) → Step e g (wndproc e m g)

-- from the zeroed state of the program's start
pub data Reachable (e : WinEnv) : Win → Type 0 where
  begin : (t : WinTrace) → Reachable e (win_zeroed t)
  next : (g s : Win) → Reachable e g → Step e g s → Reachable e s

-- The event queue is valid and the key queue is as `keyring_init` leaves it.
pub record IsSafe (g : Win) : Type 0 where
  pub queue : IsValid ring_size g.queue
  pub key_queue : g.key_queue ≡ ring_init ring_size blank_key_event

pub IsSafe-same : (g s : Win) → s.queue ≡ g.queue → s.key_queue ≡ g.key_queue → IsSafe g → IsSafe s
IsSafe-same g s q k safe = record {
  queue = subst (IsValid ring_size) (sym q) safe.queue;
  key_queue = k ∙ safe.key_queue;
}

pub zeroed-IsSafe : (t : WinTrace) → IsSafe (win_zeroed t)
unfolding win_zeroed
zeroed-IsSafe t = record {
  queue = ring_init-IsValid ring_size blank_event (omega arith);
  key_queue = refl;
}

emit_to-IsSafe : (cb : Option ℕ) (ev : NiEvent) (g : Win) → IsSafe g → IsSafe (win_emit_to cb ev g)
unfolding win_emit_to
emit_to-IsSafe (some f) ev g safe = IsSafe-same g _ refl refl safe
emit_to-IsSafe none ev g safe = record {
  queue = ring_push-IsValid ring_size blank_event g.queue ev safe.queue;
  key_queue = safe.key_queue;
}

emit_all-IsSafe : (evs : List NiEvent) (g : Win) → IsSafe g → IsSafe (win_emit_all evs g)
unfolding win_emit_all win_emit_or_queue
emit_all-IsSafe [] g safe = safe
emit_all-IsSafe (ev ∷ evs) g safe =
    emit_all-IsSafe evs (win_emit_to g.cb ev g) (emit_to-IsSafe g.cb ev g safe)

raw-IsSafe : (e : WinEnv) (r : Option RawInput) (g : Win) → IsSafe g → IsSafe (handle_raw e r g)
unfolding handle_raw
raw-IsSafe e none g safe = safe
raw-IsSafe e (some r) g safe =
    emit_all-IsSafe (raw_events e (e.clock g.trace) r) (log clock_read g)
      (IsSafe-same g (log clock_read g) refl refl safe)

char-IsSafe :
    (e : WinEnv) (cb : Option ℕ) (unit : ℕ) (g : Win) → IsSafe g → IsSafe (handle_char e cb unit g)
unfolding handle_char
char-IsSafe e none unit g safe = safe
char-IsSafe e (some f) unit g safe = IsSafe-same g _ refl refl safe

pub wndproc-IsSafe : (e : WinEnv) (m : Message) (g : Win) → IsSafe g → IsSafe (wndproc e m g)
unfolding wndproc handle_rawinput
wndproc-IsSafe e (wm_input h) g safe = raw-IsSafe e (e.raw g.trace h) g safe
wndproc-IsSafe e (wm_char unit) g safe = char-IsSafe e g.key_cb unit g safe
wndproc-IsSafe e wm_destroy g safe = IsSafe-same g _ refl refl safe
wndproc-IsSafe e (other m) g safe = IsSafe-same g _ refl refl safe

pub dispatch_all-IsSafe :
    (e : WinEnv) (ms : List Message) (g : Win) → IsSafe g → IsSafe (dispatch_all e ms g)
unfolding dispatch_all
dispatch_all-IsSafe e [] g safe = safe
dispatch_all-IsSafe e (m ∷ ms) g safe =
    dispatch_all-IsSafe e ms (wndproc e m g) (wndproc-IsSafe e m g safe)
