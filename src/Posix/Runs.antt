-- ===== src/Posix/Runs.antt =====
-- The runs of src/libasyncinput_posix.c: the calls of the application, the rounds of the worker thread and
-- those of the mice thread, in any order. Each exported function is one step, as is each round.
pub mod Calm
pub mod Kept
pub mod Threads
pub mod Objects
pub mod Table
pub mod Silent
pub mod Life
pub mod Rings
pub mod Calls
pub mod Safety
mod Tests
use asyncinput.Prelude.{ℕ, List, Option}
use asyncinput.Prelude.Int.{ℤ}
use asyncinput.Event.{NiEvent, NiKeyEvent}
use asyncinput.Posix.{Env, G, Trace, Pointer, RuleNames, zeroed}
use asyncinput.Posix.Keys.{ni_enable_xkb, ni_set_xkb_names}
use asyncinput.Posix.Mice.{Reader, ReadBytes, mice_start, mice_round}
use asyncinput.Posix.Worker.{Pending, worker_round}
use asyncinput.Posix.Api.{
  ni_init, ni_set_device_filter, ni_register_callback, ni_poll, ni_shutdown,
  ni_register_key_callback, ni_poll_key_events, ni_enable_mice,
}

pub data Step (e : Env) : G → G → Type 0 where
  init : (flags : ℤ) (g : G) → Step e g (ni_init e flags g).1
  set_device_filter :
      (f : Option ℕ) (user : ℕ) (g : G) → Step e g (ni_set_device_filter e f user g).1
  register_callback :
      (cb : Option ℕ) (user : ℕ) (flags : ℤ) (g : G)
      → Step e g (ni_register_callback cb user flags g).1
  poll : (evts : Option (List NiEvent)) (max : ℤ) (g : G) → Step e g (ni_poll evts max g).2
  shutdown : (g : G) → Step e g (ni_shutdown g).1
  register_key_callback :
      (cb : Option ℕ) (user : ℕ) (flags : ℤ) (g : G)
      → Step e g (ni_register_key_callback cb user flags g).1
  poll_key_events :
      (evts : Option (List NiKeyEvent)) (max : ℤ) (g : G)
      → Step e g (ni_poll_key_events evts max g).2
  enable_xkb : (enabled : ℤ) (g : G) → Step e g (ni_enable_xkb e enabled g).1
  set_xkb_names : (names : RuleNames) (g : G) → Step e g (ni_set_xkb_names e names g).1
  enable_mice : (enabled : ℤ) (g : G) → Step e g (ni_enable_mice e enabled g).1
  worker : (p : Pending) (ready : List Pointer) (g : G) → Step e g (worker_round e p ready g).1
  mice_begin : (g : G) → Step e g (mice_start e g).1
  mice : (r : ReadBytes) (m : Reader) (g : G) → Step e g (mice_round e r m g).2

-- from the zeroed state of the program's start
pub data Reachable (e : Env) : G → Type 0 where
  begin : (t : Trace) → Reachable e (zeroed t)
  next : (g s : G) → Reachable e g → Step e g s → Reachable e s
