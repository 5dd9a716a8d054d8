-- ===== src/InputLib.antt =====
-- examples/input_lib.c and examples/input_lib.h: a small input library of its own, with a linked list
-- of devices, a ring of timed events, a reader thread and a callback. What lies outside (memory, the
-- kernel, threads, the clock, the callback) is a parameter.
pub mod Threads
pub mod Owned
pub mod Adding
pub mod Destroy
pub mod Joined
pub mod Reading
pub mod Delivery
pub mod Session
mod Tests
use asyncinput.Prelude.{
  ℕ, zero, suc, ◌+◌, ◌*◌, Bool, true, false, List, [], ◌∷◌, Option, none, some, ◌==◌, if◌then◌else◌,
}
use asyncinput.Prelude.Int.{ℤ, pos, is_neg, minus_one}
use asyncinput.Ring.{RingBuf, ring_init, ring_push, ring_pop_many}

-- `input_event_t`
pub record PlainEvent : Type 0 where
  pub time_sec : ℕ
  pub time_usec : ℕ
  pub type : ℕ
  pub code : ℕ
  pub value : ℤ

-- `event_timing_t`
pub record Timing : Type 0 where
  pub send_time_ns : ℕ
  pub receive_time_ns : ℕ
  pub callback_time_ns : ℕ
  pub latency_ns : ℕ

-- `event_with_timing_t`
pub record TimedEvent : Type 0 where
  pub event : PlainEvent
  pub timing : Timing

abbrev pub no_timing : Timing
no_timing = record { send_time_ns = 0; receive_time_ns = 0; callback_time_ns = 0; latency_ns = 0 }

abbrev pub blank_timed : TimedEvent
blank_timed = record {
  event = record { time_sec = 0; time_usec = 0; type = 0; code = 0; value = pos 0 };
  timing = no_timing;
}

-- BUFFER_SIZE
abbrev pub buffer_size : ℕ
buffer_size = 1000

-- `input_device_t`. An address is a number, NULL is 0; `path` is NULL where `strdup` fails.
pub record Node : Type 0 where
  pub fd : ℤ
  pub path : Option ℕ
  pub next : ℕ

-- The calls that leave the file. A node is an `input_device_t`.
pub data LibCall : Type 0 where
  lib_made : Bool → LibCall
  lib_freed : LibCall
  buffer_made : Bool → LibCall
  buffer_freed : LibCall
  epoll_made : ℤ → LibCall
  epoll_closed : ℤ → LibCall
  opened : List ℕ → ℤ → LibCall
  closed : ℤ → LibCall
  node_made : Option ℕ → LibCall
  node_freed : ℕ → LibCall
  path_made : Option ℕ → LibCall
  path_freed : Option ℕ → LibCall
  epoll_added : ℤ → ℕ → LibCall
  thread_made : Option ℕ → LibCall
  joined : ℕ → LibCall
  clock_read : LibCall
  called : ℕ → ℕ → PlainEvent → Timing → LibCall

-- the calls so far, the last one first
abbrev pub LibTrace : Type 0
LibTrace = List LibCall

pub record LibEnv : Type 0 where
  pub calloc_lib : LibTrace → Bool
  pub calloc_buffer : LibTrace → Bool
  pub epoll_create : LibTrace → ℤ
  pub open_path : LibTrace → List ℕ → ℤ
  pub calloc_node : LibTrace → Option ℕ
  pub strdup : LibTrace → List ℕ → Option ℕ
  pub create_thread : LibTrace → Option ℕ
  -- CLOCK_MONOTONIC: seconds and nanoseconds
  pub clock : LibTrace → ℕ × ℕ

-- `input_lib_t`, the nodes on the heap, and the trace. The mutexes have no field.
pub record InputLib : Type 0 where
  pub devices : ℕ
  pub buffer : RingBuf TimedEvent
  pub worker_callback : Option ℕ
  pub worker_userdata : ℕ
  pub worker_thread : Option ℕ
  pub reader_thread : Option ℕ
  pub stop_flag : Bool
  pub epoll_fd : ℤ
  pub nodes : ℕ → Option Node
  pub trace : LibTrace

abbrev pub log : LibCall → InputLib → InputLib
log c l = record l { trace = c ∷ l.trace }

-- the heap with another content at one address
abbrev pub write : (ℕ → Option Node) → ℕ → Option Node → ℕ → Option Node
write h p n q = if p == q then n else h q

-- `input_lib_create` behind its allocations: the trace is that of the calls before `epoll_create1`.
unfoldable pub with_epoll : LibTrace → ℤ → Option InputLib × LibTrace
with_epoll t fd =
    let t' = epoll_made fd ∷ t in
    if is_neg fd then (none, lib_freed ∷ buffer_freed ∷ t') else (
      some (record {
        devices = 0;
        buffer = ring_init buffer_size blank_timed;
        worker_callback = none;
        worker_userdata = 0;
        worker_thread = none;
        reader_thread = none;
        stop_flag = false;
        epoll_fd = fd;
        nodes = λ p. none;
        trace = t';
      }),
      t',
    )

unfoldable pub with_buffer : LibEnv → LibTrace → Bool → Option InputLib × LibTrace
unfolding with_epoll
with_buffer e t false = (none, lib_freed ∷ buffer_made false ∷ t)
with_buffer e t true = let t' = buffer_made true ∷ t in with_epoll t' (e.epoll_create t')

unfoldable pub with_lib : LibEnv → LibTrace → Bool → Option InputLib × LibTrace
unfolding with_buffer
with_lib e t false = (none, lib_made false ∷ t)
with_lib e t true = let t' = lib_made true ∷ t in with_buffer e t' (e.calloc_buffer t')

unfoldable pub input_lib_create : LibEnv → LibTrace → Option InputLib × LibTrace
unfolding with_lib
input_lib_create e t = with_lib e t (e.calloc_lib t)

-- The node is at hand: it becomes the head of the list.
unfoldable pub link : LibEnv → List ℕ → ℤ → ℕ → InputLib → ℤ × InputLib
link e path fd p l =
    let copy = e.strdup l.trace path in
    let l' = log (path_made copy) l in
    let node : Node = record { fd = fd; path = copy; next = l.devices } in
    (
      pos 0,
      log (epoll_added fd p) (record l' { devices = p; nodes = write l'.nodes p (some node) }),
    )

unfoldable pub add_opened : LibEnv → List ℕ → ℤ → Option ℕ → InputLib → ℤ × InputLib
unfolding link
add_opened e path fd none l = (minus_one, log (closed fd) (log (node_made none) l))
add_opened e path fd (some p) l = link e path fd p (log (node_made (some p)) l)

unfoldable pub input_lib_add_device : LibEnv → List ℕ → InputLib → ℤ × InputLib
unfolding add_opened
input_lib_add_device e path l =
    let fd = e.open_path l.trace path in
    let l' = log (opened path fd) l in
    if is_neg fd then (minus_one, l') else add_opened e path fd (e.calloc_node l'.trace) l'

unfoldable pub input_lib_start_reading : LibEnv → InputLib → InputLib
input_lib_start_reading e l =
    log (thread_made (e.create_thread l.trace))
      (record l { reader_thread = e.create_thread l.trace })

unfoldable pub input_lib_set_worker_callback : Option ℕ → ℕ → InputLib → InputLib
input_lib_set_worker_callback callback userdata l = record l {
  worker_callback = callback;
  worker_userdata = userdata;
}

unfoldable pub input_lib_stop : InputLib → InputLib
input_lib_stop l = record l { stop_flag = true }

unfoldable pub input_lib_poll_events :
    InputLib → List TimedEvent → ℕ → ℕ × List TimedEvent × InputLib
input_lib_poll_events l events max_events =
    let (n, buffer, out) = ring_pop_many buffer_size blank_timed l.buffer events max_events in
    (n, out, record l { buffer = buffer })
