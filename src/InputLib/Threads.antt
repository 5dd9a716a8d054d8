-- ===== src/InputLib/Threads.antt =====
-- The reader thread of examples/input_lib.c, and the teardown of the library.
use mathlib.Core.Option
use asyncinput.Prelude.{
  if◌then◌else◌, ℕ, zero, suc, ◌+◌, ◌-◌, ◌*◌, ◌%◌, ◌^◌, true, List, [], ◌∷◌, Option, none, some,
}
use asyncinput.Prelude.Int.{ℤ, pos, negsuc}
use asyncinput.Ring.{ring_push}
use asyncinput.Posix.Worker.{InputEvent, ReadResult, event, error, short}
use asyncinput.InputLib.{
  PlainEvent, TimedEvent, no_timing, blank_timed, buffer_size, Node, LibTrace, LibEnv, InputLib,
  log, write, clock_read, called, joined, closed, path_freed, node_freed, epoll_closed,
  buffer_freed, lib_freed,
}

-- (uint64_t)v
abbrev pub to_uint64 : ℤ → ℕ
to_uint64 (pos n) = n % 2 ^ 64
to_uint64 (negsuc n) = 2 ^ 64 - 1 - n % 2 ^ 64

unfoldable pub get_time_ns : LibEnv → InputLib → ℕ × InputLib
get_time_ns e l =
    let (tv_sec, tv_nsec) = e.clock l.trace in
    ((tv_sec * 1000000000 + tv_nsec) % 2 ^ 64, log clock_read l)

abbrev pub plain : InputEvent → PlainEvent
plain raw = record {
  time_sec = to_uint64 raw.tv_sec;
  time_usec = to_uint64 raw.tv_usec;
  type = raw.type;
  code = raw.code;
  value = raw.value;
}

-- `evt` after the clock is read
abbrev pub timed : InputEvent → ℕ → TimedEvent
timed raw receive_time = record {
  event = plain raw;
  timing = record no_timing { receive_time_ns = receive_time; latency_ns = receive_time };
}

-- The callback, between two readings of the clock. Their difference goes into the local `evt`, which
-- nothing reads afterwards.
unfoldable pub notify : LibEnv → Option ℕ → TimedEvent → InputLib → InputLib
unfolding get_time_ns
notify e none evt l = l
notify e (some f) evt l =
    let (callback_start, l1) = get_time_ns e l in
    let l2 = log (called f l1.worker_userdata evt.event evt.timing) l1 in (get_time_ns e l2).1

-- the body of the inner loop of `reader_thread`
unfoldable pub receive : LibEnv → InputEvent → InputLib → InputLib
unfolding get_time_ns notify
receive e raw l =
    let (receive_time, l1) = get_time_ns e l in
    let evt = timed raw receive_time in
    let l2 = record l1 { buffer = ring_push buffer_size blank_timed l1.buffer evt } in
    notify e l2.worker_callback evt l2

-- `while (read(…) == sizeof(raw_event))`
unfoldable pub receive_all : LibEnv → List ReadResult → InputLib → InputLib
unfolding receive
receive_all e [] l = l
receive_all e (event raw ∷ rs) l = receive_all e rs (receive e raw l)
receive_all e (error ∷ rs) l = l
receive_all e (short ∷ rs) l = l

-- `dev->fd` of the pointer that epoll gives; `none` is a dangling pointer.
abbrev pub read_node : LibEnv → (ℤ → List ReadResult) → Option Node → InputLib → Option InputLib
read_node e of_fd none l = none
read_node e of_fd (some n) l = some (receive_all e (of_fd n.fd) l)

-- one batch of `epoll_wait`; `of_fd` is what waits to be read of each descriptor
unfoldable pub reader_batch : LibEnv → (ℤ → List ReadResult) → List ℕ → InputLib → Option InputLib
unfolding receive_all
reader_batch e of_fd [] l = some l
reader_batch e of_fd (dev ∷ devs) l =
    Option.bind (read_node e of_fd (l.nodes dev) l) (reader_batch e of_fd devs)

-- What one `epoll_wait` gives: the pointers, and what waits to be read of each descriptor. An error or a
-- timeout gives no pointer.
pub record Batch : Type 0 where
  pub of_fd : ℤ → List ReadResult
  pub devs : List ℕ

-- The thread, for as many rounds as there are batches. Between two rounds others may run.
unfoldable pub reader_thread : LibEnv → List Batch → InputLib → Option InputLib
unfolding reader_batch
reader_thread e [] l = some l
reader_thread e (b ∷ bs) l =
    if l.stop_flag
    then some l
    else Option.bind (reader_batch e b.of_fd b.devs l) (reader_thread e bs)

-- `if (thread) pthread_join(thread, NULL)`
abbrev pub join : Option ℕ → InputLib → InputLib
join none l = l
join (some t) l = log (joined t) l

-- `close(dev->fd); free(dev->path); free(dev);`
abbrev pub free_node : ℕ → Node → InputLib → InputLib
free_node p n l =
    log (node_freed p)
      (log (path_freed n.path) (log (closed n.fd) (record l { nodes = write l.nodes p none })))

abbrev pub free_next :
    (ℕ → InputLib → Option InputLib) → ℕ → Option Node → InputLib → Option InputLib
free_next continue p none l = none
free_next continue p (some n) l = continue n.next (free_node p n l)

-- `while (dev)`, with fuel. `none` is a pointer to no node, or that the fuel ran out.
unfoldable pub free_nodes : ℕ → ℕ → InputLib → Option InputLib
free_nodes fuel zero l = some l
free_nodes zero (suc p) l = none
free_nodes (suc fuel) (suc p) l = free_next (free_nodes fuel) (suc p) (l.nodes (suc p)) l

-- after the loop
abbrev pub finish : InputLib → LibTrace
finish l = lib_freed ∷ buffer_freed ∷ epoll_closed l.epoll_fd ∷ l.trace

-- What it leaves is the trace, for the library itself is freed.
unfoldable pub input_lib_destroy : ℕ → InputLib → Option LibTrace
unfolding free_nodes
input_lib_destroy fuel l =
    let l1 = join l.reader_thread (record l { stop_flag = true }) in
    let l2 = join l1.worker_thread l1 in Option.map finish (free_nodes fuel l2.devices l2)
