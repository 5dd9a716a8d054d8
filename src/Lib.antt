-- ===== src/Lib.antt =====
-- asyncinput: a library that reads input devices on a thread of its own and hands the events to an
-- application, by a callback or by a queue that the application polls.
--
-- The Linux backend, src/libasyncinput_posix.c, has a global state `g`, a worker thread that waits for the
-- event devices and for inotify by epoll, a second thread for /dev/input/mice, and the exported functions
-- of include/asyncinput.h. The parts and their files:
--   Event: the structs and inline predicates of include/asyncinput.h; Event/Keys its fallback key codes,
--     Event/Scancodes those it takes from SDL.
--   Ring: `struct ringbuf` with ring_init, ring_push and ring_pop_many. Ring/Fifo is the queue they stand
--     for. Ring/Copies: `struct keyringbuf` with the keyring_ functions, which differ in the event type
--     only, and both rings of src/libasyncinput_win.c.
--   Posix: `struct device`, `g`, emit_or_queue, now_ns. A function of the C file is a function from `G` to
--     `G`, or to its C result and `G`.
--   Posix/Paths: device ids read off paths.
--   Posix/Devices: the device table: opening, adding, removing, scanning, inotify, closing by filter.
--   Posix/Mice: mice_worker. Posix/Keys: the xkb layer. Posix/Worker: worker.
--   Posix/Api: ni_init, ni_shutdown and the other exported functions.
--   Posix/Runs: the calls and the rounds of both threads in any order. Posix/Runs/Life: what happens
--     between ni_init and ni_shutdown.
--   Posix/Quiet: what leaves the device table alone. Posix/Sample: a concrete outside, for the Tests.
--
-- The Windows backend, src/libasyncinput_win.c, has a global `g` and a worker thread with a hidden window:
--   Win: its state, the translation of Raw Input and the window procedure. Win/Api: the worker and the
--     exported functions, with the prefix win_. Win/Steps: its runs.
--
-- The backend on SDL3, src/libasyncinput_stub.c: Sdl, and its runs in Sdl/Runs.
--
-- examples/input_lib.c, a small library of its own: InputLib, with the reader thread and the teardown in
-- InputLib/Threads. Its nodes stand on a heap, its ring is that of Ring.
--   InputLib/Owned: the chain of nodes and the account of memory and descriptors, InputLib/Joined that of
--     threads. InputLib/Session: its runs.
--
-- The programs of examples: Apps. Apps/Mask is the compare-and-exchange loop of sdl3_asyncinput.c,
-- mouse_demo.c and hotplug_mouse_wait.c as moves of threads on one atomic, Apps/Mouse the callbacks that
-- count movements, Apps/Game that of sdl3_asyncinput.c, Apps/Latency the statistics of callback_demo.c,
-- benchmark_asyncinput.c and read_keys.c. Apps/Generator is the thread that writes reports to a virtual
-- device in callback_demo.c, benchmark_asyncinput.c and sdl3_demo.c, Apps/Uinput the making of the device.
-- Apps/Programs is `main` of the programs that use the library, Apps/Demo and Apps/Window are `SDL_AppInit`
-- and `SDL_AppQuit` of sdl3_demo.c and of sdl3_asyncinput.c; what the library does while they wait is any
-- sequence of its steps. Apps/Detect is the device filter of hotplug_mouse_wait.c, Apps/Handlers the handlers
-- of device_specific_demo.c. The event and key codes that they test are parameters; IsApart
-- says that the codes of the movements differ.
--
-- What lies outside is a parameter: `Env` answers each call of the kernel, of pthread, of libxkbcommon and
-- of the application's filter, and may answer from all calls made before, which `G` holds as its trace. The
-- values of the kernel's event codes are part of it. Of `open`, `Epoll.IsFresh` says that a descriptor it
-- returns is not registered with epoll, where every `close` ends a registration; that `epoll_ctl` refuses only
-- a descriptor that is registered is part of `Epoll.target`. Nothing else is assumed of the outside of that
-- backend. A device registered behind the array of 128 devices would overwrite what stands behind it, which
-- the model does not show: the theorems on whole runs that this could break say so, by `Quiet.fits`. `WinEnv`
-- is the same for Win32, with the masks of its header; that MOUSE_MOVE_RELATIVE is 0 is the hypothesis of
-- one theorem. `SdlEnv` is the same for SDL. `LibEnv` is the same for examples/input_lib.c;
-- `IsAllocator` says that `calloc` gives blocks that are not NULL and not in use. `GenEnv` has the clocks
-- and the sleep of the generators; `IsClock` says that the monotonic clock never goes back and that a sleep
-- until a time lasts until then. `AppEnv` is the system of the programs; that threads start is the hypothesis
-- of two theorems, and a join of a handle that nothing has set, which is undefined, is marked in the trace. `DetectEnv` is the kernel for the device filter; `IsFilled` says that its answers have the
-- sizes that were asked for.
--
-- Locks have no field. A call that takes one is a step that runs whole, and a thread is a function for one
-- round of its loop; what it finds to be read is an argument. Callbacks are calls in the trace.
--
-- Numbers are natural numbers or integers; the id of a device and a time are unbounded, the keycode of xkb
-- and the counters of movement wrap at 32 bits, the times of examples/input_lib.c at 64. Fuel bounds two
-- loops: that of input_lib_destroy over the list of nodes, for which the length of the list is enough, and
-- that of a generator, for which one more than the periods of its rate from its start to its end is
-- enough; the generator's `int` counter ends the model's loop when it would overflow. The other loops
-- run over the list of what is read, over the table, over the 128 paths of a scan, or, in ring_pop_many, over
-- the rounds that its bound allows.
--
-- Not modelled: the macros that rename the kernel's key codes, a generated table; of the programs in examples
-- formatting, drawing, the statistics in floating point and the command lines, and the main function of
-- examples/benchmark.c; examples/minimal_sdl3.c and examples/sdl3_clear.c, which only draw.
pub mod Prelude
pub mod Ring
pub mod Event
pub mod Posix
pub mod Win
pub mod Sdl
pub mod InputLib
pub mod Apps
