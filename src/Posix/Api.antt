-- ===== src/Posix/Api.antt =====
-- The functions that src/libasyncinput_posix.c exports, but for those of the xkb layer. Each returns
-- its C result and the state after it.
pub mod Init
pub mod Lifecycle
pub mod Guards
mod Tests
use asyncinput.Prelude.{
  ℕ, Bool, true, false, not, ◌||◌, List, [], ◌∷◌, Option, none, some, if◌then◌else◌, take,
}
use asyncinput.Prelude.Int.{ℤ, pos, is_neg, minus_one, nonzero, not_positive, pos_part}
use asyncinput.Event.{NiEvent, NiKeyEvent, blank_event, blank_key_event}
use asyncinput.Ring.{RingBuf, ring_size, ring_pop_many}
use asyncinput.Ring.Copies.{keyring_pop_many}
use asyncinput.Posix.{
  Env, G, Trace, Device, zeroed, log, inotify, epoll_add, closed, other_opened, other_closed,
  watched, spawned, joined,
}
use asyncinput.Posix.Paths.{codes}
use asyncinput.Posix.Devices.{live, scan_devices, close_refused}

-- inotify for hotplug: a watch on /dev/input, and the descriptor in the epoll set
unfoldable pub start_inotify : Env → G → G
start_inotify e g =
    let fd = e.inotify_init g.trace in
    let g' = log (other_opened fd) (record g { inotify_fd = fd }) in
    if is_neg fd then g' else log (epoll_add fd inotify) (log (watched fd) g')

-- `if (!g.xkb_rules[0]) snprintf(g.xkb_rules, …)`
abbrev pub or_default : List ℕ → List ℕ → List ℕ
or_default d [] = d
or_default d (c ∷ cs) = c ∷ cs

unfoldable pub default_names : G → G
default_names g = record g {
  xkb_rules = or_default (codes "evdev") g.xkb_rules;
  xkb_model = or_default (codes "pc105") g.xkb_model;
  xkb_layout = or_default (codes "us") g.xkb_layout;
}

-- `pthread_create(&g.mice_thread, NULL, mice_worker, NULL)`; what a failure does with the flag
abbrev pub spawned_mice : Option ℕ → G → Bool × G
spawned_mice none g = (false, log (spawned none) (record g { mice_enabled = false }))
spawned_mice (some t) g = (true, log (spawned (some t)) (record g { mice_thread = some t }))

unfoldable pub spawn_mice : Env → G → Bool × G
spawn_mice e g = spawned_mice (e.pthread_create g.trace) g

-- The threads of `ni_init`. A mice thread that does not start is "non-fatal".
unfoldable pub start_threads : Env → Option ℕ → G → ℤ × G
unfolding spawn_mice
start_threads e none g = (minus_one, log (spawned none) g)
start_threads e (some t) g =
    let g' = log (spawned (some t)) (record g { thread = some t }) in
    let g'' = if g'.mice_enabled then (spawn_mice e g').1 else g' in
    (pos 0, record g'' { initialized = true })

-- After `memset` and `epoll_create1`.
unfoldable pub fresh : Env → Trace → G
fresh e t =
    let fd = e.epoll_create t in
    log (other_opened fd) (record (zeroed t) { epoll_fd = fd; mice_fd = minus_one })

-- After the scan, `g.stop = 0` and the default names.
unfoldable pub scanned : Env → Trace → G
scanned e t = record (scan_devices e (start_inotify e (fresh e t))) { stop = false }

-- `ni_init` behind its two early returns
unfoldable pub start : Env → G → ℤ × G
start e g =
    if is_neg (e.epoll_create g.trace)
    then (minus_one, fresh e g.trace)
    else if e.have_xkb
    then (let named = default_names (scanned e g.trace) in
        start_threads e (e.pthread_create named.trace) named)
    else (minus_one, scanned e g.trace)

unfoldable pub ni_init : Env → ℤ → G → ℤ × G
ni_init e flags g =
    if nonzero flags then (minus_one, g) else if g.initialized then (pos 0, g) else start e g

unfoldable pub ni_set_device_filter : Env → Option ℕ → ℕ → G → ℤ × G
unfolding close_refused scan_devices
ni_set_device_filter e filter user_data g =
    let g' = record g { filter = filter; filter_user = user_data } in
    (pos 0, if not g'.initialized then g' else scan_devices e (close_refused e g'.ndevi g'))

unfoldable pub ni_device_count : G → ℕ
ni_device_count g = g.ndevi

unfoldable pub ni_register_callback : Option ℕ → ℕ → ℤ → G → ℤ × G
ni_register_callback cb user_data flags g =
    if not g.initialized || nonzero flags
    then (minus_one, g)
    else (pos 0, record g { cb = cb; cb_user = user_data })

-- `evts` is the caller's array, or NULL. The result is beside the array after the call.
unfoldable pub ni_poll : Option (List NiEvent) → ℤ → G → ℤ × Option (List NiEvent) × G
ni_poll none max_events g = (minus_one, none, g)
ni_poll (some evts) max_events g =
    let (n, queue, out) = ring_pop_many ring_size blank_event g.queue evts (pos_part max_events) in
    if not g.initialized || not_positive max_events
    then (minus_one, some evts, g)
    else (pos n, some out, record g { queue = queue })

unfoldable pub ni_register_key_callback : Option ℕ → ℕ → ℤ → G → ℤ × G
ni_register_key_callback cb user_data flags g =
    if not g.initialized
    then (minus_one, g)
    else (pos 0, record g { key_cb = cb; key_cb_user = user_data })

unfoldable pub ni_poll_key_events :
    Option (List NiKeyEvent) → ℤ → G → ℤ × Option (List NiKeyEvent) × G
ni_poll_key_events none max_events g = (minus_one, none, g)
ni_poll_key_events (some evts) max_events g =
    let (n, queue, out) = keyring_pop_many g.key_queue evts (pos_part max_events) in
    if not g.initialized || not_positive max_events
    then (minus_one, some evts, g)
    else (pos n, some out, record g { key_queue = queue })

-- `if (thread) pthread_join(thread, NULL)`
abbrev pub join : Option ℕ → G → G
join none g = g
join (some t) g = log (joined t) g

-- the loop that closes the devices
unfoldable pub close_devices : List Device → G → G
close_devices [] g = g
close_devices (d ∷ ds) g = close_devices ds (log (closed d.fd) g)

unfoldable pub shut_down : G → G
unfolding close_devices
shut_down g =
    let g1 = record g { stop = true; mice_enabled = false } in
    let g2 = join g1.thread (join g1.mice_thread g1) in
    let g3 = close_devices (live g2) g2 in
    let g4 = if is_neg g3.inotify_fd then g3 else log (other_closed g3.inotify_fd) g3 in
    record (log (other_closed g4.epoll_fd) g4) { initialized = false }

unfoldable pub ni_shutdown : G → ℤ × G
unfolding shut_down
ni_shutdown g = (pos 0, if g.initialized then shut_down g else g)

-- A handle that is set counts as a running reader.
abbrev pub enable_reader : Env → Option ℕ → G → ℤ × G
enable_reader e (some t) g = (pos 0, g)
enable_reader e none g =
    let (fine, g') = spawn_mice e g in if fine then (pos 0, g') else (minus_one, g')

unfoldable pub ni_enable_mice : Env → ℤ → G → ℤ × G
unfolding spawn_mice
ni_enable_mice e enabled g =
    let g' = record g { mice_enabled = nonzero enabled } in
    if not g.initialized
    then (pos 0, g')
    else if nonzero enabled
    then enable_reader e g'.mice_thread g'
    else (pos 0, g')
