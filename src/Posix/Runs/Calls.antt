-- ===== src/Posix/Runs/Calls.antt =====
-- What the exported functions of src/libasyncinput_posix.c do to the two queues.
use asyncinput.Prelude.{
  ℕ, refl, List, [], ◌∷◌, true, false, not, ◌||◌, Option, none, some, if◌then◌else◌, arith, by_if,
}
use asyncinput.Prelude.Int.{ℤ, is_neg, nonzero, not_positive, pos_part}
use asyncinput.Event.{NiEvent, NiKeyEvent, blank_event, blank_key_event}
use asyncinput.Ring.{ring_size}
use asyncinput.Ring.Bounds.{ring_pop_many-IsValid}
use asyncinput.Posix.{spawned, closed, other_closed, Env, G, Trace, Device, zeroed, log}
use asyncinput.Posix.Devices.{live}
use asyncinput.Posix.Api.{
  start_inotify, default_names, start_threads, spawn_mice, fresh, scanned, start, ni_init,
  ni_register_callback, ni_poll, close_devices, join, shut_down, ni_register_key_callback,
  ni_poll_key_events, ni_enable_mice,
}
use asyncinput.Posix.Runs.Calm.{Calm, Calm-same, Calm-refl, Calm-trans, scan_devices-Calm}
use asyncinput.Posix.Runs.Rings.{HasRings, HasRings-Calm, zeroed-HasRings}

start_inotify-Calm : (e : Env) (g : G) → Calm g (start_inotify e g)
unfolding start_inotify
start_inotify-Calm e g = ground arith

spawn_mice-Calm : (e : Env) (g : G) → Calm g (spawn_mice e g).1
unfolding spawn_mice
spawn_mice-Calm e g = ground arith

start_threads-Calm : (e : Env) (t : Option ℕ) (g : G) → Calm g (start_threads e t g).1
unfolding start_threads
start_threads-Calm e none g = Calm-same g _ refl refl (λ h. h)
start_threads-Calm e (some t) g =
    let g' = log (spawned (some t)) (record g { thread = some t }) in
    let c : Calm g (if g'.mice_enabled then (spawn_mice e g').1 else g') =
      by_if (Calm g) g'.mice_enabled _ _
        (λ _. Calm-trans g g' _ (Calm-same g g' refl refl (λ h. h)) (spawn_mice-Calm e g'))
        (λ _. Calm-same g g' refl refl (λ h. h)) in
    Calm-same g _ c.queue c.key_queue (λ h. refl)

fresh-HasRings : (e : Env) (t : Trace) → HasRings (fresh e t)
unfolding fresh
fresh-HasRings e t =
    HasRings-Calm (zeroed t) _ (Calm-same (zeroed t) _ refl refl (λ h. h)) (zeroed-HasRings t)

scanned-HasRings : (e : Env) (t : Trace) → HasRings (scanned e t)
unfolding scanned
scanned-HasRings e t =
    let g = fresh e t in
    let c =
      Calm-trans g (start_inotify e g) _ (start_inotify-Calm e g)
        (scan_devices-Calm e (start_inotify e g)) in
    HasRings-Calm g _ (Calm-same g _ c.queue c.key_queue c.on) (fresh-HasRings e t)

start-HasRings : (e : Env) (g : G) → HasRings (start e g).1
unfolding start default_names
start-HasRings e g =
    by_if (λ (r : ℤ × G). HasRings r.1) (is_neg (e.epoll_create g.trace)) _ _
      (λ _. fresh-HasRings e g.trace)
      (λ _.
        by_if (λ (r : ℤ × G). HasRings r.1) e.have_xkb _ _
          (λ _.
            let s = scanned e g.trace in
            let named = default_names s in
            HasRings-Calm s _
              (Calm-trans s named _ (Calm-same s named refl refl (λ h. h))
                (start_threads-Calm e (e.pthread_create named.trace) named))
              (scanned-HasRings e g.trace))
          (λ _. scanned-HasRings e g.trace))

pub ni_init-HasRings : (e : Env) (flags : ℤ) (g : G) → HasRings g → HasRings (ni_init e flags g).1
unfolding ni_init
ni_init-HasRings e flags g h =
    by_if (λ (r : ℤ × G). HasRings r.1) (nonzero flags) _ _ (λ _. h)
      (λ _.
        by_if (λ (r : ℤ × G). HasRings r.1) g.initialized _ _ (λ _. h) (λ _. start-HasRings e g))

pub ni_poll-HasRings :
    (evts : Option (List NiEvent)) (max : ℤ) (g : G) → HasRings g → HasRings (ni_poll evts max g).2
unfolding ni_poll
ni_poll-HasRings none max g h = h
ni_poll-HasRings (some evts) max g h =
    by_if (λ (r : ℤ × Option (List NiEvent) × G). HasRings r.2)
      (not g.initialized || not_positive max) _ _ (λ _. h)
      (λ _. record {
        queue = ring_pop_many-IsValid ring_size blank_event g.queue evts (pos_part max) h.queue;
        key_queue = h.key_queue;
      })

pub ni_poll_key_events-HasRings :
    (evts : Option (List NiKeyEvent)) (max : ℤ) (g : G)
    → HasRings g
    → HasRings (ni_poll_key_events evts max g).2
unfolding ni_poll_key_events
ni_poll_key_events-HasRings none max g h = h
ni_poll_key_events-HasRings (some evts) max g h =
    by_if (λ (r : ℤ × Option (List NiKeyEvent) × G). HasRings r.2)
      (not g.initialized || not_positive max) _ _ (λ _. h)
      (λ _. record {
        queue = h.queue;
        key_queue =
            ring_pop_many-IsValid ring_size blank_key_event g.key_queue evts (pos_part max)
              h.key_queue;
      })

close_devices-Calm : (ds : List Device) (g : G) → Calm g (close_devices ds g)
unfolding close_devices
close_devices-Calm [] g = Calm-refl g
close_devices-Calm (d ∷ ds) g =
    let c = close_devices-Calm ds (log (closed d.fd) g) in Calm-same g _ c.queue c.key_queue c.on

join-Calm : (t : Option ℕ) (g : G) → Calm g (join t g)
join-Calm none g = Calm-refl g
join-Calm (some t) g = Calm-same g _ refl refl (λ h. h)

pub shut_down-Calm : (g : G) → Calm (record g { initialized = false }) (shut_down g)
unfolding shut_down
shut_down-Calm g =
    let g1 : G = record g { stop = true; mice_enabled = false } in
    let g2 = join g1.thread (join g1.mice_thread g1) in
    let g3 = close_devices (live g2) g2 in
    let g4 = if is_neg g3.inotify_fd then g3 else log (other_closed g3.inotify_fd) g3 in
    let c = Calm-trans g g1 g3 (Calm-same g g1 refl refl (λ h. h)) (
      Calm-trans g1 (join g1.mice_thread g1) g3 (join-Calm g1.mice_thread g1) (
        Calm-trans (join g1.mice_thread g1) g2 g3 (join-Calm g1.thread (join g1.mice_thread g1))
          (close_devices-Calm (live g2) g2))) in
    let d : Calm g g4 =
      by_if (Calm g) (is_neg g3.inotify_fd) _ _ (λ _. c)
        (λ _. Calm-same g _ c.queue c.key_queue c.on) in
    Calm-same (record g { initialized = false }) _ d.queue d.key_queue (λ h. h)

pub enable_mice-Calm : (e : Env) (enabled : ℤ) (g : G) → Calm g (ni_enable_mice e enabled g).1
unfolding ni_enable_mice spawn_mice
enable_mice-Calm e enabled g = ground arith

pub register_callback-Calm :
    (cb : Option ℕ) (user : ℕ) (flags : ℤ) (g : G) → Calm g (ni_register_callback cb user flags g).1
unfolding ni_register_callback
register_callback-Calm cb user flags g = ground arith

pub register_key_callback-Calm :
    (cb : Option ℕ) (user : ℕ) (flags : ℤ) (g : G)
    → Calm g (ni_register_key_callback cb user flags g).1
unfolding ni_register_key_callback
register_key_callback-Calm cb user flags g = ground arith
