-- ===== src/Posix/Runs/Objects.antt =====
-- The objects of libxkbcommon over whole runs of src/libasyncinput_posix.c.
use asyncinput.Prelude.{
  ℕ, ◌≡◌, ◌⊎◌, inl, inr, refl, sym, ◌∙◌, List, [], ◌∷◌, true, false, not, ◌||◌, Option, none, some,
  if◌then◌else◌, arith, by_if,
}
use asyncinput.Prelude.Int.{ℤ, is_neg, nonzero, not_positive}
use asyncinput.Event.{NiEvent, NiKeyEvent}
use asyncinput.Posix.{
  Env, G, Trace, Device, context, keymap, state, zeroed, log, spawned, closed, other_closed,
}
use asyncinput.Posix.Quiet.{fits}
use asyncinput.Posix.Devices.{live}
use asyncinput.Posix.Keys.Objects.{IsOwned, ni_enable_xkb-IsOwned, ni_set_xkb_names-IsOwned}
use asyncinput.Posix.Api.{
  start_inotify, default_names, start_threads, spawn_mice, fresh, scanned, start, ni_init,
  ni_register_callback, ni_poll, close_devices, join, shut_down, ni_shutdown,
  ni_register_key_callback, ni_poll_key_events, ni_enable_mice,
}
use asyncinput.Posix.Runs.Kept.{
  Kept, Kept-same, Kept-refl, Kept-trans, scan_devices-Kept, filter-Kept,
}
use asyncinput.Posix.Runs.Threads.{worker_round-Kept, mice_start-Kept, mice_round-Kept}
use asyncinput.Posix.Runs.{
  Step, init, set_device_filter, register_callback, poll, shutdown, register_key_callback,
  poll_key_events, enable_xkb, set_xkb_names, enable_mice, worker, mice_begin, mice,
}

start_inotify-Kept : (e : Env) (g : G) → Kept g (start_inotify e g)
unfolding start_inotify
start_inotify-Kept e g = record {
  ctx = ground arith;
  km = ground arith;
  st = ground arith;
  made_same = λ k x. ground arith;
  freed_same = λ k x. ground arith;
  on = λ h. ground arith;
}

spawn_mice-Kept : (e : Env) (g : G) → Kept g (spawn_mice e g).1
unfolding spawn_mice
spawn_mice-Kept e g = record {
  ctx = ground arith;
  km = ground arith;
  st = ground arith;
  made_same = λ k x. ground arith;
  freed_same = λ k x. ground arith;
  on = λ h. ground arith;
}

start_threads-Kept : (e : Env) (t : Option ℕ) (g : G) → Kept g (start_threads e t g).1
unfolding start_threads
start_threads-Kept e none g = Kept-same g _ refl refl refl (λ k x. refl) (λ k x. refl) (λ h. h)
start_threads-Kept e (some t) g =
    let g' = log (spawned (some t)) (record g { thread = some t }) in
    let c : Kept g (if g'.mice_enabled then (spawn_mice e g').1 else g') =
      by_if (Kept g) g'.mice_enabled _ _
        (λ _.
          Kept-trans g g' _ (Kept-same g g' refl refl refl (λ k x. refl) (λ k x. refl) (λ h. h))
            (spawn_mice-Kept e g'))
        (λ _. Kept-same g g' refl refl refl (λ k x. refl) (λ k x. refl) (λ h. h)) in
    Kept-same g _ c.ctx c.km c.st c.made_same c.freed_same (λ h. refl)

scanned-Kept : (e : Env) (t : Trace) → Kept (zeroed t) (scanned e t)
unfolding scanned fresh
scanned-Kept e t =
    let g = fresh e t in
    let c =
      Kept-trans (zeroed t) g _
        (Kept-same (zeroed t) g refl refl refl (λ k x. refl) (λ k x. refl) (λ h. h))
        (Kept-trans g (start_inotify e g) _ (start_inotify-Kept e g)
          (scan_devices-Kept e (start_inotify e g))) in
    Kept-same (zeroed t) _ c.ctx c.km c.st c.made_same c.freed_same c.on

start-Kept : (e : Env) (g : G) → Kept (zeroed g.trace) (start e g).1
unfolding start default_names fresh
start-Kept e g =
    by_if (λ (r : ℤ × G). Kept (zeroed g.trace) r.1) (is_neg (e.epoll_create g.trace)) _ _
      (λ _. Kept-same (zeroed g.trace) _ refl refl refl (λ k x. refl) (λ k x. refl) (λ h. h))
      (λ _.
        by_if (λ (r : ℤ × G). Kept (zeroed g.trace) r.1) e.have_xkb _ _
          (λ _.
            let s = scanned e g.trace in
            let named = default_names s in
            Kept-trans (zeroed g.trace) s _ (scanned-Kept e g.trace) (
              Kept-trans s named _
                (Kept-same s named refl refl refl (λ k x. refl) (λ k x. refl) (λ h. h))
                (start_threads-Kept e (e.pthread_create named.trace) named)))
          (λ _. scanned-Kept e g.trace))

pub ni_poll-Kept : (evts : Option (List NiEvent)) (max : ℤ) (g : G) → Kept g (ni_poll evts max g).2
unfolding ni_poll
ni_poll-Kept none max g = Kept-refl g
ni_poll-Kept (some evts) max g =
    by_if (λ (r : ℤ × Option (List NiEvent) × G). Kept g r.2)
      (not g.initialized || not_positive max) _ _ (λ _. Kept-refl g)
      (λ _. Kept-same g _ refl refl refl (λ k x. refl) (λ k x. refl) (λ h. h))

pub ni_poll_key_events-Kept :
    (evts : Option (List NiKeyEvent)) (max : ℤ) (g : G) → Kept g (ni_poll_key_events evts max g).2
unfolding ni_poll_key_events
ni_poll_key_events-Kept none max g = Kept-refl g
ni_poll_key_events-Kept (some evts) max g =
    by_if (λ (r : ℤ × Option (List NiKeyEvent) × G). Kept g r.2)
      (not g.initialized || not_positive max) _ _ (λ _. Kept-refl g)
      (λ _. Kept-same g _ refl refl refl (λ k x. refl) (λ k x. refl) (λ h. h))

close_devices-Kept : (ds : List Device) (g : G) → Kept g (close_devices ds g)
unfolding close_devices
close_devices-Kept [] g = Kept-refl g
close_devices-Kept (d ∷ ds) g =
    let s = log (closed d.fd) g in
    Kept-trans g s _ (Kept-same g s refl refl refl (λ k x. refl) (λ k x. refl) (λ h. h))
      (close_devices-Kept ds s)

join-Kept : (t : Option ℕ) (g : G) → Kept g (join t g)
join-Kept none g = Kept-refl g
join-Kept (some t) g = Kept-same g _ refl refl refl (λ k x. refl) (λ k x. refl) (λ h. h)

shut_down-Kept : (g : G) → Kept (record g { initialized = false }) (shut_down g)
unfolding shut_down
shut_down-Kept g =
    let g1 : G = record g { stop = true; mice_enabled = false } in
    let g2 = join g1.thread (join g1.mice_thread g1) in
    let g3 = close_devices (live g2) g2 in
    let g4 = if is_neg g3.inotify_fd then g3 else log (other_closed g3.inotify_fd) g3 in
    let c =
      Kept-trans g g1 g3 (Kept-same g g1 refl refl refl (λ k x. refl) (λ k x. refl) (λ h. h)) (
        Kept-trans g1 (join g1.mice_thread g1) g3 (join-Kept g1.mice_thread g1) (
          Kept-trans (join g1.mice_thread g1) g2 g3 (join-Kept g1.thread (join g1.mice_thread g1))
            (close_devices-Kept (live g2) g2))) in
    let d : Kept g g4 =
      by_if (Kept g) (is_neg g3.inotify_fd) _ _ (λ _. c)
        (λ _. Kept-same g _ c.ctx c.km c.st c.made_same c.freed_same c.on) in
    Kept-same (record g { initialized = false }) _ d.ctx d.km d.st d.made_same d.freed_same (λ h. h)

enable_mice-Kept : (e : Env) (enabled : ℤ) (g : G) → Kept g (ni_enable_mice e enabled g).1
unfolding ni_enable_mice spawn_mice
enable_mice-Kept e enabled g = record {
  ctx = ground arith;
  km = ground arith;
  st = ground arith;
  made_same = λ k x. ground arith;
  freed_same = λ k x. ground arith;
  on = λ h. ground arith;
}

register_callback-Kept :
    (cb : Option ℕ) (user : ℕ) (flags : ℤ) (g : G) → Kept g (ni_register_callback cb user flags g).1
unfolding ni_register_callback
register_callback-Kept cb user flags g = record {
  ctx = ground arith;
  km = ground arith;
  st = ground arith;
  made_same = λ k x. ground arith;
  freed_same = λ k x. ground arith;
  on = λ h. ground arith;
}

register_key_callback-Kept :
    (cb : Option ℕ) (user : ℕ) (flags : ℤ) (g : G)
    → Kept g (ni_register_key_callback cb user flags g).1
unfolding ni_register_key_callback
register_key_callback-Kept cb user flags g = record {
  ctx = ground arith;
  km = ground arith;
  st = ground arith;
  made_same = λ k x. ground arith;
  freed_same = λ k x. ground arith;
  on = λ h. ground arith;
}

IsOwned-Kept : (g s : G) → Kept g s → IsOwned g → IsOwned s
IsOwned-Kept g s c h context x =
    rw (c.made_same context x, c.freed_same context x, c.ctx) (h context x)
IsOwned-Kept g s c h keymap x = rw (c.made_same keymap x, c.freed_same keymap x, c.km) (h keymap x)
IsOwned-Kept g s c h state x = rw (c.made_same state x, c.freed_same state x, c.st) (h state x)

-- No object is at hand.
off-IsOwned : (g : G) → IsOwned g → IsOwned (record g { initialized = false })
off-IsOwned g h context x = h context x
off-IsOwned g h keymap x = h keymap x
off-IsOwned g h state x = h state x

pub record HasNone (g : G) : Type 0 where
  pub ctx : g.xkb_ctx ≡ none
  pub km : g.xkb_keymap ≡ none
  pub st : g.xkb_state ≡ none

zeroed-IsOwned : (g : G) → HasNone g → IsOwned g → IsOwned (zeroed g.trace)
unfolding zeroed
zeroed-IsOwned g n h context x = rw n.ctx at (h context x)
zeroed-IsOwned g n h keymap x = rw n.km at (h keymap x)
zeroed-IsOwned g n h state x = rw n.st at (h state x)

-- `ni_init` is called when the library is initialized or no object is at hand.
abbrev pub IsFrugal : (e : Env) (g s : G) → Step e g s → Type 0
IsFrugal e g s (init flags _) = HasNone g ⊎ (g.initialized ≡ true)
IsFrugal e g s _ = Unit

-- Runs of that kind, from the program's start.
pub data Session (e : Env) : G → Type 0 where
  started : (t : Trace) → IsOwned (zeroed t) → Session e (zeroed t)
  onward : (g s : G) (step : Step e g s) → IsFrugal e g s step → Session e g → Session e s

ni_init-IsOwned :
    (e : Env) (flags : ℤ) (g : G)
    → HasNone g ⊎ (g.initialized ≡ true)
    → IsOwned g
    → IsOwned (ni_init e flags g).1
unfolding ni_init
ni_init-IsOwned e flags g f h =
    by_if (λ (r : ℤ × G). IsOwned r.1) (nonzero flags) _ _ (λ _. h)
      (λ _.
        by_if (λ (r : ℤ × G). IsOwned r.1) g.initialized _ _ (λ _. h)
          (λ off. elim f [
            | inl n ↦ IsOwned-Kept (zeroed g.trace) _ (start-Kept e g) (zeroed-IsOwned g n h)
            | inr on ↦ absurd (cc (sym off ∙ on))
          ]))

Step-IsOwned : (e : Env) (g s : G) (step : Step e g s) → IsFrugal e g s step → IsOwned g → IsOwned s
unfolding ni_shutdown
Step-IsOwned e _ _ (init flags g) f h = ni_init-IsOwned e flags g f h
Step-IsOwned e _ _ (set_device_filter filter user g) f h =
    IsOwned-Kept g _ (filter-Kept e filter user g) h
Step-IsOwned e _ _ (register_callback cb user flags g) f h =
    IsOwned-Kept g _ (register_callback-Kept cb user flags g) h
Step-IsOwned e _ _ (poll evts max g) f h = IsOwned-Kept g _ (ni_poll-Kept evts max g) h
Step-IsOwned e _ _ (shutdown g) f h =
    by_if IsOwned g.initialized _ _
      (λ _. IsOwned-Kept (record g { initialized = false }) _ (shut_down-Kept g) (off-IsOwned g h))
      (λ _. h)
Step-IsOwned e _ _ (register_key_callback cb user flags g) f h =
    IsOwned-Kept g _ (register_key_callback-Kept cb user flags g) h
Step-IsOwned e _ _ (poll_key_events evts max g) f h =
    IsOwned-Kept g _ (ni_poll_key_events-Kept evts max g) h
Step-IsOwned e _ _ (enable_xkb enabled g) f h = ni_enable_xkb-IsOwned e enabled g h
Step-IsOwned e _ _ (set_xkb_names names g) f h = ni_set_xkb_names-IsOwned e names g h
Step-IsOwned e _ _ (enable_mice enabled g) f h = IsOwned-Kept g _ (enable_mice-Kept e enabled g) h
Step-IsOwned e _ _ (worker p ready g) f h = IsOwned-Kept g _ (worker_round-Kept e p ready g) h
Step-IsOwned e _ _ (mice_begin g) f h = IsOwned-Kept g _ (mice_start-Kept e g) h
Step-IsOwned e _ _ (mice r m g) f h = IsOwned-Kept g _ (mice_round-Kept e r m g) h

at_all_times : (e : Env) (g : G) → Session e g → IsOwned g
at_all_times e _ (started t h) = h
at_all_times e _ (onward g s step f r) = Step-IsOwned e g s step f (at_all_times e g r)

-- Let the calls of the exported functions and the rounds of both threads come in any order, but `ni_init` only
-- on an initialized library or with no object of libxkbcommon at hand. Then at every point, as long as
-- no device was registered behind the array of devices, of each object as many references are alive as
-- the fields of `g` hold: none leaks, none is given back twice.
pub Session-IsOwned : (e : Env) (g : G) → Session e g → fits g.trace ≡ true → IsOwned g
Session-IsOwned e g r room = at_all_times e g r
