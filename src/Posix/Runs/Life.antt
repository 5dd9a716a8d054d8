-- ===== src/Posix/Runs/Life.antt =====
-- From `ni_init` to `ni_shutdown` of src/libasyncinput_posix.c, with hotplug and a rescan at any time between:
-- no descriptor of an event device leaks.
use asyncinput.Prelude.{
  ℕ, ◌≡◌, refl, sym, ap, subst, ◌∙◌, List, [], ◌∷◌, true, false, not, ◌&&◌, Option, arith, length,
  by_if, get_or,
}
use asyncinput.Prelude.Int.{ℤ, pos, nonzero, ltb_ℤ, minus_one}
use asyncinput.Prelude.Tally.{tally}
use asyncinput.Posix.{
  Env, G, Trace, Pointer, inotify, null, slot, blank_device, other_opened, zeroed, now_ns,
  clock_read,
}
use asyncinput.Posix.Devices.{live, scan_devices, close_refused}
use asyncinput.Posix.Devices.Descriptors.{holds}
use asyncinput.Posix.Devices.Scan.{zeroed-IsSound}
use asyncinput.Posix.Quiet.{Quiet-same, Quiet-log, Quiet-trans, fits, drain-Quiet}
use asyncinput.Posix.Worker.{Pending, handle_ready, handle_all, maybe_rescan, worker_round}
use asyncinput.Posix.Mice.{Running}
use asyncinput.Posix.Api.{start_inotify, fresh, ni_init, ni_set_device_filter, ni_shutdown}
use asyncinput.Posix.Api.Init.{ready, ni_init-ready, start_inotify-kept}
use asyncinput.Posix.Api.Lifecycle.{
  IsClosed, ni_shutdown-IsClosed, start_inotify-account, ready-Quiet,
}
use asyncinput.Posix.Runs.Table.{
  IsAccounted, Keeps, Keeps-trans, Keeps-refl, Keeps-Quiet, scan_devices-Keeps,
  handle_inotify_event-Keeps, close_refused-Keeps,
}
use asyncinput.Posix.Runs.Silent.{
  enable_xkb-Quiet, set_xkb_names-Quiet, register_callback-Quiet, register_key_callback-Quiet,
  ni_poll-Quiet, ni_poll_key_events-Quiet, enable_mice-Quiet, mice_start-Quiet, mice_round-Quiet,
}
use asyncinput.Posix.Runs.Calm.{filter-Calm, enable_xkb-Calm, set_xkb_names-Calm}
use asyncinput.Posix.Runs.Calls.{
  register_callback-Calm, register_key_callback-Calm, enable_mice-Calm,
}
use asyncinput.Posix.Runs.Threads.{worker_round-Kept, mice_start-Kept, mice_round-Kept}
use asyncinput.Posix.Runs.Objects.{ni_poll-Kept, ni_poll_key_events-Kept}
use asyncinput.Posix.Runs.{
  Step, init, set_device_filter, register_callback, poll, shutdown, register_key_callback,
  poll_key_events, enable_xkb, set_xkb_names, enable_mice, worker, mice_begin, mice,
}

-- Starting inotify registers no device.
fits-start_inotify : (e : Env) (g : G) → fits (start_inotify e g).trace ≡ fits g.trace
unfolding start_inotify
fits-start_inotify e g = ground arith

start_inotify-Keeps : (e : Env) (g : G) → Keeps g (start_inotify e g)
start_inotify-Keeps e g =
    let same = start_inotify-kept e g in
    record {
      before = λ h. sym (fits-start_inotify e g) ∙ h;
      account = λ h a. record {
        table =
            omega
              (arith, a.table, ap (λ (u : G). length u.devices) same, ap (λ (u : G). u.ndevi) same);
        balance = λ x. omega (
          arith,
          a.balance x,
          start_inotify-account e g x,
          ap (λ (u : G). tally (holds x) (live u)) same,
        );
      };
    }

fresh-Keeps : (e : Env) (t : Trace) → Keeps (zeroed t) (fresh e t)
unfolding fresh
fresh-Keeps e t =
    let z : G = record (zeroed t) { epoll_fd = e.epoll_create t; mice_fd = minus_one } in
    Keeps-Quiet (zeroed t) _ (
      Quiet-trans (zeroed t) z _ (Quiet-same (zeroed t) z refl refl refl)
        (Quiet-log (other_opened (e.epoll_create t)) z tt))

ready-Keeps : (e : Env) (t : Trace) (thread : ℕ) → Keeps (zeroed t) (ready e t thread)
ready-Keeps e t thread =
    let begun = start_inotify e (fresh e t) in
    let scanned_one = scan_devices e begun in
    Keeps-trans (zeroed t) (fresh e t) _ (fresh-Keeps e t) (
      Keeps-trans (fresh e t) begun _ (start_inotify-Keeps e (fresh e t)) (
        Keeps-trans begun scanned_one _ (scan_devices-Keeps e begun)
          (Keeps-Quiet scanned_one _ (ready-Quiet e t thread))))

zeroed-IsAccounted : (t : Trace) → IsClosed t → IsAccounted (zeroed t)
zeroed-IsAccounted t c = let (s, b) = zeroed-IsSound t c in record { table = s.table; balance = b }

init-IsAccounted :
    (e : Env) (flags : ℤ) (g s : G)
    → IsClosed g.trace
    → g.initialized ≡ false
    → ni_init e flags g ≡ (pos 0, s)
    → fits s.trace ≡ true
    → IsAccounted s
init-IsAccounted e flags g s c off h room =
    let (thread, r) = ni_init-ready e flags g s off h in
    subst IsAccounted (sym r) (
      (ready-Keeps e g.trace thread).account (sym (ap (λ (u : G). fits u.trace) r) ∙ room)
        (zeroed-IsAccounted g.trace c))

-- The worker's round.
handle_ready-Keeps : (e : Env) (p : Pending) (r : Pointer) (g : G) → Keeps g (handle_ready e p r g)
unfolding handle_ready
handle_ready-Keeps e p inotify g = handle_inotify_event-Keeps e p.nodes g
handle_ready-Keeps e p null g = Keeps-refl g
handle_ready-Keeps e p (slot i) g =
    let dev = get_or g.devices i blank_device in
    Keeps-Quiet g _ (drain-Quiet e dev.id (p.of_fd dev.fd) g)

handle_all-Keeps :
    (e : Env) (p : Pending) (rs : List Pointer) (g : G) → Keeps g (handle_all e p rs g)
unfolding handle_all
handle_all-Keeps e p [] g = Keeps-refl g
handle_all-Keeps e p (r ∷ rs) g =
    Keeps-trans g (handle_ready e p r g) _ (handle_ready-Keeps e p r g)
      (handle_all-Keeps e p rs (handle_ready e p r g))

maybe_rescan-Keeps : (e : Env) (g : G) → Keeps g (maybe_rescan e g)
unfolding maybe_rescan now_ns
maybe_rescan-Keeps e g =
    let g' = (now_ns e g).1 in
    let read = Keeps-Quiet g g' (Quiet-log clock_read g tt) in
    by_if (Keeps g) (nonzero g'.rescan_until_ns && ltb_ℤ (e.clock g.trace) g'.rescan_until_ns) _ _
      (λ _. Keeps-trans g g' _ read (scan_devices-Keeps e g')) (λ _. read)

worker_round-Keeps :
    (e : Env) (p : Pending) (ready : List Pointer) (g : G) → Keeps g (worker_round e p ready g).1
unfolding worker_round
worker_round-Keeps e p ready g =
    by_if (λ (r : Running × G). Keeps g r.1) g.stop _ _ (λ _. Keeps-refl g)
      (λ _.
        Keeps-trans g (maybe_rescan e g) _ (maybe_rescan-Keeps e g)
          (handle_all-Keeps e p ready (maybe_rescan e g)))

filter-Keeps :
    (e : Env) (f : Option ℕ) (user : ℕ) (g : G) → Keeps g (ni_set_device_filter e f user g).1
unfolding ni_set_device_filter
filter-Keeps e f user g =
    let g' : G = record g { filter = f; filter_user = user } in
    let left = close_refused e g'.ndevi g' in
    let same = Keeps-Quiet g g' (Quiet-same g g' refl refl refl) in
    by_if (Keeps g) (not g'.initialized) _ _ (λ _. same)
      (λ _. Keeps-trans g g' _ same (
        Keeps-trans g' left _ (close_refused-Keeps e g'.ndevi g' (omega arith))
          (scan_devices-Keeps e left)))

-- the steps between `ni_init` and `ni_shutdown`
abbrev pub IsInner : (e : Env) (g s : G) → Step e g s → Type 0
IsInner e g s (init flags _) = ⊥
IsInner e g s (shutdown _) = ⊥
IsInner e g s _ = Unit

-- What is reached from a successful `ni_init`, before which no device descriptor was open.
pub data Life (e : Env) : G → Type 0 where
  born :
      (flags : ℤ) (g s : G)
      → IsClosed g.trace
      → g.initialized ≡ false
      → ni_init e flags g ≡ (pos 0, s)
      → Life e s
  lived : (g s : G) (step : Step e g s) → IsInner e g s step → Life e g → Life e s

Step-Keeps : (e : Env) (g s : G) (step : Step e g s) → IsInner e g s step → Keeps g s
Step-Keeps e _ _ (init flags g) i = absurd i
Step-Keeps e _ _ (shutdown g) i = absurd i
Step-Keeps e _ _ (set_device_filter f user g) i = filter-Keeps e f user g
Step-Keeps e _ _ (register_callback cb user flags g) i =
    Keeps-Quiet g _ (register_callback-Quiet cb user flags g)
Step-Keeps e _ _ (poll evts max g) i = Keeps-Quiet g _ (ni_poll-Quiet evts max g)
Step-Keeps e _ _ (register_key_callback cb user flags g) i =
    Keeps-Quiet g _ (register_key_callback-Quiet cb user flags g)
Step-Keeps e _ _ (poll_key_events evts max g) i =
    Keeps-Quiet g _ (ni_poll_key_events-Quiet evts max g)
Step-Keeps e _ _ (enable_xkb enabled g) i = Keeps-Quiet g _ (enable_xkb-Quiet e enabled g)
Step-Keeps e _ _ (set_xkb_names names g) i = Keeps-Quiet g _ (set_xkb_names-Quiet e names g)
Step-Keeps e _ _ (enable_mice enabled g) i = Keeps-Quiet g _ (enable_mice-Quiet e enabled g)
Step-Keeps e _ _ (worker p ready g) i = worker_round-Keeps e p ready g
Step-Keeps e _ _ (mice_begin g) i = Keeps-Quiet g _ (mice_start-Quiet e g)
Step-Keeps e _ _ (mice r m g) i = Keeps-Quiet g _ (mice_round-Quiet e r m g)

-- After a successful `ni_init`, and any calls of the other functions but `ni_shutdown` and any rounds of both
-- threads in any order, hotplug included: as long as no device was registered behind the array, the table
-- has at most its 128 devices and the open device descriptors are exactly those of the table.
pub Life-IsAccounted : (e : Env) (g : G) → Life e g → fits g.trace ≡ true → IsAccounted g
Life-IsAccounted e s (born flags g _ c off h) room = init-IsAccounted e flags g s c off h room
Life-IsAccounted e s (lived g _ step i life) room =
    let k = Step-Keeps e g s step i in k.account room (Life-IsAccounted e g life (k.before room))

-- No step in between shuts the library down.
Step-on :
    (e : Env) (g s : G) (step : Step e g s)
    → IsInner e g s step
    → g.initialized ≡ true
    → s.initialized ≡ true
Step-on e _ _ (init flags g) i = absurd i
Step-on e _ _ (shutdown g) i = absurd i
Step-on e _ _ (set_device_filter f user g) i = (filter-Calm e f user g).on
Step-on e _ _ (register_callback cb user flags g) i = (register_callback-Calm cb user flags g).on
Step-on e _ _ (poll evts max g) i = (ni_poll-Kept evts max g).on
Step-on e _ _ (register_key_callback cb user flags g) i =
    (register_key_callback-Calm cb user flags g).on
Step-on e _ _ (poll_key_events evts max g) i = (ni_poll_key_events-Kept evts max g).on
Step-on e _ _ (enable_xkb enabled g) i = (enable_xkb-Calm e enabled g).on
Step-on e _ _ (set_xkb_names names g) i = (set_xkb_names-Calm e names g).on
Step-on e _ _ (enable_mice enabled g) i = (enable_mice-Calm e enabled g).on
Step-on e _ _ (worker p ready g) i = (worker_round-Kept e p ready g).on
Step-on e _ _ (mice_begin g) i = (mice_start-Kept e g).on
Step-on e _ _ (mice r m g) i = (mice_round-Kept e r m g).on

pub Life-on : (e : Env) (g : G) → Life e g → g.initialized ≡ true
Life-on e s (born flags g _ c off h) =
    let (thread, r) = ni_init-ready e flags g s off h in ap (λ (u : G). u.initialized) r
Life-on e s (lived g _ step i life) = Step-on e g s step i (Life-on e g life)

-- Take what a successful `ni_init` left, before which no device descriptor was open, and after it
-- any calls of the other functions but `ni_shutdown` and any rounds of both threads in any order,
-- hotplug included, as long as no device was registered behind the array. Then `ni_shutdown` returns
-- 0 and leaves the library not initialized and no device descriptor open.
pub Life-ni_shutdown :
    (e : Env) (g : G)
    → Life e g
    → fits g.trace ≡ true
    → ((ni_shutdown g).0 ≡ pos 0)
      × ((ni_shutdown g).1.initialized ≡ false)
      × IsClosed (ni_shutdown g).1.trace
Life-ni_shutdown e g life room =
    ni_shutdown-IsClosed g (Life-on e g life) (Life-IsAccounted e g life room).balance
