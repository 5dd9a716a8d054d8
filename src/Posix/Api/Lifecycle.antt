-- ===== src/Posix/Api/Lifecycle.antt =====
-- From `ni_init` to `ni_shutdown`: the device table is sound after the one, and no descriptor of an
-- event device is left open by the other.
use asyncinput.Prelude.{
  ℕ, ◌+◌, ◌≡◌, refl, sym, ap, subst, List, [], ◌∷◌, Bool, true, false, Option, none, some,
  if◌then◌else◌, arith, Bool-cases, if_true, by_if, not, inl, inr,
}
use asyncinput.Prelude.Int.{ℤ, pos, is_neg, minus_one}
use asyncinput.Prelude.Tally.{tally}
use asyncinput.Posix.{
  Env, G, Device, Trace, zeroed, log, closed, joined, other_closed, other_opened, spawned,
}
use asyncinput.Posix.Devices.{live, scan_devices, close_refused}
use asyncinput.Posix.Devices.Descriptors.{IsBalanced, opens, closes, holds}
use asyncinput.Posix.Devices.Ids.{IsScanned-same}
use asyncinput.Posix.Devices.Scan.{
  IsSound, zeroed-IsSound, close_refused-IsSound, scan_devices-IsSound,
}
use asyncinput.Posix.Devices.Epoll.{
  IsCoherent, IsCoherent-same, IsFresh, target, scan_devices-IsCoherent,
}
use asyncinput.Posix.Quiet.{
  Quiet, Quiet-same, Quiet-log, Quiet-trans, IsSound-Quiet, IsBalanced-Quiet,
}
use asyncinput.Posix.Api.{
  ni_set_device_filter, start_inotify, fresh, scanned, default_names, ni_init, join, close_devices,
  shut_down, ni_shutdown,
}
use asyncinput.Posix.Api.Init.{ready, ni_init-ready, start_inotify-kept}

-- No descriptor of an event device is open.
abbrev pub IsClosed : Trace → Type 0
IsClosed t = (x : ℤ) → opens x t ≡ closes x t

-- Starting inotify touches neither the table nor the descriptors of event devices.
pub start_inotify-account :
    (e : Env) (g : G) (x : ℤ)
    → (opens x (start_inotify e g).trace ≡ opens x g.trace)
      × (closes x (start_inotify e g).trace ≡ closes x g.trace)
unfolding start_inotify
start_inotify-account e g x = elim (Bool-cases (is_neg (e.inotify_init g.trace))) [
  | inl neg ↦ rw neg (refl, refl)
  | inr fine ↦ rw fine (refl, refl)
]

inotify-IsSound : (e : Env) (g : G) → IsSound g → IsSound (start_inotify e g)
inotify-IsSound e g (s, b) =
    let k = start_inotify-kept e g in
    (
      IsScanned-same g _ (ap (λ (u : G). u.devices) k) (ap (λ (u : G). u.ndevi) k) s,
      λ x.
          omega
            (arith, b x, start_inotify-account e g x, ap (λ (u : G). tally (holds x) (live u)) k),
    )

fresh-IsSound : (e : Env) (t : Trace) → IsClosed t → IsSound (fresh e t)
unfolding fresh
fresh-IsSound e t c =
    let z = record (zeroed t) { epoll_fd = e.epoll_create t; mice_fd = minus_one } in
    IsSound-Quiet z _ (Quiet-log (other_opened (e.epoll_create t)) z tt)
      (IsSound-Quiet (zeroed t) z (Quiet-same (zeroed t) z refl refl refl) (zeroed-IsSound t c))

ndevi-inotify : (e : Env) (t : Trace) → (start_inotify e (fresh e t)).ndevi ≡ 0
unfolding fresh zeroed
ndevi-inotify e t = ap (λ (u : G). u.ndevi) (start_inotify-kept e (fresh e t))

pub ready-Quiet :
    (e : Env) (t : Trace) (thread : ℕ)
    → Quiet (scan_devices e (start_inotify e (fresh e t))) (ready e t thread)
unfolding scanned default_names
ready-Quiet e t thread =
    let named = record (default_names (scanned e t)) { thread = some thread; initialized = true } in
    Quiet-trans (scan_devices e (start_inotify e (fresh e t))) named _
      (Quiet-same (scan_devices e (start_inotify e (fresh e t))) named refl refl refl)
      (Quiet-log (spawned (some thread)) named tt)

-- What follows the scan registers nothing and closes nothing.
ready-target :
    (e : Env) (t : Trace) (thread : ℕ) (f : ℤ)
    → target (ready e t thread).trace f
      ≡ target (scan_devices e (start_inotify e (fresh e t))).trace f
unfolding scanned default_names
ready-target e t thread f = refl

-- After a successful `ni_init` from a state that is not initialized and with no device descriptor
-- open before, the ids in the table are distinct numbers below 128, the open device descriptors
-- are those of the table, and epoll gives each device the slot in which it stands, provided that
-- `open` returns descriptors that are not registered; those that were closed may come again.
pub ni_init-IsSound :
    (e : Env) (flags : ℤ) (g s : G)
    → IsFresh e
    → IsClosed g.trace
    → g.initialized ≡ false
    → ni_init e flags g ≡ (pos 0, s)
    → IsSound s × IsCoherent s
ni_init-IsSound e flags g s k c off h =
    let (thread, r) = ni_init-ready e flags g s off h in
    let begun = start_inotify e (fresh e g.trace) in
    let sound = inotify-IsSound e (fresh e g.trace) (fresh-IsSound e g.trace c) in
    let empty : IsCoherent begun = λ i lt. absurd (omega (arith, ndevi-inotify e g.trace)) in
    let q = ready-Quiet e g.trace thread in
    rw r (
      IsSound-Quiet (scan_devices e begun) _ q (scan_devices-IsSound e begun sound),
      IsCoherent-same (scan_devices e begun) (ready e g.trace thread) q.devices q.ndevi
          (ready-target e g.trace thread) (scan_devices-IsCoherent e begun k sound empty),
    )

account-close_devices :
    (ds : List Device) (g : G) (x : ℤ)
    → (opens x (close_devices ds g).trace ≡ opens x g.trace)
      × (closes x (close_devices ds g).trace ≡ tally (holds x) ds + closes x g.trace)
unfolding close_devices
account-close_devices [] g x = (refl, omega arith)
account-close_devices (d ∷ ds) g x =
    let (o, c) = account-close_devices ds (log (closed d.fd) g) x in (o, omega (arith, c))

join-Quiet : (t : Option ℕ) (g : G) → Quiet g (join t g)
join-Quiet none g = Quiet-same g g refl refl refl
join-Quiet (some t) g = Quiet-log (joined t) g tt

-- What `ni_shutdown` does before it closes the devices.
abbrev stopping : G → G
stopping g =
    let g1 = record g { stop = true; mice_enabled = false } in
    join g1.thread (join g1.mice_thread g1)

stopping-Quiet : (g : G) → Quiet g (stopping g)
stopping-Quiet g =
    let g1 = record g { stop = true; mice_enabled = false } in
    Quiet-trans g g1 _ (Quiet-same g g1 refl refl refl) (
      Quiet-trans g1 (join g.mice_thread g1) _ (join-Quiet g.mice_thread g1)
        (join-Quiet g.thread (join g.mice_thread g1)))

-- Closing the inotify and epoll descriptors is not about devices.
account-last :
    (b : Bool) (i p : ℤ) (g : G) (x : ℤ)
    → let s = log (other_closed p) (if b then g else log (other_closed i) g) in
      (opens x s.trace ≡ opens x g.trace) × (closes x s.trace ≡ closes x g.trace)
account-last true i p g x = (refl, refl)
account-last false i p g x = (refl, refl)

shut_down-IsClosed :
    (g : G) → IsBalanced g → ((shut_down g).initialized ≡ false) × IsClosed (shut_down g).trace
unfolding shut_down
shut_down-IsClosed g b = (
  refl,
  λ x.
      let s = stopping g in
      let t = close_devices (live s) s in
      let g4 = if is_neg t.inotify_fd then t else log (other_closed t.inotify_fd) t in
      omega (
        arith,
        IsBalanced-Quiet g s (stopping-Quiet g) b x,
        account-close_devices (live s) s x,
        account-last (is_neg t.inotify_fd) t.inotify_fd g4.epoll_fd t x,
      ),
)

-- `ni_shutdown` returns 0; from an initialised state whose open device descriptors are those of the
-- table it closes each of them, once for every device that holds it, and leaves `g` not initialised.
pub ni_shutdown-IsClosed :
    (g : G)
    → g.initialized ≡ true
    → IsBalanced g
    → let (result, s) = ni_shutdown g in
      (result ≡ pos 0) × (s.initialized ≡ false) × IsClosed s.trace
unfolding ni_shutdown
ni_shutdown-IsClosed g on b =
    let (off, closed_all) = shut_down-IsClosed g b in
    let taken = sym (if_true g.initialized (shut_down g) g on) in
    (
      refl,
      subst (λ (s : G). s.initialized ≡ false) taken off,
      subst (λ (s : G). IsClosed s.trace) taken closed_all,
    )

-- `ni_set_device_filter` returns 0. From a state in which the ids in the table are distinct numbers
-- below 128 and the open device descriptors are those of the table, it gives such a state again,
-- whatever the filter refuses.
pub ni_set_device_filter-IsSound :
    (e : Env) (filter : Option ℕ) (user_data : ℕ) (g : G)
    → IsSound g
    → let (result, s) = ni_set_device_filter e filter user_data g in (result ≡ pos 0) × IsSound s
unfolding ni_set_device_filter
ni_set_device_filter-IsSound e filter user_data g sound =
    let g' : G = record g { filter = filter; filter_user = user_data } in
    let kept = IsSound-Quiet g g' (Quiet-same g g' refl refl refl) sound in
    let closed_some = close_refused-IsSound e g' kept in
    (
      refl,
      by_if IsSound (not g'.initialized) _ _ (λ _. kept)
          (λ _. scan_devices-IsSound e (close_refused e g'.ndevi g') closed_some),
    )
