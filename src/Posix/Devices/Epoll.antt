-- ===== src/Posix/Devices/Epoll.antt =====
-- The pointer that `epoll_wait` hands the worker for a descriptor: the slot of the device table whose
-- address `add_device_fd` registered.
use asyncinput.Prelude.{
  ℕ, zero, suc, ◌+◌, ◌<◌, ◌≤◌, ◌≡◌, sym, ap, ◌∙◌, inl, inr, false, List, [], ◌∷◌, Option, none,
  some, arith, if◌then◌else◌, get_or, get_or-set_self, get_or-set_ne, ℕ_discrete,
}
use asyncinput.Prelude.Int.{ℤ, pos, eqb_ℤ, eqb_ℤ→eq, eqb_ℤ_refl, is_neg, minus_one}
use asyncinput.Posix.{
  Device, blank_device, Env, G, Trace, Pointer, slot, max_devices, epoll_add, epoll_del, closed,
  other_closed,
}
use asyncinput.Posix.Devices.{
  open_device_filtered, add_device_fd, scan_one, scan_from, scan_devices,
}
use asyncinput.Posix.Paths.{event_path}
use asyncinput.Posix.Devices.Table.{IsTable, device}
use asyncinput.Posix.Devices.Ids.{room}
use asyncinput.Posix.Devices.Descriptors.{open_device_filtered-Opening}
use asyncinput.Posix.Devices.Scan.{
  IsSound, attempt, attempt-IsScanned, attempt-missing, scan_one_cases, scan_one-IsSound,
}

-- epoll(7): adding a descriptor that is registered fails and changes nothing; closing one removes it, be it of
-- an event device or of inotify, epoll or mice. Another failure of an addition, of which the code reads no
-- result, is not covered.
abbrev pub target : Trace → ℤ → Option Pointer
target [] f = none
target (epoll_add fd p ∷ t) f = elim (target t f) [
  | some q ↦ some q
  | none ↦ if eqb_ℤ fd f then some p else none
]
target (epoll_del fd ∷ t) f = if eqb_ℤ fd f then none else target t f
target (closed fd ∷ t) f = if eqb_ℤ fd f then none else target t f
target (other_closed fd ∷ t) f = if eqb_ℤ fd f then none else target t f
target (_ ∷ t) f = target t f

pub target-add_self :
    (t : Trace) (fd : ℤ) (p : Pointer)
    → target t fd ≡ none
    → target (epoll_add fd p ∷ t) fd ≡ some p
target-add_self t fd p h = rw h (rw (eqb_ℤ_refl fd))

pub target-add_old :
    (t : Trace) (fd f : ℤ) (p q : Pointer)
    → target t f ≡ some q
    → target (epoll_add fd p ∷ t) f ≡ some q
target-add_old t fd f p q h = rw h

-- the descriptor in slot `i`
abbrev pub fd_at : G → ℕ → ℤ
fd_at g i = (get_or g.devices i blank_device).fd

-- For each open device epoll gives the slot in which it stands.
abbrev pub IsCoherent : G → Type 0
IsCoherent g = (i : ℕ) → i < g.ndevi → target g.trace (fd_at g i) ≡ some (slot i)

-- A change of other fields and calls keeps that.
pub IsCoherent-same :
    (g s : G)
    → s.devices ≡ g.devices
    → s.ndevi ≡ g.ndevi
    → ((f : ℤ) → target s.trace f ≡ target g.trace f)
    → IsCoherent g
    → IsCoherent s
IsCoherent-same g s d n t c i h =
    let same : fd_at s i ≡ fd_at g i = ap (λ ds. (get_or ds i blank_device).fd) d in
    ap (target s.trace) same ∙ t (fd_at g i) ∙ c i (omega (arith, n))

-- A device with a descriptor that is not registered may be added.
pub add_device_fd-IsCoherent :
    (fd id : ℤ) (path : List ℕ) (g : G)
    → IsTable g
    → g.ndevi < max_devices
    → target g.trace fd ≡ none
    → IsCoherent g
    → IsCoherent (add_device_fd fd id path g)
unfolding add_device_fd
add_device_fd-IsCoherent fd id path g t room fresh c i h = elim (ℕ_discrete i g.ndevi) [
  | yes new ↦
      let here : fd_at (add_device_fd fd id path g) i ≡ fd = rw new (
        ap (λ (d : Device). d.fd)
          (get_or-set_self g.devices g.ndevi (device fd id path) blank_device (omega arith))) in
      ap (target (epoll_add fd (slot g.ndevi) ∷ g.trace)) here
      ∙ target-add_self g.trace fd (slot g.ndevi) fresh
      ∙ ap (λ k. some (slot k)) (sym new)
  | no old ↦
      let there : fd_at (add_device_fd fd id path g) i ≡ fd_at g i =
        ap (λ (d : Device). d.fd)
          (get_or-set_ne g.devices g.ndevi i (device fd id path) blank_device (λ e. old (sym e))) in
      ap (target (epoll_add fd (slot g.ndevi) ∷ g.trace)) there
      ∙ target-add_old g.trace fd (fd_at g i) (slot g.ndevi) (slot i) (c i (omega arith))
]

-- What follows of open(2): a descriptor that it returns was not open. Closing a descriptor ends its
-- registration, so it is registered nowhere. A number that was closed before may come again.
pub record IsFresh (e : Env) : Type 0 where
  pub unregistered :
      (t : Trace) (path : List ℕ)
      → is_neg (e.open_path t path) ≡ false
      → target t (e.open_path t path) ≡ none

-- An attempt to open a path leaves the registrations of the open devices as they are.
opening_keeps :
    (e : Env) (path : List ℕ) (out_devid : ℤ) (g : G) (f : ℤ) (p : Pointer)
    → IsFresh e
    → target g.trace f ≡ some p
    → target (open_device_filtered e path out_devid g).2.trace f ≡ some p
unfolding open_device_filtered
opening_keeps e path out_devid g f p k h =
    ground (arith, k.unregistered g.trace path, eqb_ℤ→eq (e.open_path g.trace path) f)

opened_fresh :
    (e : Env) (path : List ℕ) (out_devid : ℤ) (g : G)
    → IsFresh e
    → let (fd, _, g') = open_device_filtered e path out_devid g in
      is_neg fd ≡ false → target g'.trace fd ≡ none
unfolding open_device_filtered
opened_fresh e path out_devid g k h = ground (arith, k.unregistered g.trace path)

attempt-IsCoherent :
    (e : Env) (i : ℕ) (g : G) → IsFresh e → IsCoherent g → IsCoherent (attempt e i g).2
attempt-IsCoherent e i g k c j h =
    let o = open_device_filtered-Opening e (event_path i) minus_one (pos 0) g in
    let same : fd_at (attempt e i g).2 j ≡ fd_at g j =
      ap (λ ds. (get_or ds j blank_device).fd) o.devices in
    ap (target (attempt e i g).2.trace) same
    ∙ opening_keeps e (event_path i) minus_one g (fd_at g j) (slot j) k
        (c j (omega (arith, o.ndevi)))

scan_one-IsCoherent :
    (e : Env) (i : ℕ) (g : G)
    → i < 128
    → IsFresh e
    → IsSound g × IsCoherent g
    → IsSound (scan_one e i g) × IsCoherent (scan_one e i g)
scan_one-IsCoherent e i g h k (s, c) = (
  scan_one-IsSound e i g h s,
  elim (scan_one_cases e i g h) [
    | inl (_, same) ↦ rw same c
    | inr (inl (_, neg, same)) ↦ rw same (attempt-IsCoherent e i g k c)
    | inr (inr (gone, fine, same)) ↦
        let s' = attempt-IsScanned e i g s.0 in
        rw same (
          add_device_fd-IsCoherent _ (pos i) (event_path i) _ s'.table
            (room i _ s' (attempt-missing e i g gone) h)
            (opened_fresh e (event_path i) minus_one g k fine) (attempt-IsCoherent e i g k c))
  ],
)

scan_from-IsCoherent :
    (e : Env) (n i : ℕ) (g : G)
    → i + n ≤ 128
    → IsFresh e
    → IsSound g × IsCoherent g
    → IsSound (scan_from e n i g) × IsCoherent (scan_from e n i g)
unfolding scan_from
scan_from-IsCoherent e zero i g h k s = s
scan_from-IsCoherent e (suc n) i g h k s =
    scan_from-IsCoherent e n (i + 1) (scan_one e i g) (omega arith) k
      (scan_one-IsCoherent e i g (omega arith) k s)

-- If the ids in the table are distinct numbers below 128, the open descriptors are those of the
-- table, epoll gives each open device the slot in which it stands, and `open` returns unregistered
-- descriptors, then after a scan epoll gives each open device, old or new, the slot in which it
-- stands.
pub scan_devices-IsCoherent :
    (e : Env) (g : G) → IsFresh e → IsSound g → IsCoherent g → IsCoherent (scan_devices e g)
unfolding scan_devices
scan_devices-IsCoherent e g k s c =
    (scan_from-IsCoherent e max_devices 0 g (omega arith) k (s, c)).1
