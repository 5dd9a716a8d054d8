-- ===== src/Posix/Devices/Frame.antt =====
-- A scan writes the device table and makes calls; it leaves every other field of `g` alone.
use asyncinput.Prelude.{
  ℕ, zero, suc, ◌+◌, ◌<◌, ◌≤◌, ◌≡◌, refl, ap, ◌∙◌, inl, inr, List, Bool, true, false, if◌then◌else◌,
  arith, Option-cases,
}
use asyncinput.Prelude.Int.{ℤ, pos, is_neg, minus_one}
use asyncinput.Event.{NiDeviceInfo}
use asyncinput.Posix.{Env, G, log, opened, closed, max_devices}
use asyncinput.Posix.Paths.{event_path, deduced_id}
use asyncinput.Posix.Devices.{
  open_device_filtered, add_device_fd, passes, scan_one, scan_from, scan_devices,
}
use asyncinput.Posix.Devices.Scan.{attempt, scan_one_cases}

-- `s` is `g` but for the table and the trace.
abbrev pub Framed : G → G → Type 0
Framed g s = s ≡ record g { devices = s.devices; ndevi = s.ndevi; trace = s.trace }

pub Framed-refl : (g : G) → Framed g g
Framed-refl g = refl

pub Framed-trans : (g s t : G) → Framed g s → Framed s t → Framed g t
Framed-trans g s t p q =
    q ∙ ap (λ (u : G). record u { devices = t.devices; ndevi = t.ndevi; trace = t.trace }) p

passes-Framed : (e : Env) (info : NiDeviceInfo) (g : G) → Framed g (passes e info g).1
unfolding passes
passes-Framed e info g = elim (Option-cases g.filter) [ inl h ↦ rw h | inr (f, h) ↦ rw h ]

-- What holds of the three outcomes of an attempt holds of the attempt: no descriptor, a device that
-- passes the filter, a device that does not.
open_device_filtered_cases {ℓ} :
    (P : ℤ × ℤ × G → Type ℓ) (e : Env) (path : List ℕ) (out_devid : ℤ) (g : G)
    → let fd = e.open_path g.trace path in
      let g' = log (opened path fd) g in
      P (minus_one, out_devid, g')
      → ((info : NiDeviceInfo)
          → P (fd, deduced_id path, (passes e info g').1)
            × P (minus_one, out_devid, log (closed fd) (passes e info g').1))
      → P (open_device_filtered e path out_devid g)
unfolding open_device_filtered
open_device_filtered_cases P e path out_devid g none_ h =
    by_test (is_neg _) none_ (by_test _ (h _).0 (h _).1)
  where
    by_test : (b : Bool) {s t : ℤ × ℤ × G} → P s → P t → P (if b then s else t)
    by_test true p q = p
    by_test false p q = q

pub open_device_filtered-Framed :
    (e : Env) (path : List ℕ) (out_devid : ℤ) (g : G)
    → Framed g (open_device_filtered e path out_devid g).2
open_device_filtered-Framed e path out_devid g =
    open_device_filtered_cases (λ out. Framed g out.2) e path out_devid g refl
      λ info.
        let p = passes-Framed e info (log (opened path (e.open_path g.trace path)) g) in
        (p, ap (λ (u : G). log (closed (e.open_path g.trace path)) u) p)

add_device_fd-Framed : (fd id : ℤ) (path : List ℕ) (g : G) → Framed g (add_device_fd fd id path g)
unfolding add_device_fd
add_device_fd-Framed fd id path g = refl

scan_one-Framed : (e : Env) (i : ℕ) (g : G) → i < 128 → Framed g (scan_one e i g)
scan_one-Framed e i g h = elim (scan_one_cases e i g h) [
  | inl (_, same) ↦ rw same refl
  | inr (inl (_, _, same)) ↦ rw same kept
  | inr (inr (_, _, same)) ↦
      rw same
        (Framed-trans g _ _ kept (add_device_fd-Framed _ (pos i) (event_path i) (attempt e i g).2))
]
  where
    kept : Framed g (attempt e i g).2
    kept = open_device_filtered-Framed e (event_path i) minus_one g

scan_from-Framed : (e : Env) (k i : ℕ) (g : G) → i + k ≤ 128 → Framed g (scan_from e k i g)
unfolding scan_from
scan_from-Framed e zero i g h = refl
scan_from-Framed e (suc k) i g h =
    Framed-trans g _ _ (scan_one-Framed e i g (omega arith))
      (scan_from-Framed e k (i + 1) (scan_one e i g) (omega arith))

pub scan_devices-Framed : (e : Env) (g : G) → Framed g (scan_devices e g)
unfolding scan_devices
scan_devices-Framed e g = scan_from-Framed e max_devices 0 g (omega arith)
