-- ===== src/Posix/Devices/Descriptors.antt =====
-- Which descriptors of event devices are open: those of the devices in the table.
use asyncinput.Prelude.{
  ℕ, zero, suc, ◌+◌, ◌<◌, ◌≤◌, ◌≡◌, ap, ap₂, take, length, inl, inr, Bool, true, false, List, [],
  ◌∷◌, arith, if◌then◌else◌,
}
use asyncinput.Prelude.Int.{ℤ, eqb_ℤ, is_neg}
use asyncinput.Prelude.Tally.{tally, tally-append}
use asyncinput.Event.{NiDeviceInfo}
use asyncinput.Posix.{Device, Env, G, Trace, max_devices, opened, closed}
use asyncinput.Posix.Paths.{deduced_id}
use asyncinput.Posix.Devices.{
  live, open_device_filtered, add_device_fd, drop_at, remove_device_by_id, close_refused, close_one,
  passes,
}
use asyncinput.Posix.Devices.Table.{
  IsTable, device, live-add_device_fd, tally-drop_at, drop_at-IsTable, remove_cases,
}

-- 1 if the descriptor is `x`
abbrev pub hits : ℤ → ℤ → ℕ
hits x fd = if eqb_ℤ fd x then 1 else 0

abbrev pub holds : ℤ → Device → ℕ
holds x d = hits x d.fd

-- how often `open` has returned `x`
abbrev pub opens : ℤ → Trace → ℕ
opens x [] = 0
opens x (opened path fd ∷ t) = (if is_neg fd then 0 else hits x fd) + opens x t
opens x (_ ∷ t) = opens x t

-- how often `x` was closed
abbrev pub closes : ℤ → Trace → ℕ
closes x [] = 0
closes x (closed fd ∷ t) = hits x fd + closes x t
closes x (_ ∷ t) = closes x t

-- Of every descriptor as many are open as devices in the table hold it.
abbrev pub IsBalanced : G → Type 0
IsBalanced g = (x : ℤ) → opens x g.trace ≡ closes x g.trace + tally (holds x) (live g)

-- What opening a path changes: a descriptor that is returned is open, one that is not is closed again,
-- and the table stays as it is.
pub record Opening (x : ℤ) (g : G) (out : ℤ × ℤ × G) : Type 0 where
  pub devices : out.2.devices ≡ g.devices
  pub ndevi : out.2.ndevi ≡ g.ndevi
  pub account :
      opens x out.2.trace + closes x g.trace
      ≡ opens x g.trace + closes x out.2.trace + (if is_neg out.0 then 0 else hits x out.0)

pub open_device_filtered-Opening :
    (e : Env) (path : List ℕ) (out_devid x : ℤ) (g : G)
    → Opening x g (open_device_filtered e path out_devid g)
unfolding open_device_filtered
open_device_filtered-Opening e path out_devid x g = ground arith

-- A descriptor that is not negative comes with the id that the path shows.
pub open_device_filtered-id :
    (e : Env) (path : List ℕ) (out_devid : ℤ) (g : G)
    → is_neg (open_device_filtered e path out_devid g).0 ≡ false
    → (open_device_filtered e path out_devid g).1 ≡ deduced_id path
unfolding open_device_filtered
open_device_filtered-id e path out_devid g h = ground arith

pub live-Opening : (x : ℤ) (g : G) (out : ℤ × ℤ × G) → Opening x g out → live out.2 ≡ live g
live-Opening x g out o = ap₂ take o.ndevi o.devices

-- An opening that failed keeps the account, and so does one whose device is added.
pub refused-IsBalanced :
    (g : G) (out : ℤ × ℤ × G)
    → ((x : ℤ) → Opening x g out)
    → is_neg out.0 ≡ true
    → IsBalanced g
    → IsBalanced out.2
refused-IsBalanced g out o neg b x =
    rw (live-Opening x g out (o x)) (ground (arith, (o x).account, b x))

pub added-IsBalanced :
    (g : G) (out : ℤ × ℤ × G) (id : ℤ) (path : List ℕ)
    → ((x : ℤ) → Opening x g out)
    → is_neg out.0 ≡ false
    → IsTable out.2
    → out.2.ndevi < max_devices
    → IsBalanced g
    → IsBalanced (add_device_fd out.0 id path out.2)
unfolding add_device_fd
added-IsBalanced g out id path o neg t room b x = omega (
  arith,
  rw neg at (o x).account,
  b x,
  ap (tally (holds x)) (live-add_device_fd out.0 id path out.2 t room),
  tally-append (holds x) (live out.2) (device out.0 id path ∷ []),
  ap (tally (holds x)) (live-Opening x g out (o x)),
)

-- Dropping a device closes its descriptor.
pub drop_at-IsBalanced :
    (i : ℕ) (g : G) → IsTable g → i < g.ndevi → IsBalanced g → IsBalanced (drop_at i g)
unfolding drop_at
drop_at-IsBalanced i g t h b x = omega (arith, tally-drop_at (holds x) i g t h, b x)

-- `remove_device_by_id` closes the descriptor of the device that it takes out, and nothing else.
pub remove_device_by_id-IsBalanced :
    (id : ℤ) (g : G) → IsTable g → IsBalanced g → IsBalanced (remove_device_by_id id g)
remove_device_by_id-IsBalanced id g t b = elim (remove_cases id g) [
  | inl (_, e) ↦ rw e b
  | inr (i, h, _, e) ↦ rw e (drop_at-IsBalanced i g t h b)
]

-- Asking the filter changes the trace by no opening and no closing.
passes-IsBalanced :
    (e : Env) (info : NiDeviceInfo) (g : G) → IsBalanced g → IsBalanced (passes e info g).1
unfolding passes
passes-IsBalanced e info g b x = ground (arith, b x)

pub table-passes :
    (e : Env) (info : NiDeviceInfo) (g : G)
    → ((passes e info g).1.devices ≡ g.devices) × ((passes e info g).1.ndevi ≡ g.ndevi)
unfolding passes
table-passes e info g = ground arith

passes-IsTable : (e : Env) (info : NiDeviceInfo) (g : G) → IsTable g → IsTable (passes e info g).1
passes-IsTable e info g t =
    omega (arith, ap length (table-passes e info g).0, (table-passes e info g).1)

-- What holds of a state whose filter was asked and of a state that drops device `i` too holds after
-- the body of the rescan loop.
pub close_one_cases {ℓ} :
    (P : G → Type ℓ) (e : Env) (i : ℕ) (g : G)
    → ((info : NiDeviceInfo) → P (passes e info g).1 × P (drop_at i (passes e info g).1))
    → P (close_one e i g)
unfolding close_one
close_one_cases P e i g h = by_test _ (h _)
  where
    by_test : (b : Bool) {s t : G} → P s × P t → P (if b then s else t)
    by_test true p = p.0
    by_test false p = p.1

close_one-IsBalanced :
    (e : Env) (i : ℕ) (g : G)
    → i < g.ndevi
    → IsTable g × IsBalanced g
    → IsTable (close_one e i g) × IsBalanced (close_one e i g)
close_one-IsBalanced e i g h (t, b) =
    close_one_cases (λ s. IsTable s × IsBalanced s) e i g
      λ info.
        let t' = passes-IsTable e info g t in
        let b' = passes-IsBalanced e info g b in
        (
          (t', b'),
          (
            drop_at-IsTable i _ t',
            drop_at-IsBalanced i _ t' (omega (arith, (table-passes e info g).1)) b',
          ),
        )

pub ndevi-close_one : (e : Env) (i : ℕ) (g : G) → g.ndevi ≤ suc (close_one e i g).ndevi
unfolding drop_at
ndevi-close_one e i g =
    close_one_cases (λ s. g.ndevi ≤ suc s.ndevi) e i g
      λ info. (omega (arith, (table-passes e info g).1), omega (arith, (table-passes e info g).1))

-- The rescan of `ni_set_device_filter` closes what it takes out of the table, and nothing else.
pub close_refused-IsBalanced :
    (e : Env) (k : ℕ) (g : G)
    → k ≤ g.ndevi
    → IsTable g × IsBalanced g
    → IsTable (close_refused e k g) × IsBalanced (close_refused e k g)
unfolding close_refused
close_refused-IsBalanced e zero g h tb = tb
close_refused-IsBalanced e (suc i) g h tb =
    close_refused-IsBalanced e i (close_one e i g) (omega (arith, ndevi-close_one e i g))
      (close_one-IsBalanced e i g h tb)
