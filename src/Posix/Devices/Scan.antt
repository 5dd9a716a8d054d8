-- ===== src/Posix/Devices/Scan.antt =====
-- `scan_devices` opens no node twice and never writes behind the 128 slots of the table.
use asyncinput.Prelude.{
  ℕ, zero, suc, ◌+◌, ◌<◌, ◌≤◌, ◌≡◌, refl, ◌⊎◌, inl, inr, true, false, arith, length-replicate,
  Bool-cases,
}
use asyncinput.Prelude.Int.{ℤ, pos, is_neg, minus_one}
use asyncinput.Posix.{blank_device, Env, G, max_devices, zeroed, Trace}
use asyncinput.Posix.Paths.{event_path, deduced_id-event_path}
use asyncinput.Posix.Devices.{
  live, has_device_id, open_device_filtered, add_device_fd, remove_device_by_id, scan_one,
  scan_from, scan_devices, close_one, close_refused,
}
use asyncinput.Posix.Devices.Ids.{
  IsScanned, room, added-IsScanned, IsScanned-same, drop_at-IsScanned,
}
use asyncinput.Posix.Devices.Table.{remove_cases}
use asyncinput.Posix.Devices.Descriptors.{
  IsBalanced, Opening, open_device_filtered-Opening, open_device_filtered-id, refused-IsBalanced,
  added-IsBalanced, close_one_cases, table-passes, live-Opening, drop_at-IsBalanced,
  ndevi-close_one, close_refused-IsBalanced, opens, closes,
}

-- the attempt of round `i` to open a node
abbrev pub attempt : Env → ℕ → G → ℤ × ℤ × G
attempt e i g = open_device_filtered e (event_path i) minus_one g

-- What one round of the scan does: nothing where the id is in the table, else an attempt, and a new
-- device of id `i` if that gives a descriptor.
pub scan_one_cases :
    (e : Env) (i : ℕ) (g : G)
    → i < 128
    → ((has_device_id (pos i) g ≡ true) × (scan_one e i g ≡ g))
      ⊎ ((has_device_id (pos i) g ≡ false)
          × (is_neg (attempt e i g).0 ≡ true)
          × (scan_one e i g ≡ (attempt e i g).2))
      ⊎ ((has_device_id (pos i) g ≡ false)
          × (is_neg (attempt e i g).0 ≡ false)
          × (scan_one e i g
              ≡ add_device_fd (attempt e i g).0 (pos i) (event_path i) (attempt e i g).2))
unfolding scan_one
scan_one_cases e i g h = elim (Bool-cases (has_device_id (pos i) g)) [
  | inl here ↦ inl (here, rw (here, scan_one))
  | inr gone ↦ elim (Bool-cases (is_neg (attempt e i g).0)) [
    | inl neg ↦ inr (inl (gone, neg, rw (gone, scan_one) (rw neg)))
    | inr fine ↦ inr (
        inr (
          gone,
          fine,
          rw (gone, scan_one)
              (rw fine (
                rw (open_device_filtered-id e (event_path i) minus_one g fine)
                  (rw (deduced_id-event_path i h)))),
        ))
  ]
]

-- the two things that a scan keeps
abbrev pub IsSound : G → Type 0
IsSound g = IsScanned g × IsBalanced g

live-attempt : (e : Env) (i : ℕ) (g : G) → live (attempt e i g).2 ≡ live g
live-attempt e i g =
    live-Opening (pos 0) g _ (open_device_filtered-Opening e (event_path i) minus_one (pos 0) g)

pub attempt-IsScanned : (e : Env) (i : ℕ) (g : G) → IsScanned g → IsScanned (attempt e i g).2
attempt-IsScanned e i g =
    let o = open_device_filtered-Opening e (event_path i) minus_one (pos 0) g in
    IsScanned-same g _ o.devices o.ndevi

pub attempt-missing :
    (e : Env) (i : ℕ) (g : G)
    → has_device_id (pos i) g ≡ false
    → has_device_id (pos i) (attempt e i g).2 ≡ false
unfolding has_device_id
attempt-missing e i g h = rw (live-attempt e i g) h

pub scan_one-IsSound : (e : Env) (i : ℕ) (g : G) → i < 128 → IsSound g → IsSound (scan_one e i g)
scan_one-IsSound e i g h (s, b) = elim (scan_one_cases e i g h) [
  | inl (_, same) ↦ rw same (s, b)
  | inr (inl (_, neg, same)) ↦
      rw same (attempt-IsScanned e i g s, refused-IsBalanced g _ opening neg b)
  | inr (inr (gone, fine, same)) ↦
      let s' = attempt-IsScanned e i g s in
      let gone' = attempt-missing e i g gone in
      rw same (
        added-IsScanned _ i (event_path i) _ s' gone' h,
        added-IsBalanced g _ (pos i) (event_path i) opening fine s'.table (room i _ s' gone' h) b,
      )
]
  where
    opening : (x : ℤ) → Opening x g (attempt e i g)
    opening x = open_device_filtered-Opening e (event_path i) minus_one x g

scan_from-IsSound :
    (e : Env) (k i : ℕ) (g : G) → i + k ≤ 128 → IsSound g → IsSound (scan_from e k i g)
unfolding scan_from
scan_from-IsSound e zero i g h s = s
scan_from-IsSound e (suc k) i g h s =
    scan_from-IsSound e k (i + 1) (scan_one e i g) (omega arith)
      (scan_one-IsSound e i g (omega arith) s)

-- If the ids in the table are distinct numbers below 128 and the open descriptors are those of the
-- table, then a scan keeps both, and the table never overflows, whatever `open` and the filter say.
pub scan_devices-IsSound : (e : Env) (g : G) → IsSound g → IsSound (scan_devices e g)
unfolding scan_devices
scan_devices-IsSound e g s = scan_from-IsSound e max_devices 0 g (omega arith) s

-- If the ids in the table are distinct numbers below 128 and the open descriptors are those of
-- the table, then removing the device of an id, as for a node that inotify reports as deleted,
-- keeps both, whether the id is in the table or not.
remove_device_by_id-IsSound : (id : ℤ) (g : G) → IsSound g → IsSound (remove_device_by_id id g)
remove_device_by_id-IsSound id g (s, b) = elim (remove_cases id g) [
  | inl (_, same) ↦ rw same (s, b)
  | inr (i, h, _, same) ↦ rw same (drop_at-IsScanned i g s h, drop_at-IsBalanced i g s.table h b)
]

close_one-IsScanned :
    (e : Env) (i : ℕ) (g : G) → i < g.ndevi → IsScanned g → IsScanned (close_one e i g)
close_one-IsScanned e i g h s = close_one_cases IsScanned e i g λ info.
    let same = table-passes e info g in
    let s' = IsScanned-same g _ same.0 same.1 s in
    (s', drop_at-IsScanned i _ s' (omega (arith, same.1)))

close_refused-IsScanned :
    (e : Env) (k : ℕ) (g : G) → k ≤ g.ndevi → IsScanned g → IsScanned (close_refused e k g)
unfolding close_refused
close_refused-IsScanned e zero g h s = s
close_refused-IsScanned e (suc i) g h s =
    close_refused-IsScanned e i (close_one e i g) (omega (arith, ndevi-close_one e i g))
      (close_one-IsScanned e i g h s)

-- So does closing the devices that a new filter refuses.
pub close_refused-IsSound : (e : Env) (g : G) → IsSound g → IsSound (close_refused e g.ndevi g)
close_refused-IsSound e g (s, b) = (
  close_refused-IsScanned e g.ndevi g (omega arith) s,
  (close_refused-IsBalanced e g.ndevi g (omega arith) (s.table, b)).1,
)

-- A fresh table is sound if no descriptor of an event device is open.
pub zeroed-IsSound : (t : Trace) → ((x : ℤ) → opens x t ≡ closes x t) → IsSound (zeroed t)
unfolding zeroed
zeroed-IsSound t h = (
  record {
    table = record { slots = length-replicate max_devices blank_device; fits = omega arith };
    distinct = λ x. omega arith;
    known = refl;
  },
  λ x. omega (arith, h x),
)
