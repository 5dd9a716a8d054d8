-- ===== src/Posix/Devices/Ids.antt =====
-- Device ids. While they are distinct numbers below 128, the 128 slots suffice: an id that is missing
-- leaves a slot free.
use asyncinput.Prelude.{
  ℕ, zero, suc, ◌+◌, ◌<◌, ◌≤◌, ◌≡◌, refl, ap, ap₂, inl, inr, false, true, ◌↔◌, List, [], ◌∷◌, ◌++◌,
  arith, ltb, if◌then◌else◌, length, length-take, take, Bool-cases, ℕ_discrete, lt→ltb,
}
use asyncinput.Prelude.Int.{ℤ, pos, negsuc, eqb_ℤ, eqb_ℤ→eq}
use asyncinput.Prelude.Tally.{tally, tally-append}
use asyncinput.Posix.{Device, G, max_devices}
use asyncinput.Posix.Devices.{live, holds_id, has_device_id, add_device_fd, drop_at}
use asyncinput.Posix.Devices.Table.{
  IsTable, device, live-add_device_fd, add_device_fd-IsTable, tally-drop_at, drop_at-IsTable,
}

-- 1 if the device has the id `x`
abbrev pub has_id : ℤ → Device → ℕ
has_id x d = if eqb_ℤ d.id x then 1 else 0

-- 1 if the id is none of 0, …, n - 1
abbrev pub stray_id : ℕ → ℤ → ℕ
stray_id n (pos m) = if ltb m n then 0 else 1
stray_id n (negsuc m) = 1

abbrev pub stray : ℕ → Device → ℕ
stray n d = stray_id n d.id

pub record IsScanned (g : G) : Type 0 where
  pub table : IsTable g
  pub distinct : (x : ℤ) → tally (has_id x) (live g) ≤ 1
  pub known : tally (stray max_devices) (live g) ≡ 0

-- how many of the devices have an id below `n`
abbrev known_below : ℕ → List Device → ℕ
known_below zero ds = 0
known_below (suc n) ds = tally (has_id (pos n)) ds + known_below n ds

stray-zero : (ds : List Device) → tally (stray 0) ds ≡ length ds
stray-zero [] = refl
stray-zero (d ∷ ds) = ground (arith, stray-zero ds)

stray-suc :
    (n : ℕ) (ds : List Device)
    → tally (stray n) ds ≡ tally (has_id (pos n)) ds + tally (stray (suc n)) ds
stray-suc n [] = omega arith
stray-suc n (d ∷ ds) = ground (arith, stray-suc n ds)

length-known_below : (n : ℕ) (ds : List Device) → length ds ≡ known_below n ds + tally (stray n) ds
length-known_below zero ds = omega (arith, stray-zero ds)
length-known_below (suc n) ds = omega (arith, length-known_below n ds, stray-suc n ds)

known_below-le :
    (n : ℕ) (ds : List Device) → ((x : ℤ) → tally (has_id x) ds ≤ 1) → known_below n ds ≤ n
known_below-le zero ds h = omega arith
known_below-le (suc n) ds h = omega (arith, known_below-le n ds h, h (pos n))

known_below-lt :
    (n i : ℕ) (ds : List Device)
    → ((x : ℤ) → tally (has_id x) ds ≤ 1)
    → tally (has_id (pos i)) ds ≡ 0
    → i < n
    → known_below n ds < n
known_below-lt zero i ds h e lt = elim lt [ ]
known_below-lt (suc n) i ds h e lt = elim (ℕ_discrete i n) [
  | yes same ↦
      let gone : tally (has_id (pos n)) ds ≡ 0 = rw (← same) e in
      omega (arith, known_below-le n ds h)
  | no other ↦ omega (arith, known_below-lt n i ds h e (omega arith), h (pos n))
]

-- `has_device_id` counts.
missing : (id : ℤ) (ds : List Device) → holds_id id ds ≡ false → tally (has_id id) ds ≡ 0
unfolding holds_id
missing id [] h = refl
missing id (d ∷ ds) h = ground (arith, missing id ds)

-- Where an id below 128 is not in the table, a slot is free.
pub room :
    (i : ℕ) (g : G)
    → IsScanned g
    → has_device_id (pos i) g ≡ false
    → i < max_devices
    → g.ndevi < max_devices
unfolding has_device_id
room i g s h lt = omega (
  arith,
  known_below-lt max_devices i (live g) s.distinct (missing (pos i) (live g) h) lt,
  length-known_below max_devices (live g),
  s.known,
  length-take g.ndevi g.devices,
  s.table.slots,
  s.table.fits,
)

pub absent : (id : ℤ) (g : G) → has_device_id id g ≡ false → tally (has_id id) (live g) ≡ 0
unfolding has_device_id
absent id g h = missing id (live g) h

-- `IsScanned` is about the table only.
pub IsScanned-same :
    (g s : G) → s.devices ≡ g.devices → s.ndevi ≡ g.ndevi → IsScanned g → IsScanned s
IsScanned-same g s d n h = record {
  table = omega (arith, ap length d);
  distinct = λ x. rw (ap₂ take n d) (h.distinct x);
  known = rw (ap₂ take n d) h.known;
}

-- A device whose id is missing and below 128 may be added.
pub added-IsScanned :
    (fd : ℤ) (i : ℕ) (path : List ℕ) (g : G)
    → IsScanned g
    → has_device_id (pos i) g ≡ false
    → i < max_devices
    → IsScanned (add_device_fd fd (pos i) path g)
added-IsScanned fd i path g s gone h = record {
  table = add_device_fd-IsTable fd (pos i) path g s.table (room i g s gone h);
  distinct = λ x. rw grown (omega (arith, tally-append (has_id x) (live g) (dev ∷ []), once x));
  known =
      rw grown
        (omega (arith, tally-append (stray max_devices) (live g) (dev ∷ []), s.known, inside));
}
  where
    dev : Device
    dev = device fd (pos i) path

    grown : live (add_device_fd fd (pos i) path g) ≡ live g ++ dev ∷ []
    grown = live-add_device_fd fd (pos i) path g s.table (room i g s gone h)

    inside : stray max_devices dev ≡ 0
    inside = rw (lt→ltb i max_devices h)

    once : (x : ℤ) → tally (has_id x) (live g) + has_id x dev ≤ 1
    once x = elim (Bool-cases (eqb_ℤ (pos i) x)) [
      | inl e ↦
          let same : pos i ≡ x = eqb_ℤ→eq (pos i) x e in
          rw e (omega (arith, ap (λ y. tally (has_id y) (live g)) same, absent (pos i) g gone))
      | inr e ↦ rw e (omega (arith, s.distinct x))
    ]

-- So may any device be taken out.
pub drop_at-IsScanned : (i : ℕ) (g : G) → IsScanned g → i < g.ndevi → IsScanned (drop_at i g)
drop_at-IsScanned i g s h = record {
  table = drop_at-IsTable i g s.table;
  distinct = λ x. omega (arith, tally-drop_at (has_id x) i g s.table h, s.distinct x);
  known = omega (arith, tally-drop_at (stray max_devices) i g s.table h, s.known);
}

present : (id : ℤ) (ds : List Device) → holds_id id ds ≡ true → 1 ≤ tally (has_id id) ds
unfolding holds_id
present id [] h = absurd (cc)
present id (d ∷ ds) h = ground (arith, present id ds)

-- An id is in the table exactly if a device of that id is counted.
pub has_device_id_iff :
    (id : ℤ) (g : G) → (has_device_id id g ≡ true) ↔ (1 ≤ tally (has_id id) (live g))
unfolding has_device_id
has_device_id_iff id g = (
  present id (live g),
  λ h. elim (Bool-cases (holds_id id (live g))) [
    | inl e ↦ e
    | inr e ↦ absurd (omega (arith, missing id (live g) e))
  ],
)
