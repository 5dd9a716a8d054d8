-- ===== src/Posix/Devices/Table.antt =====
-- The device table as a list: what each operation does to the open devices, in terms of sums over
-- them, so that the order in which `remove_device_by_id` compacts the array does not matter.
use asyncinput.Prelude.{
  ℕ, zero, suc, ◌+◌, ◌-◌, ◌<◌, ◌≤◌, ◌≡◌, refl, sym, ap, ◌∙◌, ◌⊎◌, inl, inr, false, List, [], ◌∷◌,
  ◌++◌, none, some, arith, length, length-set, get_or, take, Bool-cases, Option-cases,
}
use asyncinput.Prelude.Int.{ℤ, eqb_ℤ, eqb_ℤ→eq}
use asyncinput.Prelude.Tally.{tally, tally_move, take-set_end}
use asyncinput.Posix.{Device, blank_device, G, max_devices}
use asyncinput.Posix.Devices.{
  live, add_device_fd, index_of, drop_at, remove_device_by_id, holds_id, has_device_id,
}

-- The table has its 128 slots, and no more devices than slots.
pub record IsTable (g : G) : Type 0 where
  pub slots : length g.devices ≡ max_devices
  pub fits : g.ndevi ≤ max_devices

abbrev pub device : ℤ → ℤ → List ℕ → Device
device fd id path = record { fd = fd; id = id; path = take 127 path }

-- A new device goes behind the open ones.
pub live-add_device_fd :
    (fd id : ℤ) (path : List ℕ) (g : G)
    → IsTable g
    → g.ndevi < max_devices
    → live (add_device_fd fd id path g) ≡ live g ++ device fd id path ∷ []
unfolding add_device_fd
live-add_device_fd fd id path g t h =
    take-set_end g.devices g.ndevi (device fd id path) (omega arith)

pub add_device_fd-IsTable :
    (fd id : ℤ) (path : List ℕ) (g : G)
    → IsTable g
    → g.ndevi < max_devices
    → IsTable (add_device_fd fd id path g)
unfolding add_device_fd
add_device_fd-IsTable fd id path g t h =
    omega (arith, length-set g.devices g.ndevi (device fd id path))

pub drop_at-IsTable : (i : ℕ) (g : G) → IsTable g → IsTable (drop_at i g)
unfolding drop_at
drop_at-IsTable i g t =
    omega (arith, length-set g.devices i (get_or g.devices (g.ndevi - 1) blank_device))

-- Dropping a device takes it out of the open ones, and no other.
pub tally-drop_at :
    (w : Device → ℕ) (i : ℕ) (g : G)
    → IsTable g
    → i < g.ndevi
    → w (get_or g.devices i blank_device) + tally w (live (drop_at i g)) ≡ tally w (live g)
unfolding drop_at
tally-drop_at w i g t h =
    let last : g.ndevi ≡ suc (g.ndevi - 1) = omega arith in
    tally_move w g.devices (g.ndevi - 1) i blank_device (omega arith) (omega arith)
    ∙ ap (λ n. tally w (take n g.devices)) (sym last)

-- Where `index_of` finds an id, the id stands.
index_of-found :
    (id : ℤ) (k : ℕ) (ds : List Device) (n i : ℕ)
    → index_of id k (take n ds) ≡ some i
    → (j : ℕ) × (i ≡ k + j) × (j < n) × ((get_or ds j blank_device).id ≡ id)
unfolding index_of
index_of-found id k [] zero i h = absurd (cc)
index_of-found id k [] (suc n) i h = absurd (cc)
index_of-found id k (d ∷ ds) zero i h = absurd (cc)
index_of-found id k (d ∷ ds) (suc n) i h = elim (Bool-cases (eqb_ℤ d.id id)) [
  | inl hit ↦ (0, ground arith, omega arith, eqb_ℤ→eq d.id id hit)
  | inr miss ↦
      let (j, e, lt, there) = index_of-found id (k + 1) ds n i (rw miss at h) in
      (suc j, omega arith, omega arith, there)
]

-- Where it finds none, no open device has the id.
index_of-missing :
    (id : ℤ) (k : ℕ) (ds : List Device) → index_of id k ds ≡ none → holds_id id ds ≡ false
unfolding index_of holds_id
index_of-missing id k [] h = refl
index_of-missing id k (d ∷ ds) h = ground (arith, index_of-missing id (k + 1) ds)

-- `remove_device_by_id` drops a device of that id, or there is none.
pub remove_cases :
    (id : ℤ) (g : G)
    → ((has_device_id id g ≡ false) × (remove_device_by_id id g ≡ g))
      ⊎ ((i : ℕ) × (i < g.ndevi)
          × ((get_or g.devices i blank_device).id ≡ id)
          × (remove_device_by_id id g ≡ drop_at i g))
unfolding remove_device_by_id has_device_id
remove_cases id g = elim (Option-cases (index_of id 0 (live g))) [
  | inl e ↦ inl (index_of-missing id 0 (live g) e, rw (e, remove_device_by_id))
  | inr (i, e) ↦
      let (j, ij, lt, there) = index_of-found id 0 g.devices g.ndevi i e in
      let same : i ≡ j = omega arith in
      inr (i, omega arith, rw same there, rw (e, remove_device_by_id))
]
