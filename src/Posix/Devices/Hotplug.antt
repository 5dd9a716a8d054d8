-- ===== src/Posix/Devices/Hotplug.antt =====
-- Where the table of src/libasyncinput_posix.c goes wrong: removing a device out of order, a node that
-- is reported twice, a filter that asks for an id.
use asyncinput.Prelude.{
  ℕ, suc, ◌+◌, ◌-◌, ◌<◌, ◌≤◌, ◌≡◌, ◌≢◌, sym, ap, ◌∙◌, inl, inr, true, false, List, [], ◌∷◌, some,
  arith, if◌then◌else◌, length, length-set, get_or, get_or-set_self, get_or-set_ne, set, ℕ_discrete,
}
use asyncinput.Prelude.Int.{ℤ, pos, eqb_ℤ, eqb_ℤ→eq, eqb_ℤ_refl, is_neg, minus_one, of_Bool}
use asyncinput.Prelude.Tally.{tally, tally-append}
use asyncinput.Event.{NiDeviceInfo}
use asyncinput.Posix.{
  Device, blank_device, Env, G, Trace, Pointer, slot, null, max_devices, epoll_add, epoll_del,
  closed, opened,
}
use asyncinput.Posix.Paths.{deduced_id}
use asyncinput.Posix.Devices.{
  live, open_device_filtered, add_device_fd, drop_at, remove_device_by_id, has_device_id,
  fill_device_info, node_created, node_path,
}
use asyncinput.Posix.Devices.Table.{
  IsTable, device, remove_cases, add_device_fd-IsTable, live-add_device_fd, tally-drop_at,
}
use asyncinput.Posix.Devices.Ids.{has_id, has_device_id_iff, absent}
use asyncinput.Posix.Devices.Descriptors.{
  Opening, open_device_filtered-Opening, open_device_filtered-id, live-Opening,
}
use asyncinput.Posix.Devices.Epoll.{target, fd_at}

-- ≢ as the test that the code makes
ne→eqb_ℤ : (a b : ℤ) → a ≢ b → eqb_ℤ a b ≡ false
ne→eqb_ℤ a b h = ground (arith, eqb_ℤ→eq a b)

-- Registrations of other descriptors stay.
target-other :
    (t : Trace) (fd f : ℤ) (p : Pointer)
    → fd ≢ f
    → (target (epoll_add fd p ∷ t) f ≡ target t f)
      × (target (closed fd ∷ epoll_del fd ∷ t) f ≡ target t f)
target-other t fd f p h = ground (arith, ne→eqb_ℤ fd f h)

module _ (g : G) (i last : ℕ) (fd id : ℤ) (path : List ℕ) (table : IsTable g)
    (size : g.ndevi ≡ suc last) (inner : i < last) (gone : fd_at g i ≢ fd_at g last)
    (fresh : fd ≢ fd_at g last) where
  -- The last device moves into the gap at `i`; the next device added takes the slot that it left.
  swapped :
      let s = add_device_fd fd id path (drop_at i g) in
      (fd_at s i ≡ fd_at g last) × (fd_at s last ≡ fd) × (s.ndevi ≡ suc last)
  unfolding add_device_fd drop_at
  swapped = (
    ap (λ (d : Device). d.fd)
        (get_or-set_ne moved end i new blank_device (omega arith)
          ∙ get_or-set_self g.devices i (get_or g.devices end blank_device) blank_device
              (omega arith)
          ∙ ap (λ k. get_or g.devices k blank_device) at_end),
    ap (λ k. (get_or (set moved end new) k blank_device).fd) (sym at_end)
        ∙ ap (λ (d : Device). d.fd)
            (get_or-set_self moved end new blank_device
              (omega (arith, length-set g.devices i (get_or g.devices end blank_device)))),
    omega arith,
  )
    where
      end : ℕ
      end = g.ndevi - 1

      at_end : end ≡ last
      at_end = omega arith

      moved : List Device
      moved = set g.devices i (get_or g.devices end blank_device)

      new : Device
      new = device fd id path

  target-swapped :
      target (add_device_fd fd id path (drop_at i g)).trace (fd_at g last)
      ≡ target g.trace (fd_at g last)
  unfolding add_device_fd drop_at
  target-swapped =
      let dropped = closed (fd_at g i) ∷ epoll_del (fd_at g i) ∷ g.trace in
      (target-other dropped fd (fd_at g last) (slot (g.ndevi - 1)) fresh).0
      ∙ (target-other g.trace (fd_at g i) (fd_at g last) null gone).1

-- In a table with room for all its entries, whose last device has another id and another
-- descriptor than the device that is removed and is registered with its slot, a device is
-- removed, then a device with another descriptor is added. Epoll still gives the descriptor of
-- the last device the slot `last`, as before; but that slot now holds the new device, and the
-- last device stands in an inner slot. So for input on the one descriptor the worker reads the
-- other.
pub remove-add-misroutes :
    (g : G) (last : ℕ) (gone fd id : ℤ) (path : List ℕ)
    → IsTable g
    → g.ndevi ≡ suc last
    → has_device_id gone g ≡ true
    → (get_or g.devices last blank_device).id ≢ gone
    → ((j : ℕ) → j < last → fd_at g j ≢ fd_at g last)
    → fd ≢ fd_at g last
    → target g.trace (fd_at g last) ≡ some (slot last)
    → let s = add_device_fd fd id path (remove_device_by_id gone g) in
      (target s.trace (fd_at g last) ≡ some (slot last))
      × (fd_at s last ≡ fd)
      × ((i : ℕ) × (i < last) × (fd_at s i ≡ fd_at g last))
remove-add-misroutes g last gone fd id path t size here other apart fresh c =
    elim (remove_cases gone g) [
      | inl (missing, _) ↦ absurd (cc (here, missing))
      | inr (i, h, at, same) ↦
          let inner : i < last = elim (ℕ_discrete i last) [
            | yes e ↦ absurd (other (ap (λ k. (get_or g.devices k blank_device).id) (sym e) ∙ at))
            | no ne ↦ omega arith
          ] in
          let s = swapped g i last fd id path t size inner (apart i inner) fresh in
          rw same (
            target-swapped g i last fd id path t size inner (apart i inner) fresh ∙ c,
            s.1,
            (i, inner, s.0),
          )
    ]

node_created-added :
    (e : Env) (name : List ℕ) (g : G)
    → let out = open_device_filtered e (node_path name) minus_one g in
      is_neg out.0 ≡ false
      → node_created e name g
        ≡ add_device_fd out.0 (deduced_id (node_path name)) (node_path name) out.2
unfolding node_created
node_created-added e name g fine =
    rw (fine, node_created)
      (ap
        (λ id.
          add_device_fd (open_device_filtered e (node_path name) minus_one g).0 id (node_path name)
            (open_device_filtered e (node_path name) minus_one g).2)
        (open_device_filtered-id e (node_path name) minus_one g fine))

-- If a device of the id of a node stands in the table, which has room, and the node can be opened
-- and passes the filter, then a report of its creation adds it once more, and one removal of that
-- id leaves a device of that id in the table.
pub node_created-duplicates :
    (e : Env) (name : List ℕ) (g : G)
    → IsTable g
    → g.ndevi < max_devices
    → is_neg (open_device_filtered e (node_path name) minus_one g).0 ≡ false
    → has_device_id (deduced_id (node_path name)) g ≡ true
    → let id = deduced_id (node_path name) in
      let s = node_created e name g in
      (tally (has_id id) (live s) ≡ tally (has_id id) (live g) + 1)
      × (has_device_id id (remove_device_by_id id s) ≡ true)
node_created-duplicates e name g t room fine here = (
  twice,
  (has_device_id_iff id (remove_device_by_id id s)).1 (elim (remove_cases id s) [
    | inl (missing, _) ↦ absurd (omega (arith, absent id s missing, twice))
    | inr (i, h, _, same) ↦ rw same (
        omega (
          arith,
          tally-drop_at (has_id id) i s table h,
          twice,
          (has_device_id_iff id g).0 here,
          has_id-le (get_or s.devices i blank_device),
        ))
  ]),
)
  where
    id : ℤ
    id = deduced_id (node_path name)

    out : ℤ × ℤ × G
    out = open_device_filtered e (node_path name) minus_one g

    s : G
    s = node_created e name g

    kept : Opening (pos 0) g out
    kept = open_device_filtered-Opening e (node_path name) minus_one (pos 0) g

    added : s ≡ add_device_fd out.0 id (node_path name) out.2
    added = node_created-added e name g fine

    table : IsTable s
    table = rw added (
        add_device_fd-IsTable out.0 id (node_path name) out.2
          (omega (arith, ap length kept.devices, kept.ndevi)) (omega (arith, kept.ndevi)))

    one : has_id id (device out.0 id (node_path name)) ≡ 1
    one = ap (λ b. if b then 1 else 0) (eqb_ℤ_refl id)

    has_id-le : (d : Device) → has_id id d ≤ 1
    has_id-le d = ground arith

    twice : tally (has_id id) (live s) ≡ tally (has_id id) (live g) + 1
    twice = omega (
      arith,
      ap (λ t. tally (has_id id) (live t)) added,
      ap (tally (has_id id)) (
          live-add_device_fd out.0 id (node_path name) out.2
            (omega (arith, ap length kept.devices, kept.ndevi)) (omega (arith, kept.ndevi))),
      tally-append (has_id id) (live out.2) (device out.0 id (node_path name) ∷ []),
      ap (tally (has_id id)) (live-Opening (pos 0) g out kept),
      one,
    )

id-fill_device_info :
    (e : Env) (t : Trace) (fd : ℤ) (path : List ℕ) → (fill_device_info e t fd path).id ≡ pos 0
unfolding fill_device_info
id-fill_device_info e t fd path = ground arith

-- With a filter that accepts exactly one id, other than 0, every attempt to open a device returns
-- -1 and leaves the caller's id as it is, whatever the path, since the filter is shown the id 0.
pub filter_by_id_refuses :
    (e : Env) (path : List ℕ) (out_devid wanted : ℤ) (f : ℕ) (g : G)
    → g.filter ≡ some f
    → ((t : Trace) (user : ℕ) (info : NiDeviceInfo)
        → e.filter t f user info ≡ of_Bool (eqb_ℤ info.id wanted))
    → wanted ≢ pos 0
    → ((open_device_filtered e path out_devid g).0 ≡ minus_one)
      × ((open_device_filtered e path out_devid g).1 ≡ out_devid)
unfolding open_device_filtered
filter_by_id_refuses e path out_devid wanted f g set by_id other = ground (
  arith,
  by_id (opened path (e.open_path g.trace path) ∷ g.trace) g.filter_user (
      fill_device_info e (opened path (e.open_path g.trace path) ∷ g.trace)
        (e.open_path g.trace path) path),
  id-fill_device_info e (opened path (e.open_path g.trace path) ∷ g.trace)
      (e.open_path g.trace path) path,
  ne→eqb_ℤ (pos 0) wanted (λ h. other (sym h)),
)
