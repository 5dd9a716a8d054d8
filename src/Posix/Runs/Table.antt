-- ===== src/Posix/Runs/Table.antt =====
-- The device table of src/libasyncinput_posix.c over whole runs: as long as it has room for what is added,
-- the open descriptors are those of the table.
use asyncinput.Prelude.{
  Option, none, some, ℕ, zero, suc, ◌+◌, ◌<◌, ◌≤◌, ◌≡◌, refl, sym, ap, ◌∙◌, inl, inr, List, [], ◌∷◌,
  Bool, true, false, ◌&&◌, ◌||◌, arith, length, by_if, ltb, if◌then◌else◌, drop,
}
use asyncinput.Prelude.Int.{ℤ, is_neg, minus_one, nonzero, pos}
use asyncinput.Event.{NiDeviceInfo}
use asyncinput.Posix.{Env, G, filtered, log, max_devices, now_ns, clock_read}
use asyncinput.Posix.Paths.{event_path, atoi}
use asyncinput.Posix.Devices.{
  has_device_id, passes, close_one, drop_at, InotifyEvent, open_device_filtered, add_device_fd,
  scan_one, scan_from, scan_devices, node_path, node_created, remove_device_by_id, handle_one,
  handle_inotify_event, close_refused, names_event,
}
use asyncinput.Posix.Devices.Table.{IsTable, add_device_fd-IsTable, remove_cases, drop_at-IsTable}
use asyncinput.Posix.Devices.Descriptors.{
  IsBalanced, Opening, open_device_filtered-Opening, refused-IsBalanced, added-IsBalanced,
  drop_at-IsBalanced, close_one_cases, ndevi-close_one,
}
use asyncinput.Posix.Quiet.{
  Quiet, Quiet-refl, Quiet-same, Quiet-log, Quiet-trans, fits, IsTable-Quiet, IsBalanced-Quiet,
}

-- The table has its slots, and the open descriptors are those of its devices.
pub record IsAccounted (g : G) : Type 0 where
  pub table : IsTable g
  pub balance : IsBalanced g

-- If no device was registered behind the array after an operation, then none was before it, and the
-- operation keeps the account.
pub record Keeps (g s : G) : Type 0 where
  pub before : fits s.trace ≡ true → fits g.trace ≡ true
  pub account : fits s.trace ≡ true → IsAccounted g → IsAccounted s

pub Keeps-trans : (g s t : G) → Keeps g s → Keeps s t → Keeps g t
Keeps-trans g s t p q = record {
  before = λ h. p.before (q.before h);
  account = λ h a. q.account h (p.account (q.before h) a);
}

pub Keeps-Quiet : (g s : G) → Quiet g s → Keeps g s
Keeps-Quiet g s q = record {
  before = λ h. sym q.fits_same ∙ h;
  account = λ h a. record {
    table = IsTable-Quiet g s q a.table;
    balance = IsBalanced-Quiet g s q a.balance;
  };
}

pub Keeps-refl : (g : G) → Keeps g g
Keeps-refl g = record { before = λ h. h; account = λ h a. a }

both : (a b : Bool) → (a && b) ≡ true → (a ≡ true) × (b ≡ true)
both a b h = ground arith

open_device_filtered-fits :
    (e : Env) (path : List ℕ) (out_devid : ℤ) (g : G)
    → fits (open_device_filtered e path out_devid g).2.trace ≡ fits g.trace
unfolding open_device_filtered
open_device_filtered-fits e path out_devid g = ground arith

opened-IsTable : (g : G) (out : ℤ × ℤ × G) → Opening minus_one g out → IsTable g → IsTable out.2
opened-IsTable g out o t = omega (arith, ap length o.devices, o.ndevi)

-- What an attempt to open a path leaves: refused, or added to the table.
module _ (e : Env) (path : List ℕ) (g : G) where
  opening : (x : ℤ) → Opening x g (open_device_filtered e path minus_one g)
  opening x = open_device_filtered-Opening e path minus_one x g

  refused-Keeps :
      is_neg (open_device_filtered e path minus_one g).0 ≡ true
      → Keeps g (open_device_filtered e path minus_one g).2
  refused-Keeps neg =
      let same = open_device_filtered-fits e path minus_one g in
      record {
        before = λ h. sym same ∙ h;
        account = λ h a. record {
          table = opened-IsTable g _ (opening minus_one) a.table;
          balance = refused-IsBalanced g _ opening neg a.balance;
        };
      }

  added-Keeps :
      (id : ℤ)
      → is_neg (open_device_filtered e path minus_one g).0 ≡ false
      → Keeps g (
          add_device_fd
            (open_device_filtered e path minus_one g).0
            id
            path
            (open_device_filtered e path minus_one g).2)
  unfolding add_device_fd
  added-Keeps id fine =
      let out = open_device_filtered e path minus_one g in
      let same = open_device_filtered-fits e path minus_one g in
      let room = λ (h : (ltb out.2.ndevi max_devices && fits out.2.trace) ≡ true).
        both (ltb out.2.ndevi max_devices) (fits out.2.trace) h in
      record {
        before = λ h. sym same ∙ (room h).1;
        account = λ h a.
            let t = opened-IsTable g out (opening minus_one) a.table in
            let lt : out.2.ndevi < max_devices = ground (arith, (room h).0) in
            record {
              table = add_device_fd-IsTable out.0 id path out.2 t lt;
              balance = added-IsBalanced g out id path opening fine t lt a.balance;
            };
      }

pub scan_one-Keeps : (e : Env) (i : ℕ) (g : G) → Keeps g (scan_one e i g)
unfolding scan_one
scan_one-Keeps e i g =
    let out = open_device_filtered e (event_path i) minus_one g in
    by_if (Keeps g) (has_device_id (pos i) g) _ _ (λ _. Keeps-refl g)
      (λ _.
        by_if (Keeps g) (is_neg out.0) _ _ (refused-Keeps e (event_path i) g)
          (added-Keeps e (event_path i) g (if is_neg out.1 then pos i else out.1)))

scan_from-Keeps : (e : Env) (k i : ℕ) (g : G) → Keeps g (scan_from e k i g)
unfolding scan_from
scan_from-Keeps e zero i g = Keeps-refl g
scan_from-Keeps e (suc k) i g =
    Keeps-trans g (scan_one e i g) _ (scan_one-Keeps e i g)
      (scan_from-Keeps e k (i + 1) (scan_one e i g))

pub scan_devices-Keeps : (e : Env) (g : G) → Keeps g (scan_devices e g)
unfolding scan_devices
scan_devices-Keeps e g = scan_from-Keeps e max_devices 0 g

node_created-Keeps : (e : Env) (name : List ℕ) (g : G) → Keeps g (node_created e name g)
unfolding node_created now_ns
node_created-Keeps e name g =
    let out = open_device_filtered e (node_path name) minus_one g in
    let g' = log clock_read out.2 in
    by_if (Keeps g) (is_neg out.0) _ _
      (λ neg. Keeps-trans g out.2 _ (refused-Keeps e (node_path name) g neg) (
        Keeps-Quiet out.2 _ (
          Quiet-trans out.2 g' _ (Quiet-log clock_read out.2 tt) (Quiet-same g' _ refl refl refl))))
      (added-Keeps e (node_path name) g out.1)

drop_at-Keeps : (i : ℕ) (g : G) → i < g.ndevi → Keeps g (drop_at i g)
unfolding drop_at
drop_at-Keeps i g lt = record {
  before = λ h. h;
  account = λ h a. record {
    table = drop_at-IsTable i g a.table;
    balance = drop_at-IsBalanced i g a.table lt a.balance;
  };
}

remove_device_by_id-Keeps : (id : ℤ) (g : G) → Keeps g (remove_device_by_id id g)
remove_device_by_id-Keeps id g = elim (remove_cases id g) [
  | inl (_, same) ↦ rw same (Keeps-refl g)
  | inr (i, lt, _, same) ↦ rw same (drop_at-Keeps i g lt)
]

handle_one-Keeps : (e : Env) (ie : InotifyEvent) (g : G) → Keeps g (handle_one e ie g)
unfolding handle_one
handle_one-Keeps e ie g =
    let named = ltb 0 ie.len && names_event ie.name in
    let made = (ie.create || ie.moved_to) && named in
    let g' = if made then node_created e ie.name g else g in
    let first =
      by_if (Keeps g) made _ _ (λ _. node_created-Keeps e ie.name g) (λ _. Keeps-refl g) in
    by_if (Keeps g) (ie.delete && named) _ _
      (λ _. Keeps-trans g g' _ first (remove_device_by_id-Keeps (atoi (drop 5 ie.name)) g'))
      (λ _. first)

pub handle_inotify_event-Keeps :
    (e : Env) (ies : List InotifyEvent) (g : G) → Keeps g (handle_inotify_event e ies g)
unfolding handle_inotify_event
handle_inotify_event-Keeps e [] g = Keeps-refl g
handle_inotify_event-Keeps e (ie ∷ ies) g =
    Keeps-trans g (handle_one e ie g) _ (handle_one-Keeps e ie g)
      (handle_inotify_event-Keeps e ies (handle_one e ie g))

passes-Quiet : (e : Env) (info : NiDeviceInfo) (g : G) → Quiet g (passes e info g).1
unfolding passes
passes-Quiet e info g = asked g.filter
  where
    answer : Option ℕ → Bool × G
    answer none = (true, g)
    answer (some f) =
        (nonzero (e.filter g.trace f g.filter_user info), log (filtered f g.filter_user info) g)

    asked : (o : Option ℕ) → Quiet g (answer o).1
    asked none = Quiet-refl g
    asked (some f) = Quiet-log (filtered f g.filter_user info) g tt

-- A round closes a device that stands in the table, and the table loses one device at most.
close_one-Keeps : (e : Env) (i : ℕ) (g : G) → i < g.ndevi → Keeps g (close_one e i g)
close_one-Keeps e i g lt = close_one_cases (Keeps g) e i g (λ info.
    let g' = (passes e info g).1 in
    let q = passes-Quiet e info g in
    (
      Keeps-Quiet g g' q,
      Keeps-trans g g' _ (Keeps-Quiet g g' q) (drop_at-Keeps i g' (omega (arith, lt, q.ndevi))),
    ))

pub close_refused-Keeps : (e : Env) (k : ℕ) (g : G) → k ≤ g.ndevi → Keeps g (close_refused e k g)
unfolding close_refused
close_refused-Keeps e zero g h = Keeps-refl g
close_refused-Keeps e (suc i) g h =
    Keeps-trans g (close_one e i g) _ (close_one-Keeps e i g (omega arith))
      (close_refused-Keeps e i (close_one e i g) (omega (arith, ndevi-close_one e i g)))
