-- ===== src/Posix/Devices.antt =====
-- The device table of src/libasyncinput_posix.c: `g.devices[0 .. g.ndevi)`.
pub mod Table
pub mod Frame
pub mod Descriptors
pub mod Ids
pub mod Scan
pub mod Epoll
pub mod Hotplug
mod Tests
use asyncinput.Prelude.{
  ℕ, zero, suc, ◌+◌, ◌-◌, Bool, true, false, List, [], ◌∷◌, ◌++◌, Option, none, some, ltb, ◌&&◌,
  ◌||◌, ◌==◌, if◌then◌else◌, length, get_or, set, take, drop,
}
use asyncinput.Prelude.Int.{ℤ, pos, ◌+ℤ◌, is_neg, minus_one, eqb_ℤ, nonzero}
use asyncinput.Event.{NiDeviceInfo}
use asyncinput.Posix.{
  Device, blank_device, InputId, Env, G, Trace, log, now_ns, max_devices, slot, opened, closed,
  filtered, epoll_add, epoll_del,
}
use asyncinput.Posix.Paths.{codes, event_path, deduced_id, atoi}

-- the devices that are open
abbrev pub live : G → List Device
live g = take g.ndevi g.devices

-- EVIOCGID fills the four numbers if it succeeds; else they stay 0.
abbrev pub with_id : Option InputId → NiDeviceInfo → NiDeviceInfo
with_id none info = info
with_id (some i) info = record info {
  bustype = i.bustype;
  vendor = i.vendor;
  product = i.product;
  version = i.version;
}

abbrev pub with_name : Option (List ℕ) → NiDeviceInfo → NiDeviceInfo
with_name none info = info
with_name (some n) info = record info { name = take 255 n }

-- It starts with `memset(out, 0, sizeof(*out))`, so what `out` held does not matter.
unfoldable pub fill_device_info : Env → Trace → ℤ → List ℕ → NiDeviceInfo
fill_device_info e t fd path = with_name (e.input_name t fd) (
    with_id (e.input_id t fd) (record {
      id = pos 0;
      path = take 127 path;
      bustype = 0;
      vendor = 0;
      product = 0;
      version = 0;
      name = [];
    }))

-- `g.filter ? g.filter(&info, g.filter_user) : 1`
unfoldable pub passes : Env → NiDeviceInfo → G → Bool × G
passes e info g = elim g.filter [
  | none ↦ (true, g)
  | some f ↦
      (nonzero (e.filter g.trace f g.filter_user info), log (filtered f g.filter_user info) g)
]

-- The descriptor or -1, what stands in `*out_devid` then, and the state. `info.id` is set before
-- `fill_device_info` and lost there.
unfoldable pub open_device_filtered : Env → List ℕ → ℤ → G → ℤ × ℤ × G
unfolding passes fill_device_info
open_device_filtered e path out_devid g =
    let devid = deduced_id path in
    let fd = e.open_path g.trace path in
    let g' = log (opened path fd) g in
    if is_neg fd
    then (minus_one, out_devid, g')
    else let (keep, g'') = passes e (fill_device_info e g'.trace fd path) g' in
      if keep then (fd, devid, g'') else (minus_one, out_devid, log (closed fd) g'')

holds_id : ℤ → List Device → Bool
holds_id id [] = false
holds_id id (d ∷ ds) = eqb_ℤ d.id id || holds_id id ds

unfoldable pub has_device_id : ℤ → G → Bool
unfolding holds_id
has_device_id id g = holds_id id (live g)

-- There is no test of `ndevi` against MAX_DEVICES. At 128 devices the C code writes behind the
-- array; here that write changes nothing.
unfoldable pub add_device_fd : ℤ → ℤ → List ℕ → G → G
add_device_fd fd devid path g =
    let dev : Device = record { fd = fd; id = devid; path = take 127 path } in
    log (epoll_add fd (slot g.ndevi))
      (record g { devices = set g.devices g.ndevi dev; ndevi = g.ndevi + 1 })

-- the first index at which the id stands, counted from `i`
index_of : ℤ → ℕ → List Device → Option ℕ
index_of id i [] = none
index_of id i (d ∷ ds) = if eqb_ℤ d.id id then some i else index_of id (i + 1) ds

-- `epoll_ctl(DEL)`, `close`, `g.devices[i] = g.devices[g.ndevi-1]`, `g.ndevi--`
unfoldable pub drop_at : ℕ → G → G
drop_at i g =
    let fd = (get_or g.devices i blank_device).fd in
    log (closed fd) (
      log (epoll_del fd) (record g {
        devices = set g.devices i (get_or g.devices (g.ndevi - 1) blank_device);
        ndevi = g.ndevi - 1;
      }))

unfoldable pub remove_device_by_id : ℤ → G → G
unfolding index_of drop_at
remove_device_by_id devid g = elim (index_of devid 0 (live g)) [ none ↦ g | some i ↦ drop_at i g ]

-- the body of the loop of `scan_devices`
unfoldable pub scan_one : Env → ℕ → G → G
unfolding has_device_id open_device_filtered add_device_fd
scan_one e i g =
    if has_device_id (pos i) g
    then g
    else let (fd, devid, g') = open_device_filtered e (event_path i) minus_one g in
      if is_neg fd
      then g'
      else add_device_fd fd (if is_neg devid then pos i else devid) (event_path i) g'

-- `k` rounds from `i` on
unfoldable pub scan_from : Env → ℕ → ℕ → G → G
unfolding scan_one
scan_from e zero i g = g
scan_from e (suc k) i g = scan_from e k (i + 1) (scan_one e i g)

unfoldable pub scan_devices : Env → G → G
unfolding scan_from
scan_devices e g = scan_from e max_devices 0 g

-- `struct inotify_event`: the mask bits that the code tests, `len` and `name`
pub record InotifyEvent : Type 0 where
  pub create : Bool
  pub moved_to : Bool
  pub delete : Bool
  pub len : ℕ
  pub name : List ℕ

list_eqb : List ℕ → List ℕ → Bool
list_eqb [] [] = true
list_eqb [] (y ∷ ys) = false
list_eqb (x ∷ xs) [] = false
list_eqb (x ∷ xs) (y ∷ ys) = x == y && list_eqb xs ys

-- strncmp(name, "event", 5) == 0
unfoldable pub names_event : List ℕ → Bool
unfolding list_eqb
names_event name = list_eqb (take 5 name) (codes "event")

-- snprintf(path, sizeof(path), "/dev/input/%s", ie->name)
abbrev pub node_path : List ℕ → List ℕ
node_path name = take 127 (codes "/dev/input/" ++ name)

-- An event node has appeared.
unfoldable pub node_created : Env → List ℕ → G → G
unfolding open_device_filtered add_device_fd now_ns
node_created e name g =
    let path = node_path name in
    let (fd, devid, g') = open_device_filtered e path minus_one g in
    if is_neg fd
    then (let (t, g'') = now_ns e g' in record g'' { rescan_until_ns = t +ℤ pos 3000000000 })
    else add_device_fd fd devid path g'

-- one round of the inner loop of `handle_inotify_event`
unfoldable pub handle_one : Env → InotifyEvent → G → G
unfolding names_event node_created remove_device_by_id
handle_one e ie g =
    let named = ltb 0 ie.len && names_event ie.name in
    let g' = if (ie.create || ie.moved_to) && named then node_created e ie.name g else g in
    if ie.delete && named then remove_device_by_id (atoi (drop 5 ie.name)) g' else g'

-- The events that the calls of `read` bring, up to the first that fails.
unfoldable pub handle_inotify_event : Env → List InotifyEvent → G → G
unfolding handle_one
handle_inotify_event e [] g = g
handle_inotify_event e (ie ∷ ies) g = handle_inotify_event e ies (handle_one e ie g)

-- The body of the loop of `ni_set_device_filter`: a device that the filter refuses goes.
unfoldable pub close_one : Env → ℕ → G → G
unfolding fill_device_info passes drop_at
close_one e i g =
    let d = get_or g.devices i blank_device in
    let info = record (fill_device_info e g.trace d.fd d.path) { id = d.id } in
    let (keep, g') = passes e info g in if keep then g' else drop_at i g'

-- the rounds i = k - 1, …, 0
unfoldable pub close_refused : Env → ℕ → G → G
unfolding close_one
close_refused e zero g = g
close_refused e (suc i) g = close_refused e i (close_one e i g)

-- `fd_to_device_id`
owner : ℤ → List Device → ℤ
owner fd [] = minus_one
owner fd (d ∷ ds) = if eqb_ℤ d.fd fd then d.id else owner fd ds

unfoldable pub fd_to_device_id : ℤ → G → ℤ
unfolding owner
fd_to_device_id fd g = owner fd (live g)
