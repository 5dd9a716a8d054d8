-- ===== src/Posix/Worker.antt =====
-- `worker` of src/libasyncinput_posix.c: the thread that reads the event devices.
pub mod Delivery
mod Tests
use asyncinput.Prelude.{
  ℕ, Bool, true, false, not, ◌&&◌, List, [], ◌∷◌, Option, none, some, if◌then◌else◌, get_or,
}
use asyncinput.Prelude.Int.{ℤ, pos, ◌+ℤ◌, ◌*ℤ◌, nonzero, ltb_ℤ}
use asyncinput.Event.{NiEvent, blank_event}
use asyncinput.Posix.{Env, G, blank_device, Pointer, inotify, null, slot, emit_or_queue, now_ns}
use asyncinput.Posix.Devices.{InotifyEvent, scan_devices, handle_inotify_event}
use asyncinput.Posix.Keys.{maybe_emit_key_event}
use asyncinput.Posix.Mice.{Running, running, stopped}

-- `struct input_event`
pub record InputEvent : Type 0 where
  pub tv_sec : ℤ
  pub tv_usec : ℤ
  pub type : ℕ
  pub code : ℕ
  pub value : ℤ

-- What one `read` of a device gives: a whole event, an error (EAGAIN or another), or fewer bytes.
pub data ReadResult : Type 0 where
  event : InputEvent → ReadResult
  error short : ReadResult

abbrev pub event_of : ℤ → InputEvent → NiEvent
event_of devid iev = record blank_event {
  device_id = devid;
  type = pos iev.type;
  code = pos iev.code;
  value = iev.value;
  timestamp_ns = iev.tv_sec *ℤ pos 1000000000 +ℤ iev.tv_usec *ℤ pos 1000;
}

unfoldable pub deliver : Env → ℤ → InputEvent → G → G
unfolding emit_or_queue maybe_emit_key_event
deliver e devid iev g =
    let ev = event_of devid iev in maybe_emit_key_event e ev (emit_or_queue ev g)

-- `for (;;) read`. The list is what the reads give; behind its end they give EAGAIN.
unfoldable pub drain : Env → ℤ → List ReadResult → G → G
unfolding deliver
drain e devid [] g = g
drain e devid (event iev ∷ rs) g = drain e devid rs (deliver e devid iev g)
drain e devid (error ∷ rs) g = g
drain e devid (short ∷ rs) g = g

-- What waits to be read while one batch of `epoll_wait` is handled: of each descriptor of a device,
-- and of the inotify descriptor.
pub record Pending : Type 0 where
  pub of_fd : ℤ → List ReadResult
  pub nodes : List InotifyEvent

-- One entry of `evs`. The device is read through the pointer that epoll gives.
unfoldable pub handle_ready : Env → Pending → Pointer → G → G
unfolding drain handle_inotify_event
handle_ready e p inotify g = handle_inotify_event e p.nodes g
handle_ready e p null g = g
handle_ready e p (slot i) g =
    let dev = get_or g.devices i blank_device in drain e dev.id (p.of_fd dev.fd) g

unfoldable pub handle_all : Env → Pending → List Pointer → G → G
unfolding handle_ready
handle_all e p [] g = g
handle_all e p (r ∷ rs) g = handle_all e p rs (handle_ready e p r g)

-- "Opportunistically rescan while within rescan window"
unfoldable pub maybe_rescan : Env → G → G
unfolding now_ns scan_devices
maybe_rescan e g =
    let (tnow, g') = now_ns e g in
    if nonzero g'.rescan_until_ns && ltb_ℤ tnow g'.rescan_until_ns then scan_devices e g' else g'

-- One round of the loop; `ready` is what `epoll_wait` gives, nothing on a timeout or an error.
unfoldable pub worker_round : Env → Pending → List Pointer → G → Running × G
unfolding maybe_rescan handle_all
worker_round e p ready g =
    if g.stop then (stopped, g) else (running, handle_all e p ready (maybe_rescan e g))
