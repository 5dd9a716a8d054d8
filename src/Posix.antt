-- ===== src/Posix.antt =====
-- The state of src/libasyncinput_posix.c: `struct device`, the global `g`, and what lies outside the
-- file (the kernel, libc threads, libxkbcommon, the application's functions).
pub mod Paths
pub mod Devices
pub mod Mice
pub mod Keys
pub mod Worker
pub mod Quiet
pub mod Runs
pub mod Api
pub mod Sample
use asyncinput.Prelude.{ℕ, zero, Bool, true, false, List, [], ◌∷◌, Option, none, some, replicate}
use asyncinput.Prelude.Int.{ℤ, pos}
use asyncinput.Event.{Codes, NiEvent, NiKeyEvent, NiDeviceInfo, blank_event, blank_key_event}
use asyncinput.Ring.Copies.{KeyRingBuf, keyring_init}
use asyncinput.Ring.{RingBuf, ring_size, ring_init, ring_push}

-- `struct device`; the path is its bytes without the closing NUL.
pub record Device : Type 0 where
  pub fd : ℤ
  pub id : ℤ
  pub path : List ℕ

abbrev pub blank_device : Device
blank_device = record { fd = pos 0; id = pos 0; path = [] }

-- MAX_DEVICES
abbrev pub max_devices : ℕ
max_devices = 128

-- `epoll_data.ptr`: the mark EPOLL_DATA_INOTIFY, NULL, or `&g.devices[i]`
pub data Pointer : Type 0 where
  inotify : Pointer
  null : Pointer
  slot : ℕ → Pointer

pub record InputId : Type 0 where
  pub bustype : ℕ
  pub vendor : ℕ
  pub product : ℕ
  pub version : ℕ

-- The objects of libxkbcommon, by kind.
pub data XkbKind : Type 0 where
  context keymap state : XkbKind

pub data XkbMod : Type 0 where
  shift ctrl alt logo : XkbMod

-- `struct xkb_rule_names`; NULL is `none`
pub record RuleNames : Type 0 where
  pub rules : Option (List ℕ)
  pub model : Option (List ℕ)
  pub layout : Option (List ℕ)
  pub variant : Option (List ℕ)
  pub options : Option (List ℕ)

-- The calls that leave the file. `opened` and `closed` are about event devices, `other_opened` and
-- `other_closed` about the epoll, inotify and mice descriptors. A function
-- pointer and its `user_data` are numbers.
pub data Call : Type 0 where
  opened : List ℕ → ℤ → Call
  closed : ℤ → Call
  filtered : ℕ → ℕ → NiDeviceInfo → Call
  epoll_add : ℤ → Pointer → Call
  epoll_del : ℤ → Call
  clock_read : Call
  other_opened : ℤ → Call
  other_closed : ℤ → Call
  watched : ℤ → Call
  spawned : Option ℕ → Call
  joined : ℕ → Call
  called : ℕ → ℕ → NiEvent → Call
  key_called : ℕ → ℕ → NiKeyEvent → Call
  xkb_made : XkbKind → Option ℕ → Call
  xkb_unref : XkbKind → ℕ → Call
  xkb_updated : ℕ → ℕ → Bool → Call

-- The calls so far, the last one first.
abbrev pub Trace : Type 0
Trace = List Call

-- What the outside answers. An answer may depend on every call before it.
pub record Env : Type 0 where
  pub codes : Codes
  -- ASYNCINPUT_HAVE_XKBCOMMON
  pub have_xkb : Bool
  pub open_path : Trace → List ℕ → ℤ
  pub input_id : Trace → ℤ → Option InputId
  pub input_name : Trace → ℤ → Option (List ℕ)
  pub filter : Trace → ℕ → ℕ → NiDeviceInfo → ℤ
  pub clock : Trace → ℤ
  pub mice_open : Trace → ℤ
  pub epoll_create : Trace → ℤ
  pub inotify_init : Trace → ℤ
  pub pthread_create : Trace → Option ℕ
  pub xkb_context_new : Trace → Option ℕ
  pub xkb_keymap_new : Trace → ℕ → RuleNames → Option ℕ
  pub xkb_state_new : Trace → ℕ → Option ℕ
  pub xkb_mod_active : Trace → ℕ → XkbMod → Bool
  pub xkb_one_sym : Trace → ℕ → ℕ → ℕ
  pub xkb_utf8 : Trace → ℕ → ℕ → List ℕ

-- The global `g`, and the trace. Locks have no field: each call that takes one runs whole.
pub record G : Type 0 where
  pub initialized : Bool
  pub epoll_fd : ℤ
  pub inotify_fd : ℤ
  pub thread : Option ℕ
  pub stop : Bool
  pub devices : List Device
  pub ndevi : ℕ
  pub queue : RingBuf NiEvent
  pub cb : Option ℕ
  pub cb_user : ℕ
  pub filter : Option ℕ
  pub filter_user : ℕ
  pub rescan_until_ns : ℤ
  pub mice_enabled : Bool
  pub mice_fd : ℤ
  pub mice_thread : Option ℕ
  pub xkb_enabled : Bool
  pub xkb_ctx : Option ℕ
  pub xkb_keymap : Option ℕ
  pub xkb_state : Option ℕ
  pub xkb_rules : List ℕ
  pub xkb_model : List ℕ
  pub xkb_layout : List ℕ
  pub xkb_variant : List ℕ
  pub xkb_options : List ℕ
  pub key_queue : KeyRingBuf
  pub key_cb : Option ℕ
  pub key_cb_user : ℕ
  pub trace : Trace

-- `memset(&g, 0, sizeof(g))`, which the trace outlives
unfoldable pub zeroed : Trace → G
zeroed t = record {
  initialized = false;
  epoll_fd = pos 0;
  inotify_fd = pos 0;
  thread = none;
  stop = false;
  devices = replicate max_devices blank_device;
  ndevi = 0;
  queue = ring_init ring_size blank_event;
  cb = none;
  cb_user = 0;
  filter = none;
  filter_user = 0;
  rescan_until_ns = pos 0;
  mice_enabled = false;
  mice_fd = pos 0;
  mice_thread = none;
  xkb_enabled = false;
  xkb_ctx = none;
  xkb_keymap = none;
  xkb_state = none;
  xkb_rules = [];
  xkb_model = [];
  xkb_layout = [];
  xkb_variant = [];
  xkb_options = [];
  key_queue = keyring_init;
  key_cb = none;
  key_cb_user = 0;
  trace = t;
}

-- one more call
abbrev pub log : Call → G → G
log c g = record g { trace = c ∷ g.trace }

-- The callback if there is one, else the queue.
unfoldable pub emit_to : Option ℕ → NiEvent → G → G
emit_to (some f) ev g = log (called f g.cb_user ev) g
emit_to none ev g = record g { queue = ring_push ring_size blank_event g.queue ev }

unfoldable pub emit_or_queue : NiEvent → G → G
unfolding emit_to
emit_or_queue ev g = emit_to g.cb ev g

-- `now_ns`
unfoldable pub now_ns : Env → G → ℤ × G
now_ns e g = (e.clock g.trace, log clock_read g)
