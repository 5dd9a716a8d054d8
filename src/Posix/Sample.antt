-- ===== src/Posix/Sample.antt =====
-- A concrete outside for the examples: two event devices, a keyboard layout, one filter, and calls that
-- succeed.
use asyncinput.Prelude.{
  ℕ, suc, ◌+◌, ◌≤◌, ◌≡◌, refl, inl, inr, List, [], ◌∷◌, Bool, true, false, ◌||◌, none, some,
  if◌then◌else◌, arith, Bool-cases,
}
use asyncinput.Prelude.Int.{pos, pos_part, minus_one, eqb_ℤ, of_Bool}
use asyncinput.Event.{portable_codes}
use asyncinput.Posix.{
  Env, G, Trace, epoll_add, zeroed, XkbMod, shift, ctrl, alt, logo, Call, Pointer, epoll_del,
  closed, other_closed, context, keymap, state, RuleNames,
}
use asyncinput.Posix.Paths.{deduced_id, event_path}
use asyncinput.Posix.Devices.Epoll.{IsFresh, target}
use asyncinput.Posix.Devices.{scan_devices}
use asyncinput.Posix.Devices.Scan.{IsSound, zeroed-IsSound}
use asyncinput.Posix.Api.{
  ni_init, ni_shutdown, ni_set_device_filter, ni_enable_mice, ni_poll, ni_poll_key_events,
  ni_register_callback, ni_register_key_callback,
}
use asyncinput.Posix.Api.Lifecycle.{IsClosed, ni_init-IsSound}

-- a number above every registered descriptor
abbrev pub unused : Trace → ℕ
unused [] = 3
unused (epoll_add fd p ∷ t) = suc (pos_part fd) + unused t
unused (_ ∷ t) = unused t

-- /dev/input/event3 and /dev/input/event4 exist.
abbrev pub exists : List ℕ → Bool
exists path = eqb_ℤ (deduced_id path) (pos 3) || eqb_ℤ (deduced_id path) (pos 4)

abbrev pub outside : Env
outside = record {
  codes = portable_codes;
  have_xkb = true;
  open_path = λ t path. if exists path then pos (unused t) else minus_one;
  input_id = λ t fd. some (record { bustype = 3; vendor = 1; product = 2; version = 1 });
  input_name = λ t fd. some (107 ∷ 98 ∷ []);
  filter = λ t f user info. of_Bool (eqb_ℤ info.id (pos 4));
  clock = λ t. pos 50;
  mice_open = λ t. pos 40;
  epoll_create = λ t. pos 1000;
  inotify_init = λ t. pos 1001;
  pthread_create = λ t. some 7;
  xkb_context_new = λ t. some 20;
  xkb_keymap_new = λ t ctx names. some 21;
  xkb_state_new = λ t km. some 22;
  xkb_mod_active = λ t st m. elim m [ shift ↦ true | ctrl ↦ false | alt ↦ true | logo ↦ false ];
  xkb_one_sym = λ t st k. 97;
  xkb_utf8 = λ t st k. 97 ∷ [];
}

-- a build without libxkbcommon
abbrev pub plain : Env
plain = record outside { have_xkb = false }

target-unused : (t : Trace) (n : ℕ) → unused t ≤ n → target t (pos n) ≡ none
target-unused [] n h = refl
target-unused (epoll_add fd p ∷ t) n h = ground (arith, target-unused t n)
target-unused (epoll_del fd ∷ t) n h = ground (arith, target-unused t n)
target-unused (closed fd ∷ t) n h = ground (arith, target-unused t n)
target-unused (other_closed fd ∷ t) n h = ground (arith, target-unused t n)
target-unused (_ ∷ t) n h = target-unused t n h

pub outside-IsFresh : IsFresh outside
outside-IsFresh = record {
  unregistered = λ t path h. elim (Bool-cases (exists path)) [
    | inl there ↦ rw there (target-unused t (unused t) (omega arith))
    | inr not_there ↦ absurd (cc (rw not_there at h))
  ];
}

-- the program's start, and after `ni_init`
abbrev pub idle : G
idle = zeroed []

abbrev pub booted : G
booted = (ni_init outside (pos 0) idle).1

pub booted_lem : ni_init outside (pos 0) idle ≡ (pos 0, booted)
unfolding ni_init zeroed asyncinput.Posix.Api.start asyncinput.Posix.Api.start_threads
booted_lem = refl

pub two_devices : (booted.ndevi ≡ 2) × (booted.initialized ≡ true)
unfolding ni_init zeroed asyncinput.Posix.Api.start asyncinput.Posix.Api.start_threads
    asyncinput.Posix.Api.default_names asyncinput.Posix.Api.scanned scan_devices
    asyncinput.Posix.Api.start_inotify asyncinput.Posix.Api.fresh deduced_id event_path
two_devices = (refl, refl)

pub idle-IsSound : IsSound idle
idle-IsSound = zeroed-IsSound [] (λ x. refl)

pub idle-IsClosed : IsClosed idle.trace
unfolding zeroed
idle-IsClosed x = refl

pub idle-off : idle.initialized ≡ false
unfolding zeroed
idle-off = refl

pub booted-on : booted.initialized ≡ true
booted-on = two_devices.1

pub booted-IsSound : IsSound booted
booted-IsSound =
    (ni_init-IsSound outside (pos 0) idle booted outside-IsFresh idle-IsClosed idle-off
      booted_lem).0
