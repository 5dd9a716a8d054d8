-- ===== src/Posix/Api/Init.antt =====
-- What `ni_init` of src/libasyncinput_posix.c starts from, and what it forgets.
use asyncinput.Prelude.{
  ℕ, ◌≡◌, sym, ap, ◌∙◌, inl, inr, ◌∷◌, true, false, Option, none, some, Bool-cases, if_true,
  if_false,
}
use asyncinput.Prelude.Int.{ℤ, pos, is_neg, minus_one, nonzero}
use asyncinput.Posix.{Env, G, Trace, zeroed, spawned}
use asyncinput.Posix.Paths.{codes}
use asyncinput.Posix.Devices.Frame.{scan_devices-Framed}
use asyncinput.Posix.Api.{
  start, fresh, scanned, start_inotify, default_names, start_threads, ni_init, or_default,
}

-- The one way to the result 0 from a state that is not initialised.
pub record Started (e : Env) (g s : G) : Type 0 where
  pub xkb : e.have_xkb ≡ true
  pub thread : ℕ
  pub result : s ≡ (start_threads e (some thread) (default_names (scanned e g.trace))).1

threads-Started :
    (e : Env) (o : Option ℕ) (g s : G)
    → e.have_xkb ≡ true
    → start_threads e o (default_names (scanned e g.trace)) ≡ (pos 0, s)
    → Started e g s
unfolding start_threads
threads-Started e none g s x h = absurd (cc (ap (λ (p : ℤ × G). p.0) h))
threads-Started e (some t) g s x h = record {
  xkb = x;
  thread = t;
  result = sym (ap (λ (p : ℤ × G). p.1) h);
}

pub start-Started : (e : Env) (g s : G) → start e g ≡ (pos 0, s) → Started e g s
unfolding start
start-Started e g s h = elim (Bool-cases (is_neg (e.epoll_create g.trace))) [
  | inl neg ↦ absurd (cc (ap (λ (p : ℤ × G). p.0) (sym (if_true _ _ _ neg) ∙ h)))
  | inr fine ↦ elim (Bool-cases e.have_xkb) [
    | inl x ↦ threads-Started e _ g s x (sym (if_false _ _ _ fine ∙ if_true _ _ _ x) ∙ h)
    | inr x ↦
        absurd (cc (ap (λ (p : ℤ × G). p.0) (sym (if_false _ _ _ fine ∙ if_false _ _ _ x) ∙ h)))
  ]
]

pub start_inotify-kept :
    (e : Env) (g : G)
    → start_inotify e g
      ≡ record g { inotify_fd = e.inotify_init g.trace; trace = (start_inotify e g).trace }
unfolding start_inotify
start_inotify-kept e g = elim (Bool-cases (is_neg (e.inotify_init g.trace))) [
  | inl neg ↦ rw neg
  | inr fine ↦ rw fine
]

-- What `ni_init` has before it starts the threads: the zeroed state, but for the descriptors, the
-- table and the trace.
pub scanned_kept :
    (e : Env) (t : Trace)
    → scanned e t ≡ record (zeroed t) {
      epoll_fd = e.epoll_create t;
      inotify_fd = e.inotify_init (fresh e t).trace;
      mice_fd = minus_one;
      devices = (scanned e t).devices;
      ndevi = (scanned e t).ndevi;
      trace = (scanned e t).trace;
    }
unfolding scanned fresh zeroed
scanned_kept e t =
    ap (λ (u : G). record u { stop = false }) (scan_devices-Framed e (start_inotify e (fresh e t)))
    ∙ ap
        (λ (u : G). record u {
          stop = false;
          devices = (scanned e t).devices;
          ndevi = (scanned e t).ndevi;
          trace = (scanned e t).trace;
        })
        (start_inotify-kept e (fresh e t))

-- the threads of `ni_init` where the mice reader is not asked for
started_kept :
    (e : Env) (t : ℕ) (g : G)
    → g.mice_enabled ≡ false
    → (start_threads e (some t) g).1
      ≡ record g { thread = some t; initialized = true; trace = spawned (some t) ∷ g.trace }
unfolding start_threads
started_kept e t g h = ap (λ (u : G). record u { initialized = true }) (if_false _ _ _ h)

inits :
    (e : Env) (flags : ℤ) (g s : G)
    → g.initialized ≡ false
    → ni_init e flags g ≡ (pos 0, s)
    → start e g ≡ (pos 0, s)
unfolding ni_init
inits e flags g s off h = elim (Bool-cases (nonzero flags)) [
  | inl bad ↦ absurd (cc (ap (λ (p : ℤ × G). p.0) (sym (if_true _ _ _ bad) ∙ h)))
  | inr good ↦ sym (if_false _ _ _ good ∙ if_false _ _ _ off) ∙ h
]

-- the state in which `ni_init` leaves `g` if it returns 0
abbrev pub ready : Env → Trace → ℕ → G
ready e t thread =
    let named = default_names (scanned e t) in
    record named {
      thread = some thread;
      initialized = true;
      trace = spawned (some thread) ∷ named.trace;
    }

pub ni_init-ready :
    (e : Env) (flags : ℤ) (g s : G)
    → g.initialized ≡ false
    → ni_init e flags g ≡ (pos 0, s)
    → (thread : ℕ) × (s ≡ ready e g.trace thread)
unfolding default_names zeroed
ni_init-ready e flags g s off h =
    let st = start-Started e g s (inits e flags g s off h) in
    (
      st.thread,
      st.result
          ∙ started_kept e st.thread (default_names (scanned e g.trace))
              (ap (λ (u : G). u.mice_enabled) (scanned_kept e g.trace)),
    )

-- When `ni_init` returns 0 from a state that is not initialised, whatever was set before is gone: the
-- device filter, the callbacks, the request to read /dev/input/mice, the xkb layer and its layout.
-- The mice reader is not started.
pub ni_init-forgets :
    (e : Env) (flags : ℤ) (g s : G)
    → g.initialized ≡ false
    → ni_init e flags g ≡ (pos 0, s)
    → (s.initialized ≡ true)
      × (s.filter ≡ none)
      × (s.cb ≡ none)
      × (s.key_cb ≡ none)
      × (s.mice_enabled ≡ false)
      × (s.mice_thread ≡ none)
      × (s.xkb_enabled ≡ false)
      × (s.xkb_layout ≡ codes "us")
unfolding default_names zeroed
ni_init-forgets e flags g s off h =
    let (thread, r) = ni_init-ready e flags g s off h in
    let k = scanned_kept e g.trace in
    (
      ap (λ (u : G). u.initialized) r,
      ap (λ (u : G). u.filter) r ∙ ap (λ (u : G). u.filter) k,
      ap (λ (u : G). u.cb) r ∙ ap (λ (u : G). u.cb) k,
      ap (λ (u : G). u.key_cb) r ∙ ap (λ (u : G). u.key_cb) k,
      ap (λ (u : G). u.mice_enabled) r ∙ ap (λ (u : G). u.mice_enabled) k,
      ap (λ (u : G). u.mice_thread) r ∙ ap (λ (u : G). u.mice_thread) k,
      ap (λ (u : G). u.xkb_enabled) r ∙ ap (λ (u : G). u.xkb_enabled) k,
      ap (λ (u : G). u.xkb_layout) r ∙ ap (λ (u : G). or_default (codes "us") u.xkb_layout) k,
    )
