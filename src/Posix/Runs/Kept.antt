-- ===== src/Posix/Runs/Kept.antt =====
-- Operations of src/libasyncinput_posix.c that neither acquire nor give back an object of libxkbcommon: those
-- on the device table.
use asyncinput.Prelude.{
  ℕ, zero, suc, ◌+◌, ◌≡◌, refl, ◌∙◌, true, List, [], ◌∷◌, not, Option, arith, by_if,
}
use asyncinput.Prelude.Int.{ℤ}
use asyncinput.Posix.{Env, G, XkbKind, now_ns, max_devices}
use asyncinput.Posix.Devices.{
  InotifyEvent, open_device_filtered, add_device_fd, drop_at, remove_device_by_id, scan_one,
  scan_from, scan_devices, node_created, handle_one, handle_inotify_event, close_one, close_refused,
}
use asyncinput.Posix.Api.{ni_set_device_filter}
use asyncinput.Posix.Keys.Objects.{made, freed}

-- A change that leaves the objects alone and does not shut the library down.
pub record Kept (g s : G) : Type 0 where
  pub ctx : s.xkb_ctx ≡ g.xkb_ctx
  pub km : s.xkb_keymap ≡ g.xkb_keymap
  pub st : s.xkb_state ≡ g.xkb_state
  pub made_same : (k : XkbKind) (x : ℕ) → made k x s.trace ≡ made k x g.trace
  pub freed_same : (k : XkbKind) (x : ℕ) → freed k x s.trace ≡ freed k x g.trace
  pub on : g.initialized ≡ true → s.initialized ≡ true

pub Kept-same :
    (g s : G)
    → s.xkb_ctx ≡ g.xkb_ctx
    → s.xkb_keymap ≡ g.xkb_keymap
    → s.xkb_state ≡ g.xkb_state
    → ((k : XkbKind) (x : ℕ) → made k x s.trace ≡ made k x g.trace)
    → ((k : XkbKind) (x : ℕ) → freed k x s.trace ≡ freed k x g.trace)
    → (g.initialized ≡ true → s.initialized ≡ true)
    → Kept g s
Kept-same g s c m t mk fr on = record {
  ctx = c;
  km = m;
  st = t;
  made_same = mk;
  freed_same = fr;
  on = on;
}

pub Kept-refl : (g : G) → Kept g g
Kept-refl g = Kept-same g g refl refl refl (λ k x. refl) (λ k x. refl) (λ h. h)

pub Kept-trans : (g s t : G) → Kept g s → Kept s t → Kept g t
Kept-trans g s t p q = record {
  ctx = q.ctx ∙ p.ctx;
  km = q.km ∙ p.km;
  st = q.st ∙ p.st;
  made_same = λ k x. q.made_same k x ∙ p.made_same k x;
  freed_same = λ k x. q.freed_same k x ∙ p.freed_same k x;
  on = λ h. q.on (p.on h);
}

open_device_filtered-Kept :
    (e : Env) (path : List ℕ) (out_devid : ℤ) (g : G)
    → Kept g (open_device_filtered e path out_devid g).2
unfolding open_device_filtered
open_device_filtered-Kept e path out_devid g = record {
  ctx = ground arith;
  km = ground arith;
  st = ground arith;
  made_same = λ k x. ground arith;
  freed_same = λ k x. ground arith;
  on = λ h. ground arith;
}

scan_one-Kept : (e : Env) (i : ℕ) (g : G) → Kept g (scan_one e i g)
unfolding scan_one add_device_fd open_device_filtered
scan_one-Kept e i g = record {
  ctx = ground arith;
  km = ground arith;
  st = ground arith;
  made_same = λ k x. ground arith;
  freed_same = λ k x. ground arith;
  on = λ h. ground arith;
}

scan_from-Kept : (e : Env) (k i : ℕ) (g : G) → Kept g (scan_from e k i g)
unfolding scan_from
scan_from-Kept e zero i g = Kept-refl g
scan_from-Kept e (suc k) i g =
    Kept-trans g (scan_one e i g) _ (scan_one-Kept e i g)
      (scan_from-Kept e k (i + 1) (scan_one e i g))

pub scan_devices-Kept : (e : Env) (g : G) → Kept g (scan_devices e g)
unfolding scan_devices
scan_devices-Kept e g = scan_from-Kept e max_devices 0 g

remove_device_by_id-Kept : (devid : ℤ) (g : G) → Kept g (remove_device_by_id devid g)
unfolding remove_device_by_id drop_at
remove_device_by_id-Kept devid g = record {
  ctx = ground arith;
  km = ground arith;
  st = ground arith;
  made_same = λ k x. ground arith;
  freed_same = λ k x. ground arith;
  on = λ h. ground arith;
}

node_created-Kept : (e : Env) (name : List ℕ) (g : G) → Kept g (node_created e name g)
unfolding node_created add_device_fd open_device_filtered now_ns
node_created-Kept e name g = record {
  ctx = ground arith;
  km = ground arith;
  st = ground arith;
  made_same = λ k x. ground arith;
  freed_same = λ k x. ground arith;
  on = λ h. ground arith;
}

handle_one-Kept : (e : Env) (ie : InotifyEvent) (g : G) → Kept g (handle_one e ie g)
unfolding handle_one
handle_one-Kept e ie g =
    let c = node_created-Kept e ie.name g in
    record {
      ctx = ground (arith, c.ctx);
      km = ground (arith, c.km);
      st = ground (arith, c.st);
      made_same = λ k x. ground (arith, c.made_same k x);
      freed_same = λ k x. ground (arith, c.freed_same k x);
      on = λ h. ground (arith, c.on h);
    }

pub handle_inotify_event-Kept :
    (e : Env) (ies : List InotifyEvent) (g : G) → Kept g (handle_inotify_event e ies g)
unfolding handle_inotify_event
handle_inotify_event-Kept e [] g = Kept-refl g
handle_inotify_event-Kept e (ie ∷ ies) g =
    Kept-trans g (handle_one e ie g) _ (handle_one-Kept e ie g)
      (handle_inotify_event-Kept e ies (handle_one e ie g))

close_one-Kept : (e : Env) (i : ℕ) (g : G) → Kept g (close_one e i g)
unfolding close_one drop_at
close_one-Kept e i g = record {
  ctx = ground arith;
  km = ground arith;
  st = ground arith;
  made_same = λ k x. ground arith;
  freed_same = λ k x. ground arith;
  on = λ h. ground arith;
}

close_refused-Kept : (e : Env) (k : ℕ) (g : G) → Kept g (close_refused e k g)
unfolding close_refused
close_refused-Kept e zero g = Kept-refl g
close_refused-Kept e (suc i) g =
    Kept-trans g (close_one e i g) _ (close_one-Kept e i g)
      (close_refused-Kept e i (close_one e i g))

pub filter-Kept :
    (e : Env) (f : Option ℕ) (user : ℕ) (g : G) → Kept g (ni_set_device_filter e f user g).1
unfolding ni_set_device_filter
filter-Kept e f user g =
    let g' : G = record g { filter = f; filter_user = user } in
    let closed_some = close_refused e g'.ndevi g' in
    by_if (Kept g) (not g'.initialized) _ _
      (λ _. Kept-same g g' refl refl refl (λ k x. refl) (λ k x. refl) (λ h. h))
      (λ _. Kept-trans g g' _ (Kept-same g g' refl refl refl (λ k x. refl) (λ k x. refl) (λ h. h)) (
        Kept-trans g' closed_some _ (close_refused-Kept e g'.ndevi g')
          (scan_devices-Kept e closed_some)))
