-- ===== src/Posix/Runs/Calm.antt =====
-- Operations of src/libasyncinput_posix.c that leave the two queues alone.
use asyncinput.Prelude.{
  ℕ, zero, suc, ◌+◌, ◌≡◌, refl, ◌∙◌, true, List, [], ◌∷◌, not, Option, none, some, arith, by_if,
}
use asyncinput.Prelude.Int.{ℤ, nonzero}
use asyncinput.Posix.{
  context, keymap, state, xkb_made, Env, G, RuleNames, XkbKind, log, now_ns, max_devices,
}
use asyncinput.Posix.Devices.{
  InotifyEvent, open_device_filtered, add_device_fd, drop_at, remove_device_by_id, scan_one,
  scan_from, scan_devices, node_created, handle_one, handle_inotify_event, close_one, close_refused,
}
use asyncinput.Posix.Keys.{
  rule_names, release, with_context, adopt, install, compile, rebuild_xkb_keymap, ni_enable_xkb,
  ni_set_xkb_names,
}
use asyncinput.Posix.Api.{ni_set_device_filter}

-- A change that leaves the queues alone and does not shut the library down.
pub record Calm (g s : G) : Type 0 where
  pub queue : s.queue ≡ g.queue
  pub key_queue : s.key_queue ≡ g.key_queue
  pub on : g.initialized ≡ true → s.initialized ≡ true

-- A change of other fields is calm.
pub Calm-same :
    (g s : G)
    → s.queue ≡ g.queue
    → s.key_queue ≡ g.key_queue
    → (g.initialized ≡ true → s.initialized ≡ true)
    → Calm g s
Calm-same g s q k on = record { queue = q; key_queue = k; on = on }

pub Calm-refl : (g : G) → Calm g g
Calm-refl g = record { queue = refl; key_queue = refl; on = λ h. h }

pub Calm-trans : (g s t : G) → Calm g s → Calm s t → Calm g t
Calm-trans g s t p q = record {
  queue = q.queue ∙ p.queue;
  key_queue = q.key_queue ∙ p.key_queue;
  on = λ h. q.on (p.on h);
}

open_device_filtered-Calm :
    (e : Env) (path : List ℕ) (out_devid : ℤ) (g : G)
    → Calm g (open_device_filtered e path out_devid g).2
unfolding open_device_filtered
open_device_filtered-Calm e path out_devid g = ground arith

scan_one-Calm : (e : Env) (i : ℕ) (g : G) → Calm g (scan_one e i g)
unfolding scan_one add_device_fd open_device_filtered
scan_one-Calm e i g = ground arith

scan_from-Calm : (e : Env) (k i : ℕ) (g : G) → Calm g (scan_from e k i g)
unfolding scan_from
scan_from-Calm e zero i g = Calm-refl g
scan_from-Calm e (suc k) i g =
    Calm-trans g (scan_one e i g) _ (scan_one-Calm e i g)
      (scan_from-Calm e k (i + 1) (scan_one e i g))

pub scan_devices-Calm : (e : Env) (g : G) → Calm g (scan_devices e g)
unfolding scan_devices
scan_devices-Calm e g = scan_from-Calm e max_devices 0 g

remove_device_by_id-Calm : (devid : ℤ) (g : G) → Calm g (remove_device_by_id devid g)
unfolding remove_device_by_id drop_at
remove_device_by_id-Calm devid g = ground arith

node_created-Calm : (e : Env) (name : List ℕ) (g : G) → Calm g (node_created e name g)
unfolding node_created add_device_fd open_device_filtered now_ns
node_created-Calm e name g = ground arith

handle_one-Calm : (e : Env) (ie : InotifyEvent) (g : G) → Calm g (handle_one e ie g)
unfolding handle_one
handle_one-Calm e ie g = ground (arith, node_created-Calm e ie.name g)

pub handle_inotify_event-Calm :
    (e : Env) (ies : List InotifyEvent) (g : G) → Calm g (handle_inotify_event e ies g)
unfolding handle_inotify_event
handle_inotify_event-Calm e [] g = Calm-refl g
handle_inotify_event-Calm e (ie ∷ ies) g =
    Calm-trans g (handle_one e ie g) _ (handle_one-Calm e ie g)
      (handle_inotify_event-Calm e ies (handle_one e ie g))

close_one-Calm : (e : Env) (i : ℕ) (g : G) → Calm g (close_one e i g)
unfolding close_one drop_at
close_one-Calm e i g = ground arith

close_refused-Calm : (e : Env) (k : ℕ) (g : G) → Calm g (close_refused e k g)
unfolding close_refused
close_refused-Calm e zero g = Calm-refl g
close_refused-Calm e (suc i) g =
    Calm-trans g (close_one e i g) _ (close_one-Calm e i g)
      (close_refused-Calm e i (close_one e i g))

pub filter-Calm :
    (e : Env) (f : Option ℕ) (user : ℕ) (g : G) → Calm g (ni_set_device_filter e f user g).1
unfolding ni_set_device_filter
filter-Calm e f user g =
    let g' : G = record g { filter = f; filter_user = user } in
    let closed_some = close_refused e g'.ndevi g' in
    by_if (Calm g) (not g'.initialized) _ _ (λ _. Calm-same g g' refl refl (λ h. h))
      (λ _. Calm-trans g g' _ (Calm-same g g' refl refl (λ h. h)) (
        Calm-trans g' closed_some _ (close_refused-Calm e g'.ndevi g')
          (scan_devices-Calm e closed_some)))

-- The xkb layer keeps away from the queues, but for the events it makes.
release-Calm : (kind : XkbKind) (h : Option ℕ) (g : G) → Calm g (release kind h g)
unfolding release
release-Calm kind none g = Calm-refl g
release-Calm kind (some h) g = Calm-same g _ refl refl (λ h. h)

adopt-Calm : (km : ℕ) (st : Option ℕ) (g : G) → Calm g (adopt km st g).1
unfolding adopt
adopt-Calm km none g = Calm-same g _ refl refl (λ h. h)
adopt-Calm km (some st) g =
    let g1 = release state g.xkb_state g in
    let g2 = release keymap g.xkb_keymap g1 in
    Calm-trans g g1 _ (release-Calm state g.xkb_state g)
      (Calm-trans g1 g2 _ (release-Calm keymap g.xkb_keymap g1) (Calm-same g2 _ refl refl (λ h. h)))

install-Calm : (e : Env) (km : Option ℕ) (g : G) → Calm g (install e km g).1
unfolding install
install-Calm e none g = Calm-refl g
install-Calm e (some km) g =
    let st = e.xkb_state_new g.trace km in
    let g' = log (xkb_made state st) g in
    Calm-trans g g' _ (Calm-same g g' refl refl (λ h. h)) (adopt-Calm km st g')

compile-Calm : (e : Env) (ctx : Option ℕ) (g : G) → Calm g (compile e ctx g).1
unfolding compile
compile-Calm e none g = Calm-refl g
compile-Calm e (some ctx) g =
    let km = e.xkb_keymap_new g.trace ctx (rule_names g) in
    let g' = log (xkb_made keymap km) g in
    Calm-trans g g' _ (Calm-same g g' refl refl (λ h. h)) (install-Calm e km g')

with_context-Calm : (e : Env) (ctx : Option ℕ) (g : G) → Calm g (with_context e ctx g)
unfolding with_context
with_context-Calm e none g = Calm-same g _ refl refl (λ h. h)
with_context-Calm e (some c) g = Calm-refl g

rebuild-Calm : (e : Env) (g : G) → Calm g (rebuild_xkb_keymap e g).1
unfolding rebuild_xkb_keymap
rebuild-Calm e g =
    let g' = with_context e g.xkb_ctx g in
    by_if (λ (r : ℤ × G). Calm g r.1) e.have_xkb _ _
      (λ _.
        by_if (λ (r : ℤ × G). Calm g r.1) g.xkb_enabled _ _
          (λ _. Calm-trans g g' _ (with_context-Calm e g.xkb_ctx g) (compile-Calm e g'.xkb_ctx g'))
          (λ _. Calm-refl g))
      (λ _. Calm-refl g)

pub enable_xkb-Calm : (e : Env) (enabled : ℤ) (g : G) → Calm g (ni_enable_xkb e enabled g).1
unfolding ni_enable_xkb
enable_xkb-Calm e enabled g =
    let g' : G = record g { xkb_enabled = nonzero enabled } in
    let same = Calm-same g g' refl refl (λ h. h) in
    let g1 = release state g'.xkb_state g' in
    let g2 = release keymap g'.xkb_keymap g1 in
    let g3 = release context g'.xkb_ctx g2 in
    let freed = Calm-trans g' g1 g3 (release-Calm state g'.xkb_state g') (
      Calm-trans g1 g2 g3 (release-Calm keymap g'.xkb_keymap g1)
        (release-Calm context g'.xkb_ctx g2)) in
    by_if (λ (r : ℤ × G). Calm g r.1) e.have_xkb _ _
      (λ _.
        by_if (λ (r : ℤ × G). Calm g r.1) (nonzero enabled) _ _
          (λ _. Calm-trans g g' _ same (rebuild-Calm e g'))
          (λ _.
            Calm-trans g g' _ same (Calm-trans g' g3 _ freed (Calm-same g3 _ refl refl (λ h. h)))))
      (λ _. same)

pub set_xkb_names-Calm :
    (e : Env) (names : RuleNames) (g : G) → Calm g (ni_set_xkb_names e names g).1
unfolding ni_set_xkb_names
set_xkb_names-Calm e names g =
    by_if (λ (r : ℤ × G). Calm g r.1) e.have_xkb _ _
      (λ _.
        by_if (λ (r : ℤ × G). Calm g r.1) g.xkb_enabled _ _
          (λ _. Calm-trans g _ _ (Calm-same g _ refl refl (λ h. h)) (rebuild-Calm e _))
          (λ _. Calm-same g _ refl refl (λ h. h)))
      (λ _. Calm-refl g)
