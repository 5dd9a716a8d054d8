-- ===== src/Posix/Runs/Silent.antt =====
-- Operations of src/libasyncinput_posix.c that leave the device table alone: the xkb layer, the callbacks
-- and queues, the mice thread.
use asyncinput.Prelude.{ℕ, refl, List, false, not, ◌||◌, Option, none, some, by_if}
use asyncinput.Prelude.Int.{ℤ, nonzero, is_neg, not_positive}
use asyncinput.Event.{NiEvent, NiKeyEvent}
use asyncinput.Posix.{
  context, keymap, state, xkb_made, xkb_unref, Env, G, RuleNames, XkbKind, log, other_opened,
  spawned,
}
use asyncinput.Posix.Keys.{
  rule_names, release, with_context, adopt, install, compile, rebuild_xkb_keymap, ni_enable_xkb,
  ni_set_xkb_names,
}
use asyncinput.Posix.Mice.{Running, Reader, ReadBytes, bytes, again, failed, mice_start, mice_round}
use asyncinput.Posix.Api.{
  ni_register_callback, ni_register_key_callback, ni_poll, ni_poll_key_events, spawn_mice,
  spawned_mice, ni_enable_mice, enable_reader,
}
use asyncinput.Posix.Quiet.{
  Quiet, Quiet-refl, Quiet-same, Quiet-log, Quiet-trans, mice_bytes-Quiet, mice_exit-Quiet,
}

release-Quiet : (kind : XkbKind) (h : Option ℕ) (g : G) → Quiet g (release kind h g)
unfolding release
release-Quiet kind none g = Quiet-refl g
release-Quiet kind (some h) g = Quiet-log (xkb_unref kind h) g tt

adopt-Quiet : (km : ℕ) (st : Option ℕ) (g : G) → Quiet g (adopt km st g).1
unfolding adopt
adopt-Quiet km none g = Quiet-log (xkb_unref keymap km) g tt
adopt-Quiet km (some st) g =
    let g1 = release state g.xkb_state g in
    let g2 = release keymap g.xkb_keymap g1 in
    Quiet-trans g g1 _ (release-Quiet state g.xkb_state g)
      (Quiet-trans g1 g2 _ (release-Quiet keymap g.xkb_keymap g1) (Quiet-same g2 _ refl refl refl))

install-Quiet : (e : Env) (km : Option ℕ) (g : G) → Quiet g (install e km g).1
unfolding install
install-Quiet e none g = Quiet-refl g
install-Quiet e (some km) g =
    let st = e.xkb_state_new g.trace km in
    let g' = log (xkb_made state st) g in
    Quiet-trans g g' _ (Quiet-log (xkb_made state st) g tt) (adopt-Quiet km st g')

compile-Quiet : (e : Env) (ctx : Option ℕ) (g : G) → Quiet g (compile e ctx g).1
unfolding compile
compile-Quiet e none g = Quiet-refl g
compile-Quiet e (some ctx) g =
    let km = e.xkb_keymap_new g.trace ctx (rule_names g) in
    let g' = log (xkb_made keymap km) g in
    Quiet-trans g g' _ (Quiet-log (xkb_made keymap km) g tt) (install-Quiet e km g')

with_context-Quiet : (e : Env) (ctx : Option ℕ) (g : G) → Quiet g (with_context e ctx g)
unfolding with_context
with_context-Quiet e none g =
    let ctx = e.xkb_context_new g.trace in
    let g' : G = record g { xkb_ctx = ctx } in
    Quiet-trans g g' _ (Quiet-same g g' refl refl refl) (Quiet-log (xkb_made context ctx) g' tt)
with_context-Quiet e (some c) g = Quiet-refl g

rebuild-Quiet : (e : Env) (g : G) → Quiet g (rebuild_xkb_keymap e g).1
unfolding rebuild_xkb_keymap
rebuild-Quiet e g =
    let g' = with_context e g.xkb_ctx g in
    by_if (λ (r : ℤ × G). Quiet g r.1) e.have_xkb _ _
      (λ _.
        by_if (λ (r : ℤ × G). Quiet g r.1) g.xkb_enabled _ _
          (λ _.
            Quiet-trans g g' _ (with_context-Quiet e g.xkb_ctx g) (compile-Quiet e g'.xkb_ctx g'))
          (λ _. Quiet-refl g))
      (λ _. Quiet-refl g)

pub enable_xkb-Quiet : (e : Env) (enabled : ℤ) (g : G) → Quiet g (ni_enable_xkb e enabled g).1
unfolding ni_enable_xkb
enable_xkb-Quiet e enabled g =
    let g' : G = record g { xkb_enabled = nonzero enabled } in
    let same = Quiet-same g g' refl refl refl in
    let g1 = release state g'.xkb_state g' in
    let g2 = release keymap g'.xkb_keymap g1 in
    let g3 = release context g'.xkb_ctx g2 in
    let freed = Quiet-trans g' g1 g3 (release-Quiet state g'.xkb_state g') (
      Quiet-trans g1 g2 g3 (release-Quiet keymap g'.xkb_keymap g1)
        (release-Quiet context g'.xkb_ctx g2)) in
    by_if (λ (r : ℤ × G). Quiet g r.1) e.have_xkb _ _
      (λ _.
        by_if (λ (r : ℤ × G). Quiet g r.1) (nonzero enabled) _ _
          (λ _. Quiet-trans g g' _ same (rebuild-Quiet e g'))
          (λ _.
            Quiet-trans g g' _ same (Quiet-trans g' g3 _ freed (Quiet-same g3 _ refl refl refl))))
      (λ _. same)

pub set_xkb_names-Quiet :
    (e : Env) (names : RuleNames) (g : G) → Quiet g (ni_set_xkb_names e names g).1
unfolding ni_set_xkb_names
set_xkb_names-Quiet e names g =
    by_if (λ (r : ℤ × G). Quiet g r.1) e.have_xkb _ _
      (λ _.
        by_if (λ (r : ℤ × G). Quiet g r.1) g.xkb_enabled _ _
          (λ _. Quiet-trans g _ _ (Quiet-same g _ refl refl refl) (rebuild-Quiet e _))
          (λ _. Quiet-same g _ refl refl refl))
      (λ _. Quiet-refl g)

pub register_callback-Quiet :
    (cb : Option ℕ) (user : ℕ) (flags : ℤ) (g : G)
    → Quiet g (ni_register_callback cb user flags g).1
unfolding ni_register_callback
register_callback-Quiet cb user flags g =
    by_if (λ (r : ℤ × G). Quiet g r.1) (not g.initialized || nonzero flags) _ _ (λ _. Quiet-refl g)
      (λ _. Quiet-same g _ refl refl refl)

pub register_key_callback-Quiet :
    (cb : Option ℕ) (user : ℕ) (flags : ℤ) (g : G)
    → Quiet g (ni_register_key_callback cb user flags g).1
unfolding ni_register_key_callback
register_key_callback-Quiet cb user flags g =
    by_if (λ (r : ℤ × G). Quiet g r.1) (not g.initialized) _ _ (λ _. Quiet-refl g)
      (λ _. Quiet-same g _ refl refl refl)

pub ni_poll-Quiet :
    (evts : Option (List NiEvent)) (max : ℤ) (g : G) → Quiet g (ni_poll evts max g).2
unfolding ni_poll
ni_poll-Quiet none max g = Quiet-refl g
ni_poll-Quiet (some evts) max g =
    by_if (λ (r : ℤ × Option (List NiEvent) × G). Quiet g r.2)
      (not g.initialized || not_positive max) _ _ (λ _. Quiet-refl g)
      (λ _. Quiet-same g _ refl refl refl)

pub ni_poll_key_events-Quiet :
    (evts : Option (List NiKeyEvent)) (max : ℤ) (g : G) → Quiet g (ni_poll_key_events evts max g).2
unfolding ni_poll_key_events
ni_poll_key_events-Quiet none max g = Quiet-refl g
ni_poll_key_events-Quiet (some evts) max g =
    by_if (λ (r : ℤ × Option (List NiKeyEvent) × G). Quiet g r.2)
      (not g.initialized || not_positive max) _ _ (λ _. Quiet-refl g)
      (λ _. Quiet-same g _ refl refl refl)

spawned-Quiet : (t : Option ℕ) (g : G) → Quiet g (spawned_mice t g).1
spawned-Quiet none g =
    let g' : G = record g { mice_enabled = false } in
    Quiet-trans g g' _ (Quiet-same g g' refl refl refl) (Quiet-log (spawned none) g' tt)
spawned-Quiet (some t) g =
    let g' : G = record g { mice_thread = some t } in
    Quiet-trans g g' _ (Quiet-same g g' refl refl refl) (Quiet-log (spawned (some t)) g' tt)

spawn_mice-Quiet : (e : Env) (g : G) → Quiet g (spawn_mice e g).1
unfolding spawn_mice
spawn_mice-Quiet e g = spawned-Quiet (e.pthread_create g.trace) g

reader-Quiet : (e : Env) (t : Option ℕ) (g : G) → Quiet g (enable_reader e t g).1
reader-Quiet e (some t) g = Quiet-refl g
reader-Quiet e none g =
    by_if (λ (r : ℤ × G). Quiet g r.1) (spawn_mice e g).0 _ _ (λ _. spawn_mice-Quiet e g)
      (λ _. spawn_mice-Quiet e g)

pub enable_mice-Quiet : (e : Env) (enabled : ℤ) (g : G) → Quiet g (ni_enable_mice e enabled g).1
unfolding ni_enable_mice
enable_mice-Quiet e enabled g =
    let g' : G = record g { mice_enabled = nonzero enabled } in
    let same = Quiet-same g g' refl refl refl in
    by_if (λ (r : ℤ × G). Quiet g r.1) (not g.initialized) _ _ (λ _. same)
      (λ _.
        by_if (λ (r : ℤ × G). Quiet g r.1) (nonzero enabled) _ _
          (λ _. Quiet-trans g g' _ same (reader-Quiet e g'.mice_thread g')) (λ _. same))

pub mice_start-Quiet : (e : Env) (g : G) → Quiet g (mice_start e g).1
unfolding mice_start
mice_start-Quiet e g =
    let fd = e.mice_open g.trace in
    let g1 : G = record g { mice_fd = fd } in
    let opened_one =
      Quiet-trans g g1 _ (Quiet-same g g1 refl refl refl) (Quiet-log (other_opened fd) g1 tt) in
    by_if (λ (r : Running × G). Quiet g r.1) (is_neg g.mice_fd) _ _
      (λ _.
        by_if (λ (r : Running × G). Quiet g r.1) (is_neg fd) _ _ (λ _. opened_one)
          (λ _. opened_one))
      (λ _. Quiet-refl g)

pub mice_round-Quiet :
    (e : Env) (r : ReadBytes) (m : Reader) (g : G) → Quiet g (mice_round e r m g).2
unfolding mice_round
mice_round-Quiet e (bytes bs) m g =
    by_if (λ (r : Running × Reader × G). Quiet g r.2) (g.stop || not g.mice_enabled) _ _
      (λ _. mice_exit-Quiet g) (λ _. mice_bytes-Quiet e bs m g)
mice_round-Quiet e again m g =
    by_if (λ (r : Running × Reader × G). Quiet g r.2) (g.stop || not g.mice_enabled) _ _
      (λ _. mice_exit-Quiet g) (λ _. Quiet-refl g)
mice_round-Quiet e failed m g = mice_exit-Quiet g
