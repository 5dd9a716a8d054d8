-- ===== src/Posix/Keys/Objects.antt =====
-- Who owns the objects of libxkbcommon: src/libasyncinput_posix.c holds one reference in each of
-- `g.xkb_ctx`, `g.xkb_keymap` and `g.xkb_state`.
use asyncinput.Prelude.{
  ℕ, ◌+◌, ◌≡◌, refl, sym, ap, ◌∙◌, [], ◌∷◌, Bool, true, false, Option, none, some, if◌then◌else◌,
  arith, by_if, subst, if_true, ◌==◌,
}
use asyncinput.Prelude.Int.{ℤ, pos, nonzero}
use asyncinput.Posix.{
  Env, G, Trace, log, XkbKind, context, keymap, state, RuleNames, xkb_made, xkb_unref, Call,
}
use asyncinput.Posix.Keys.{
  adopt, release, with_context, install, compile, rebuild_xkb_keymap, ni_enable_xkb,
  ni_set_xkb_names, rule_names,
}

-- 1 if the handle is `x`
abbrev pub held : ℕ → Option ℕ → ℕ
held x none = 0
held x (some h) = if h == x then 1 else 0

abbrev pub same : XkbKind → XkbKind → Bool
same context context = true
same keymap keymap = true
same state state = true
same _ _ = false

-- 1 if the handle is `x` and the kinds agree
abbrev pub object : XkbKind → ℕ → XkbKind → Option ℕ → ℕ
object k x k' o = if same k k' then held x o else 0

-- how often libxkbcommon has returned the object `x` of kind `k`, and how often it was unreferenced
abbrev pub made : XkbKind → ℕ → Trace → ℕ
made k x [] = 0
made k x (xkb_made k' o ∷ t) = object k x k' o + made k x t
made k x (_ ∷ t) = made k x t

abbrev pub freed : XkbKind → ℕ → Trace → ℕ
freed k x [] = 0
freed k x (xkb_unref k' h ∷ t) = object k x k' (some h) + freed k x t
freed k x (_ ∷ t) = freed k x t

abbrev pub current : XkbKind → G → Option ℕ
current context g = g.xkb_ctx
current keymap g = g.xkb_keymap
current state g = g.xkb_state

-- Of each object as many references are alive as the fields of `g` hold.
abbrev pub IsOwned : G → Type 0
IsOwned g = (k : XkbKind) (x : ℕ) → made k x g.trace ≡ freed k x g.trace + held x (current k g)

-- The same while a new keymap and a new state are not in their fields yet.
abbrev Owes : Option ℕ → Option ℕ → G → Type 0
Owes km st g =
    (k : XkbKind) (x : ℕ)
    → made k x g.trace
      ≡ freed k x g.trace + held x (current k g) + object k x keymap km + object k x state st

object-none : (k : XkbKind) (x : ℕ) (k' : XkbKind) → object k x k' none ≡ 0
object-none k x k' = ground arith

-- Each kind has one field.
object-current :
    (k : XkbKind) (x : ℕ) (g : G)
    → object k x context g.xkb_ctx + object k x keymap g.xkb_keymap + object k x state g.xkb_state
      ≡ held x (current k g)
object-current context x g = omega arith
object-current keymap x g = omega arith
object-current state x g = omega arith

release-account :
    (k' : XkbKind) (o : Option ℕ) (g : G) (k : XkbKind) (x : ℕ)
    → (made k x (release k' o g).trace ≡ made k x g.trace)
      × (freed k x (release k' o g).trace ≡ object k x k' o + freed k x g.trace)
      × (current k (release k' o g) ≡ current k g)
unfolding release
release-account k' none g k x = (refl, omega (arith, object-none k x k'), refl)
release-account k' (some h) g context x = (refl, refl, refl)
release-account k' (some h) g keymap x = (refl, refl, refl)
release-account k' (some h) g state x = (refl, refl, refl)

current-log : (k : XkbKind) (c : Call) (g : G) → current k (log c g) ≡ current k g
current-log context c g = refl
current-log keymap c g = refl
current-log state c g = refl

adopt-IsOwned : (km : ℕ) (st : Option ℕ) (g : G) → Owes (some km) st g → IsOwned (adopt km st g).1
unfolding adopt
adopt-IsOwned km none g h k x =
    omega (arith, h k x, object-none k x state, ap (held x) (current-log k (xkb_unref keymap km) g))
adopt-IsOwned km (some st) g h context x =
    let g' = release state g.xkb_state g in
    let (made1, freed1, kept1) = release-account state g.xkb_state g context x in
    let (made2, freed2, kept2) = release-account keymap g.xkb_keymap g' context x in
    omega (arith, h context x, made1, made2, freed1, freed2, ap (held x) (kept2 ∙ kept1))
adopt-IsOwned km (some st) g h keymap x =
    let g' = release state g.xkb_state g in
    let (made1, freed1, kept1) = release-account state g.xkb_state g keymap x in
    let (made2, freed2, kept2) = release-account keymap g.xkb_keymap g' keymap x in
    omega (arith, h keymap x, made1, made2, freed1, freed2)
adopt-IsOwned km (some st) g h state x =
    let g' = release state g.xkb_state g in
    let (made1, freed1, kept1) = release-account state g.xkb_state g state x in
    let (made2, freed2, kept2) = release-account keymap g.xkb_keymap g' state x in
    omega (arith, h state x, made1, made2, freed1, freed2)

install-IsOwned : (e : Env) (o : Option ℕ) (g : G) → Owes o none g → IsOwned (install e o g).1
unfolding install
install-IsOwned e none g h =
    λ k x. omega (arith, h k x, object-none k x keymap, object-none k x state)
install-IsOwned e (some km) g h =
    let st = e.xkb_state_new g.trace km in
    adopt-IsOwned km st (log (xkb_made state st) g)
      (λ k x. omega (arith, h k x, object-none k x state, ap (held x) (current-log k _ g)))

compile-IsOwned : (e : Env) (o : Option ℕ) (g : G) → IsOwned g → IsOwned (compile e o g).1
unfolding compile
compile-IsOwned e none g h = h
compile-IsOwned e (some ctx) g h =
    let km = e.xkb_keymap_new g.trace ctx (rule_names g) in
    install-IsOwned e km (log (xkb_made keymap km) g)
      (λ k x. omega (arith, h k x, object-none k x state, ap (held x) (current-log k _ g)))

context-IsOwned :
    (e : Env) (o : Option ℕ) (g : G) → g.xkb_ctx ≡ o → IsOwned g → IsOwned (with_context e o g)
unfolding with_context
context-IsOwned e (some ctx) g c h k x = h k x
context-IsOwned e none g c h context x = omega (arith, h context x, ap (held x) c)
context-IsOwned e none g c h keymap x = omega (arith, h keymap x)
context-IsOwned e none g c h state x = omega (arith, h state x)

rebuild-IsOwned : (e : Env) (g : G) → IsOwned g → IsOwned (rebuild_xkb_keymap e g).1
unfolding rebuild_xkb_keymap
rebuild-IsOwned e g h =
    let ready = context-IsOwned e g.xkb_ctx g refl h in
    let g' = with_context e g.xkb_ctx g in
    by_if (λ (r : ℤ × G). IsOwned r.1) e.have_xkb _ _
      (λ _.
        by_if (λ (r : ℤ × G). IsOwned r.1) g.xkb_enabled _ _
          (λ _. compile-IsOwned e g'.xkb_ctx g' ready) (λ _. h))
      (λ _. h)

-- the state after the objects are given back
abbrev disabled : G → G
disabled g =
    record (release context g.xkb_ctx (release keymap g.xkb_keymap (release state g.xkb_state g))) {
      xkb_state = none;
      xkb_keymap = none;
      xkb_ctx = none;
    }

gone : (k : XkbKind) (x : ℕ) (g : G) → held x (current k (disabled g)) ≡ 0
gone context x g = refl
gone keymap x g = refl
gone state x g = refl

disabled-IsOwned : (g : G) → IsOwned g → IsOwned (disabled g)
disabled-IsOwned g h k x =
    let g1 = release state g.xkb_state g in
    let g2 = release keymap g.xkb_keymap g1 in
    let (made1, freed1, kept1) = release-account state g.xkb_state g k x in
    let (made2, freed2, kept2) = release-account keymap g.xkb_keymap g1 k x in
    let (made3, freed3, kept3) = release-account context g.xkb_ctx g2 k x in
    omega
      (arith, h k x, made1, made2, made3, freed1, freed2, freed3, object-current k x g, gone k x g)

-- A change of other fields keeps the account.
IsOwned-same :
    (g s : G)
    → s.trace ≡ g.trace
    → s.xkb_ctx ≡ g.xkb_ctx
    → s.xkb_keymap ≡ g.xkb_keymap
    → s.xkb_state ≡ g.xkb_state
    → IsOwned g
    → IsOwned s
IsOwned-same g s t c m st h context x = rw (t, c) (h context x)
IsOwned-same g s t c m st h keymap x = rw (t, m) (h keymap x)
IsOwned-same g s t c m st h state x = rw (t, st) (h state x)

-- `ni_enable_xkb`, with whatever argument and however the calls of libxkbcommon fail, keeps it true that
-- of each object as many references are alive as the fields of `g` hold: none leaks, none is given back
-- twice.
pub ni_enable_xkb-IsOwned :
    (e : Env) (enabled : ℤ) (g : G) → IsOwned g → IsOwned (ni_enable_xkb e enabled g).1
unfolding ni_enable_xkb
ni_enable_xkb-IsOwned e enabled g h =
    let g' : G = record g { xkb_enabled = nonzero enabled } in
    let owned = IsOwned-same g g' refl refl refl refl h in
    by_if (λ (r : ℤ × G). IsOwned r.1) e.have_xkb _ _
      (λ _.
        by_if (λ (r : ℤ × G). IsOwned r.1) (nonzero enabled) _ _ (λ _. rebuild-IsOwned e g' owned)
          (λ _. disabled-IsOwned g' owned))
      (λ _. owned)

-- `ni_set_xkb_names`, with whatever names and however the calls of libxkbcommon fail, keeps it
-- true that of each object as many references are alive as the fields of `g` hold: none leaks,
-- none is given back twice.
pub ni_set_xkb_names-IsOwned :
    (e : Env) (names : RuleNames) (g : G) → IsOwned g → IsOwned (ni_set_xkb_names e names g).1
unfolding ni_set_xkb_names
ni_set_xkb_names-IsOwned e names g h =
    by_if (λ (r : ℤ × G). IsOwned r.1) e.have_xkb _ _
      (λ _.
        by_if (λ (r : ℤ × G). IsOwned r.1) g.xkb_enabled _ _
          (λ _. rebuild-IsOwned e _ (IsOwned-same g _ refl refl refl refl h))
          (λ _. IsOwned-same g _ refl refl refl refl h))
      (λ _. h)

-- Where the references alive are those in the fields of `g`, disabling the xkb layer of a build with
-- libxkbcommon returns 0 and has given back every reference that libxkbcommon returned.
ni_enable_xkb-frees :
    (e : Env) (g : G) (k : XkbKind) (x : ℕ)
    → e.have_xkb ≡ true
    → IsOwned g
    → let (result, s) = ni_enable_xkb e (pos 0) g in
      (result ≡ pos 0) × (made k x s.trace ≡ freed k x s.trace)
unfolding ni_enable_xkb
ni_enable_xkb-frees e g k y x h =
    let g' : G = record g { xkb_enabled = false } in
    subst (λ (r : ℤ × G). (r.0 ≡ pos 0) × (made k y r.1.trace ≡ freed k y r.1.trace))
      (sym (if_true e.have_xkb _ _ x))
      (
        refl,
        omega
            (arith, disabled-IsOwned g' (IsOwned-same g g' refl refl refl refl h) k y, gone k y g'),
      )
