-- ===== src/Posix/Keys.antt =====
-- The xkb layer of src/libasyncinput_posix.c: keyboard objects and high-level key events. The calls of
-- libxkbcommon are answered by the environment.
pub mod Objects
pub mod Events
mod Tests
use asyncinput.Prelude.{
  ℕ, ◌+◌, ◌%◌, ◌^◌, ◌-◌, Bool, true, false, List, [], ◌∷◌, Option, none, some, if◌then◌else◌, take,
}
use asyncinput.Prelude.Int.{ℤ, pos, negsuc, minus_one, eqb_ℤ, nonzero, of_Bool}
use asyncinput.Event.{
  NiEvent, NiKeyEvent, blank_key_event, kmod_shift, kmod_ctrl, kmod_alt, kmod_super,
}
use asyncinput.Ring.{ring_size, ring_push}
use asyncinput.Ring.Copies.{keyring_push}
use asyncinput.Posix.{
  Env, G, Trace, log, XkbKind, context, keymap, state, XkbMod, shift, ctrl, alt, logo, RuleNames,
  xkb_made, xkb_unref, xkb_updated, key_called,
}

-- `if (active) m |= bit`; the four bits are distinct, so the union is a sum.
abbrev mod_bit : Bool → ℕ → ℕ
mod_bit active mask = if active then mask else 0

-- NULL gives no modifiers.
unfoldable pub mods_of : Env → G → Option ℕ → ℕ
mods_of e g none = 0
mods_of e g (some st) =
    mod_bit (e.xkb_mod_active g.trace st shift) kmod_shift
    + mod_bit (e.xkb_mod_active g.trace st ctrl) kmod_ctrl
    + mod_bit (e.xkb_mod_active g.trace st alt) kmod_alt
    + mod_bit (e.xkb_mod_active g.trace st logo) kmod_super

unfoldable pub mods_mask_from_state : Env → G → ℕ
unfolding mods_of
mods_mask_from_state e g = if e.have_xkb then mods_of e g g.xkb_state else 0

-- (uint32_t)v
abbrev pub to_uint32 : ℤ → ℕ
to_uint32 (pos n) = n % 2 ^ 32
to_uint32 (negsuc n) = 2 ^ 32 - 1 - n % 2 ^ 32

-- Evdev to XKB keycode: (uint32_t)base->code + 8u
abbrev pub xkb_code : ℤ → ℕ
xkb_code code = (to_uint32 code + 8) % 2 ^ 32

-- `xkb_state_update_key` and the key event that is made after it
unfoldable pub make_key_event : Env → NiEvent → ℕ → G → NiKeyEvent × G
unfolding mods_mask_from_state
make_key_event e base st g =
    let down = nonzero base.value in
    let k = xkb_code base.code in
    let g' = log (xkb_updated st k down) g in
    (
      record {
        device_id = base.device_id;
        keysym = e.xkb_one_sym g'.trace st k;
        text = if down then take 63 (e.xkb_utf8 g'.trace st k) else [];
        down = of_Bool down;
        mods = mods_mask_from_state e g';
        timestamp_ns = base.timestamp_ns;
      },
      g',
    )

-- The key callback if there is one, else the key queue.
unfoldable pub emit_key_to : Option ℕ → NiKeyEvent → G → G
emit_key_to (some f) kev g = log (key_called f g.key_cb_user kev) g
emit_key_to none kev g = record g { key_queue = keyring_push g.key_queue kev }

unfoldable pub emit_key : NiKeyEvent → G → G
unfolding emit_key_to
emit_key kev g = emit_key_to g.key_cb kev g

unfoldable pub translate : Env → NiEvent → Option ℕ → G → G
unfolding make_key_event emit_key
translate e base none g = g
translate e base (some st) g = let (kev, g') = make_key_event e base st g in emit_key kev g'

unfoldable pub maybe_emit_key_event : Env → NiEvent → G → G
unfolding translate
maybe_emit_key_event e base g =
    if g.xkb_enabled
    then (if e.have_xkb
        then (if eqb_ℤ base.type e.codes.ev_key then translate e base g.xkb_state g else g)
        else g)
    else g

-- `g.xkb_rules[0] ? g.xkb_rules : NULL`
abbrev name_or_null : List ℕ → Option (List ℕ)
name_or_null [] = none
name_or_null (c ∷ cs) = some (c ∷ cs)

abbrev pub rule_names : G → RuleNames
rule_names g = record {
  rules = name_or_null g.xkb_rules;
  model = name_or_null g.xkb_model;
  layout = name_or_null g.xkb_layout;
  variant = name_or_null g.xkb_variant;
  options = name_or_null g.xkb_options;
}

-- `if (p) unref(p)`
unfoldable pub release : XkbKind → Option ℕ → G → G
release kind none g = g
release kind (some h) g = log (xkb_unref kind h) g

-- `if (!g.xkb_ctx) g.xkb_ctx = xkb_context_new(…)`
unfoldable pub with_context : Env → Option ℕ → G → G
with_context e (some ctx) g = g
with_context e none g =
    let ctx = e.xkb_context_new g.trace in log (xkb_made context ctx) (record g { xkb_ctx = ctx })

-- The new state is there: the old objects go, the new ones take their place. Without it the keymap goes.
unfoldable pub adopt : ℕ → Option ℕ → G → ℤ × G
unfolding release
adopt km none g = (minus_one, log (xkb_unref keymap km) g)
adopt km (some st) g = (
  pos 0,
  record (release keymap g.xkb_keymap (release state g.xkb_state g)) {
    xkb_keymap = some km;
    xkb_state = some st;
  },
)

unfoldable pub install : Env → Option ℕ → G → ℤ × G
unfolding adopt
install e none g = (minus_one, g)
install e (some km) g =
    let st = e.xkb_state_new g.trace km in adopt km st (log (xkb_made state st) g)

unfoldable pub compile : Env → Option ℕ → G → ℤ × G
unfolding install
compile e none g = (minus_one, g)
compile e (some ctx) g =
    let km = e.xkb_keymap_new g.trace ctx (rule_names g) in
    install e km (log (xkb_made keymap km) g)

unfoldable pub rebuild_xkb_keymap : Env → G → ℤ × G
unfolding with_context compile
rebuild_xkb_keymap e g =
    let g' = with_context e g.xkb_ctx g in
    if e.have_xkb
    then (if g.xkb_enabled then compile e g'.xkb_ctx g' else (pos 0, g))
    else (minus_one, g)

unfoldable pub ni_enable_xkb : Env → ℤ → G → ℤ × G
unfolding rebuild_xkb_keymap release
ni_enable_xkb e enabled g =
    let g' = record g { xkb_enabled = nonzero enabled } in
    if e.have_xkb
    then (if nonzero enabled then rebuild_xkb_keymap e g' else (
      pos 0,
      record (release context g'.xkb_ctx
          (release keymap g'.xkb_keymap (release state g'.xkb_state g'))) {
            xkb_state = none;
            xkb_keymap = none;
            xkb_ctx = none;
          },
    ))
    else (minus_one, g')

-- `if (s) snprintf(buf, size, "%s", s)`, where NULL leaves the buffer as it is
abbrev overwrite : ℕ → Option (List ℕ) → List ℕ → List ℕ
overwrite size none old = old
overwrite size (some s) old = take (size - 1) s

unfoldable pub ni_set_xkb_names : Env → RuleNames → G → ℤ × G
unfolding rebuild_xkb_keymap
ni_set_xkb_names e names g =
    let g' = record g {
      xkb_rules = overwrite 32 names.rules g.xkb_rules;
      xkb_model = overwrite 32 names.model g.xkb_model;
      xkb_layout = overwrite 64 names.layout g.xkb_layout;
      xkb_variant = overwrite 32 names.variant g.xkb_variant;
      xkb_options = overwrite 128 names.options g.xkb_options;
    } in
    if e.have_xkb
    then (if g'.xkb_enabled then rebuild_xkb_keymap e g' else (pos 0, g'))
    else (minus_one, g)
