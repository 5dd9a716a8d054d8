-- ===== src/Apps/Programs/Devices.antt =====
-- The virtual devices of the programs of examples, on each way out of `main`.
use asyncinput.Prelude.{
  arith, ℕ, suc, Option, none, some, ◌+◌, ◌≡◌, refl, ap, ◌∙◌, ◌∷◌, ◌++◌, true, false, if_true,
  if_false,
}
use asyncinput.Prelude.Int.{ℤ, pos, is_neg, nonzero, eqb_ℤ_refl}
use asyncinput.Posix.{Env, G}
use asyncinput.Posix.Api.{ni_init}
use asyncinput.Apps.Uinput.{
  thread_made, AppEnv, AppTrace, Setup, give_back, IsGivenBack, same, opens, closes, scan_bits,
  create_device, callback_setup, slept, dev_create, dev_setup, uinput_opened, callback_create,
}
use asyncinput.Apps.Programs.{join_generator, generate_meanwhile, App, callback_main}

-- A device with scan codes that was made: what it leaves in the trace.
module _ (u : AppEnv) (us : Setup) (t : AppTrace) (there : is_neg (u.open_uinput t) ≡ false) where
  abbrev pub made : AppTrace
  made =
      let fd = u.open_uinput t in
      slept 1 ∷ dev_create fd ∷ dev_setup fd us ∷ scan_bits u fd ++ uinput_opened fd ∷ t

  pub create_device_lem : create_device u (scan_bits u) us t ≡ (u.open_uinput t, made)
  create_device_lem = if_false _ _ _ there

  made-opens : (x : ℤ) → opens x made ≡ same x (u.open_uinput t) + opens x t
  made-opens x = ap (λ (n : ℕ). n + opens x t) (if_false _ _ _ there)

  pub given_back : IsGivenBack t → IsGivenBack (give_back (u.open_uinput t) made)
  given_back b x =
      let (o, c) = b x in
      let one = same x (u.open_uinput t) in
      (made-opens x ∙ ap (λ (n : ℕ). one + n) o, ap (λ (n : ℕ). one + n) c)

-- Neither starting nor joining the generator concerns the devices.
joined-IsGivenBack :
    (h : Option ℕ) (fd : ℤ) (t : AppTrace)
    → IsGivenBack (give_back fd t)
    → IsGivenBack (give_back fd (join_generator h (thread_made h ∷ t)))
joined-IsGivenBack none fd t b x = b x
joined-IsGivenBack (some h) fd t b x = b x

pub generated-IsGivenBack :
    (u : AppEnv) (fd : ℤ) (t : AppTrace)
    → IsGivenBack (give_back fd t)
    → IsGivenBack (give_back fd (generate_meanwhile u t))
generated-IsGivenBack u fd t = joined-IsGivenBack (u.pthread_create t) fd t

-- When `ni_init` fails, `main` in examples/callback_demo.c returns 1 with the descriptor of its virtual
-- device opened once more than closed.
callback_main-leaks :
    (e : Env) (u : AppEnv) (meanwhile : G → G) (a : App)
    → is_neg (u.open_uinput a.trace) ≡ false
    → nonzero (ni_init e (pos 0) a.g).0 ≡ true
    → IsGivenBack a.trace
    → ((callback_main e u meanwhile a).0 ≡ 1)
      × (opens (u.open_uinput a.trace) (callback_main e u meanwhile a).1.trace
          ≡ suc (closes (u.open_uinput a.trace) (callback_main e u meanwhile a).1.trace))
unfolding callback_main callback_create
callback_main-leaks e u meanwhile a there failed b =
    let fd = u.open_uinput a.trace in
    let one : same fd fd ≡ 1 = if_true _ _ _ (eqb_ℤ_refl fd) in
    let t' = made u (callback_setup u) a.trace there in
    let twice : opens fd t' ≡ suc (closes fd t') =
      omega (arith, made-opens u (callback_setup u) a.trace there fd, one, (b fd).0) in
    rw (create_device_lem u (callback_setup u) a.trace there, there, failed) (refl, twice)
