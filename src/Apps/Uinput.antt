-- ===== src/Apps/Uinput.antt =====
-- The programs of examples that make a virtual device of /dev/uinput: examples/callback_demo.c,
-- examples/benchmark_asyncinput.c, examples/sdl3_demo.c and examples/benchmark.c. The kernel's answers are
-- parameters; the results of `ioctl` are ignored by the programs.
use asyncinput.Prelude.{
  if_true, arith, ℕ, ◌+◌, ◌≡◌, List, [], ◌∷◌, ◌++◌, Bool, true, false, Option, if◌then◌else◌,
}
use asyncinput.Prelude.Int.{ℤ, is_neg, minus_one, eqb_ℤ}
use asyncinput.Posix.Paths.{codes}
use asyncinput.Apps.Generator.{UinputCodes}

-- `struct uinput_setup`, the members that are set
pub record Setup : Type 0 where
  pub name : List ℕ
  pub bustype : ℕ
  pub vendor : ℕ
  pub product : ℕ

-- What a program asks of the system; its trace holds the newest first. `none` is a failure. `unset_joined` is
-- `pthread_join` on a handle that nothing has set, which is undefined: a trace that holds it says nothing
-- of what the program does from there on.
pub data AppCall : Type 0 where
  uinput_opened uinput_closed : ℤ → AppCall
  set_evbit set_mscbit set_keybit : ℤ → ℕ → AppCall
  dev_setup : ℤ → Setup → AppCall
  dev_create dev_destroy : ℤ → AppCall
  slept : ℕ → AppCall
  thread_made thread_joined : Option ℕ → AppCall
  unset_joined : AppCall
  sdl_inited window_made : Bool → AppCall
  allocated : Option ℕ → AppCall
  freed : ℕ → AppCall
  renderer_destroyed window_destroyed : AppCall

abbrev pub AppTrace : Type 0
AppTrace = List AppCall

-- The system, as far as the programs ask it, and SDL.
pub record AppEnv : Type 0 where
  pub codes : UinputCodes
  pub bus_usb : ℕ
  pub open_uinput : AppTrace → ℤ
  pub pthread_create : AppTrace → Option ℕ
  pub sdl_init : AppTrace → Bool
  pub create_window : AppTrace → Bool
  pub calloc : AppTrace → Option ℕ

-- a device with the given settings, the newest last; `sleep(1)` lets it appear
abbrev pub create_device : AppEnv → (ℤ → AppTrace) → Setup → AppTrace → ℤ × AppTrace
create_device e bits us t =
    let fd = e.open_uinput t in
    if is_neg fd
    then (minus_one, uinput_opened fd ∷ t)
    else (fd, slept 1 ∷ dev_create fd ∷ dev_setup fd us ∷ bits fd ++ uinput_opened fd ∷ t)

abbrev pub setup_of : AppEnv → List ℕ → ℕ → ℕ → Setup
setup_of e name vendor product = record {
  name = name;
  bustype = e.bus_usb;
  vendor = vendor;
  product = product;
}

-- EV_SYN and EV_MSC with MSC_SCAN
abbrev pub scan_bits : AppEnv → ℤ → AppTrace
scan_bits e fd =
    set_mscbit fd e.codes.msc_scan ∷ set_evbit fd e.codes.ev_msc ∷ set_evbit fd e.codes.ev_syn ∷ []

abbrev pub key_bits : AppEnv → ℤ → AppTrace
key_bits e fd = set_keybit fd e.codes.key_a ∷ set_evbit fd e.codes.ev_key ∷ []

abbrev pub callback_setup : AppEnv → Setup
callback_setup e = setup_of e (codes "asyncinput-demo-10khz") 0x1111 0x2222

abbrev pub benchmark_setup : AppEnv → Setup
benchmark_setup e = setup_of e (codes "asyncinput-bench-10khz") 0x1111 0x4444

abbrev pub demo_setup : AppEnv → Setup
demo_setup e = setup_of e (codes "asyncinput-sdl3-10khz") 0x1111 0x3333

abbrev pub demo_bits : AppEnv → Bool → ℤ → AppTrace
demo_bits e true fd = key_bits e fd ++ scan_bits e fd
demo_bits e false fd = scan_bits e fd

-- `create_uinput_device` of the three programs with a generator
unfoldable pub callback_create : AppEnv → AppTrace → ℤ × AppTrace
callback_create e = create_device e (scan_bits e) (callback_setup e)

unfoldable pub benchmark_create : AppEnv → AppTrace → ℤ × AppTrace
benchmark_create e = create_device e (scan_bits e) (benchmark_setup e)

unfoldable pub demo_create : AppEnv → Bool → AppTrace → ℤ × AppTrace
demo_create e emit_key = create_device e (demo_bits e emit_key) (demo_setup e)

-- `create_virtual_device` of examples/benchmark.c
unfoldable pub create_virtual_device : AppEnv → AppTrace → ℤ × AppTrace
create_virtual_device e =
    create_device e (key_bits e) (setup_of e (codes "Benchmark Virtual Device") 0x1234 0x5678)

-- `ioctl(ufd, UI_DEV_DESTROY); close(ufd);`
abbrev pub give_back : ℤ → AppTrace → AppTrace
give_back fd t = uinput_closed fd ∷ dev_destroy fd ∷ t

-- No handle was joined that nothing has set.
abbrev pub IsDefined : AppTrace → Type 0
IsDefined [] = Unit
IsDefined (unset_joined ∷ t) = ⊥
IsDefined (_ ∷ t) = IsDefined t

-- how often a descriptor of a virtual device was opened and closed, and a device made and destroyed
abbrev pub same : ℤ → ℤ → ℕ
same x fd = if eqb_ℤ x fd then 1 else 0

abbrev pub opens : ℤ → AppTrace → ℕ
opens x [] = 0
opens x (uinput_opened fd ∷ t) = (if is_neg fd then 0 else same x fd) + opens x t
opens x (_ ∷ t) = opens x t

abbrev pub closes : ℤ → AppTrace → ℕ
closes x [] = 0
closes x (uinput_closed fd ∷ t) = same x fd + closes x t
closes x (_ ∷ t) = closes x t

abbrev pub creates : ℤ → AppTrace → ℕ
creates x [] = 0
creates x (dev_create fd ∷ t) = same x fd + creates x t
creates x (_ ∷ t) = creates x t

abbrev pub destroys : ℤ → AppTrace → ℕ
destroys x [] = 0
destroys x (dev_destroy fd ∷ t) = same x fd + destroys x t
destroys x (_ ∷ t) = destroys x t

-- Every descriptor was closed as often as it was opened, and every device destroyed as often as made.
abbrev pub IsGivenBack : AppTrace → Type 0
IsGivenBack t = (x : ℤ) → (opens x t ≡ closes x t) × (creates x t ≡ destroys x t)

-- A descriptor that could not be opened does not count.
pub unopened :
    (x fd : ℤ) (t : AppTrace) → is_neg fd ≡ true → opens x (uinput_opened fd ∷ t) ≡ opens x t
unopened x fd t neg = omega (arith, if_true (is_neg fd) 0 (same x fd) neg)
