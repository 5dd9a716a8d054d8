-- ===== src/Apps/Demo/Holds.antt =====
-- What examples/sdl3_demo.c holds: its virtual device, its object and its thread.
use asyncinput.Prelude.{
  if_true, ◌==◌, arith, ℕ, ◌+◌, ◌≡◌, ap, ◌∙◌, [], ◌∷◌, ◌++◌, Bool, true, false, Option, none, some,
  if◌then◌else◌, if_false,
}
use asyncinput.Prelude.Int.{ℤ, is_neg, minus_one}
use asyncinput.Apps.Uinput.{
  slept, dev_create, dev_setup, demo_setup, demo_bits, uinput_opened, AppEnv, AppTrace, IsGivenBack,
  same, opens, closes, creates, destroys, allocated, freed, thread_made, thread_joined, demo_create,
  give_back,
}
use asyncinput.Apps.Demo.{put, demo_join}

-- how often an object was allocated and freed, and a thread made and joined
abbrev pub one_if : Bool → ℕ
one_if b = if b then 1 else 0

abbrev pub allocs : ℕ → AppTrace → ℕ
allocs p [] = 0
allocs p (allocated (some q) ∷ t) = one_if (p == q) + allocs p t
allocs p (_ ∷ t) = allocs p t

abbrev pub frees : ℕ → AppTrace → ℕ
frees p [] = 0
frees p (freed q ∷ t) = one_if (p == q) + frees p t
frees p (_ ∷ t) = frees p t

abbrev pub starts : ℕ → AppTrace → ℕ
starts h [] = 0
starts h (thread_made (some k) ∷ t) = one_if (h == k) + starts h t
starts h (_ ∷ t) = starts h t

abbrev pub joins : ℕ → AppTrace → ℕ
joins h [] = 0
joins h (thread_joined (some k) ∷ t) = one_if (h == k) + joins h t
joins h (_ ∷ t) = joins h t

-- Devices, memory and threads were given back as often as they were acquired.
pub record IsClean (t : AppTrace) : Type 0 where
  pub devices : IsGivenBack t
  pub memory : (p : ℕ) → allocs p t ≡ frees p t
  pub threads : (h : ℕ) → starts h t ≡ joins h t

-- A device, an object and perhaps a thread are held.
abbrev pub running_with : Option ℕ → ℕ → ℕ → ℕ
running_with none k n = n
running_with (some h) k n = one_if (k == h) + n

pub record Holds (fd : ℤ) (p : ℕ) (h : Option ℕ) (t : AppTrace) : Type 0 where
  pub devices :
      (x : ℤ) → (opens x t ≡ same x fd + closes x t) × (creates x t ≡ same x fd + destroys x t)
  pub memory : (q : ℕ) → allocs q t ≡ one_if (q == p) + frees q t
  pub threads : (k : ℕ) → starts k t ≡ running_with h k (joins k t)

-- the trace after the device is made
module _ (u : AppEnv) (key : Bool) (t : AppTrace) (there : is_neg (u.open_uinput t) ≡ false) where
  abbrev pub made : AppTrace
  made =
      let fd = u.open_uinput t in
      slept 1 ∷ dev_create fd ∷ dev_setup fd (demo_setup u) ∷ demo_bits u key fd
      ++ uinput_opened fd ∷ t

  pub demo_create_lem : demo_create u key t ≡ (u.open_uinput t, made)
  unfolding demo_create
  demo_create_lem = if_false _ _ _ there

-- one more opened, made or allocated
one_opened :
    (fd : ℤ) (t : AppTrace)
    → is_neg fd ≡ false
    → IsGivenBack t
    → (x : ℤ)
    → ((if is_neg fd then 0 else same x fd) + opens x t ≡ same x fd + closes x t)
      × (same x fd + creates x t ≡ same x fd + destroys x t)
one_opened fd t there b x =
    let (o, c) = b x in
    (
      ap (λ (n : ℕ). n + opens x t) (if_false _ _ _ there) ∙ ap (λ (n : ℕ). same x fd + n) o,
      ap (λ (n : ℕ). same x fd + n) c,
    )

pub made-Holds :
    (u : AppEnv) (key : Bool) (p : ℕ) (t : AppTrace)
    (there : is_neg (u.open_uinput (allocated (some p) ∷ t)) ≡ false)
    → IsClean t
    → Holds
        (u.open_uinput (allocated (some p) ∷ t))
        p
        none
        (made u key (allocated (some p) ∷ t) there)
made-Holds u true p t there c = record {
  devices = one_opened (u.open_uinput (allocated (some p) ∷ t)) t there c.devices;
  memory = λ q. ap (λ (n : ℕ). one_if (q == p) + n) (c.memory q);
  threads = c.threads;
}
made-Holds u false p t there c = record {
  devices = one_opened (u.open_uinput (allocated (some p) ∷ t)) t there c.devices;
  memory = λ q. ap (λ (n : ℕ). one_if (q == p) + n) (c.memory q);
  threads = c.threads;
}

-- `SDL_AppQuit` gives it all back.
pub given_back-IsClean :
    (fd : ℤ) (p : ℕ) (h : Option ℕ) (t : AppTrace)
    → Holds fd p h t
    → IsClean (freed p ∷ give_back fd (demo_join h t))
given_back-IsClean fd p none t o = record {
  devices = o.devices;
  memory = o.memory;
  threads = o.threads;
}
given_back-IsClean fd p (some h) t o = record {
  devices = o.devices;
  memory = o.memory;
  threads = o.threads;
}

pub started-Holds :
    (fd : ℤ) (p h : ℕ) (t : AppTrace)
    → Holds fd p none t
    → Holds fd p (some h) (thread_made (some h) ∷ t)
started-Holds fd p h t o = record {
  devices = o.devices;
  memory = o.memory;
  threads = λ k. ap (λ (n : ℕ). one_if (k == h) + n) (o.threads k);
}

pub unmade :
    (u : AppEnv) (key : Bool) (t : AppTrace)
    → is_neg (u.open_uinput t) ≡ true
    → demo_create u key t ≡ (minus_one, uinput_opened (u.open_uinput t) ∷ t)
unfolding demo_create
unmade u key t neg = if_true _ _ _ neg

-- what was stored last
pub put_lem {ℓ} : {A : Type ℓ} (p : ℕ) (o : Option A) (m : ℕ → Option A) → put p o m p ≡ o
put_lem p o m = if_true (p == p) o (m p) (ground arith)
