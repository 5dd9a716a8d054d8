-- ===== src/Apps/Programs/Release.antt =====
-- What the programs of examples give back on each way out.
use asyncinput.Prelude.{
  subst, ℕ, ◌+◌, ◌≡◌, refl, sym, ap, ◌∙◌, List, [], ◌∷◌, true, false, Option, none, some, if_false,
  by_if, ◌==◌,
}
use asyncinput.Prelude.Int.{ℤ, pos, is_neg, nonzero}
use asyncinput.Posix.{Env, G, Device, closed, log}
use asyncinput.Posix.Quiet.{fits}
use asyncinput.Posix.Devices.{live}
use asyncinput.Posix.Api.{
  ni_init, ni_shutdown, shut_down, close_devices, join, ni_register_callback, ni_set_device_filter,
  ni_device_count,
}
use asyncinput.Posix.Api.Lifecycle.{IsClosed}
use asyncinput.Posix.Runs.{register_callback, set_device_filter}
use asyncinput.Posix.Runs.Life.{Life, born, lived, Life-on, Life-ni_shutdown}
use asyncinput.Apps.Uinput.{
  AppEnv, AppTrace, give_back, IsGivenBack, IsDefined, benchmark_setup, benchmark_create,
}
use asyncinput.Apps.Demo.Holds.{starts, joins, one_if}
use asyncinput.Apps.Programs.Devices.{made, create_device_lem, given_back, generated-IsGivenBack}
use asyncinput.Apps.Programs.{
  App, callback, mouse_filter, generate_meanwhile, benchmark_registered, benchmark_main,
  run_registered, mouse_main, hotplug_filtered, hotplug_main, waited_for,
}

-- `ni_shutdown` registers no device.
join-fits : (t : Option ℕ) (g : G) → fits (join t g).trace ≡ fits g.trace
join-fits none g = refl
join-fits (some t) g = refl

close_devices-fits : (ds : List Device) (g : G) → fits (close_devices ds g).trace ≡ fits g.trace
unfolding close_devices
close_devices-fits [] g = refl
close_devices-fits (d ∷ ds) g = close_devices-fits ds (log (closed d.fd) g)

shut_down-fits : (g : G) → fits (shut_down g).trace ≡ fits g.trace
unfolding shut_down
shut_down-fits g =
    let g1 : G = record g { stop = true; mice_enabled = false } in
    let g2 = join g1.thread (join g1.mice_thread g1) in
    let g3 = close_devices (live g2) g2 in
    let silent =
      close_devices-fits (live g2) g2
      ∙ join-fits g1.thread (join g1.mice_thread g1)
      ∙ join-fits g1.mice_thread g1 in
    by_if (λ (u : G). fits u.trace ≡ fits g.trace) (is_neg g3.inotify_fd) _ _ (λ _. silent)
      (λ _. silent)

pub ni_shutdown-fits : (g : G) → fits (ni_shutdown g).1.trace ≡ fits g.trace
unfolding ni_shutdown
ni_shutdown-fits g =
    by_if (λ (u : G). fits u.trace ≡ fits g.trace) g.initialized _ _ (λ _. shut_down-fits g)
      (λ _. refl)

-- What happens meanwhile are steps of the library, its two threads' and its callers'.
abbrev pub IsRun : Env → (G → G) → Type 0
IsRun e meanwhile = (g : G) → Life e g → Life e (meanwhile g)

-- Every thread was joined, by a handle that was set.
abbrev pub HasJoined : AppTrace → Type 0
HasJoined t = IsDefined t × ((k : ℕ) → starts k t ≡ joins k t)

generated-HasJoined :
    (u : AppEnv) (fd : ℤ) (t : AppTrace) (h : ℕ)
    → u.pthread_create t ≡ some h
    → HasJoined t
    → HasJoined (give_back fd (generate_meanwhile u t))
generated-HasJoined u fd t h made_one (sound, same) =
    rw made_one (sound, λ k. ap (λ (n : ℕ). one_if (k == h) + n) (same k))

-- The library is not initialized, and no descriptor of an event device is open.
abbrev pub IsOff : G → Type 0
IsOff g = (g.initialized ≡ false) × IsClosed g.trace

pub ended-IsOff :
    (e : Env) (g : G) → Life e g → fits (ni_shutdown g).1.trace ≡ true → IsOff (ni_shutdown g).1
ended-IsOff e g life room =
    let (_, off, none_open) = Life-ni_shutdown e g life (sym (ni_shutdown-fits g) ∙ room) in
    (off, none_open)

-- A callback is registered with an initialized library.
pub registered_lem :
    (g : G) → g.initialized ≡ true → (ni_register_callback (some callback) 0 (pos 0) g).0 ≡ pos 0
unfolding ni_register_callback
registered_lem g on = rw on refl

registered-Life :
    (e : Env) (g : G) → Life e g → Life e (ni_register_callback (some callback) 0 (pos 0) g).1
registered-Life e g life = lived g _ (register_callback (some callback) 0 (pos 0) g) tt life

-- the library after the callback is registered
abbrev pub registered : G → G
registered g = (ni_register_callback (some callback) 0 (pos 0) g).1

run_registered_lem :
    (meanwhile : G → G) (g : G)
    → g.initialized ≡ true
    → run_registered meanwhile g ≡ (0, (ni_shutdown (meanwhile (registered g))).1)
unfolding run_registered
run_registered_lem meanwhile g on = if_false _ _ _ (ap nonzero (registered_lem g on))

benchmark_registered_lem :
    (e : Env) (u : AppEnv) (meanwhile : G → G) (ufd : ℤ) (t : AppTrace) (g : G)
    → g.initialized ≡ true
    → benchmark_registered e u meanwhile ufd t g ≡ (
      0,
      record {
        trace = give_back ufd (generate_meanwhile u t);
        g = (ni_shutdown (meanwhile (registered g))).1;
      },
    )
unfolding benchmark_registered
benchmark_registered_lem e u meanwhile ufd t g on =
    if_false _ _ _ (ap nonzero (registered_lem g on))

hotplug_filtered_lem :
    (plugged meanwhile : G → G) (g : G)
    → g.initialized ≡ true
    → hotplug_filtered plugged meanwhile g ≡ waited_for meanwhile (plugged (registered g))
unfolding hotplug_filtered
hotplug_filtered_lem plugged meanwhile g on = if_false _ _ _ (ap nonzero (registered_lem g on))

waited_for-IsOff :
    (e : Env) (meanwhile : G → G)
    → IsRun e meanwhile
    → (g : G) → Life e g
    → fits (waited_for meanwhile g).1.trace ≡ true
    → IsOff (waited_for meanwhile g).1
waited_for-IsOff e meanwhile run g life =
    by_if (λ (r : ℕ × G). fits r.1.trace ≡ true → IsOff r.1) (ni_device_count g == 0) _ _
      (λ _. ended-IsOff e g life) (λ _. ended-IsOff e (meanwhile g) (run g life))

-- A library that was off, and that `ni_init` has started.
module _ (e : Env) (g g1 : G) (off : IsOff g) (init : ni_init e (pos 0) g ≡ (pos 0, g1)) where
  pub started-Life : Life e g1
  started-Life = born (pos 0) g g1 off.1 off.0 init

  pub run-Life : (meanwhile : G → G) → IsRun e meanwhile → Life e (meanwhile (registered g1))
  run-Life meanwhile run = run (registered g1) (registered-Life e g1 started-Life)

  mouse_main_lem :
      (meanwhile : G → G)
      → mouse_main e meanwhile g ≡ (0, (ni_shutdown (meanwhile (registered g1))).1)
  unfolding mouse_main
  mouse_main_lem meanwhile = rw init (run_registered_lem meanwhile g1 (Life-on e g1 started-Life))

  -- `main` of examples/mouse_demo.c returns 0 and leaves the library off.
  mouse_main-IsOff :
      (meanwhile : G → G)
      → IsRun e meanwhile
      → fits (mouse_main e meanwhile g).1.trace ≡ true
      → ((mouse_main e meanwhile g).0 ≡ 0) × IsOff (mouse_main e meanwhile g).1
  mouse_main-IsOff meanwhile run room =
      let same = mouse_main_lem meanwhile in
      let room' = sym (ap (λ (r : ℕ × G). fits r.1.trace) same) ∙ room in
      rw same (refl, ended-IsOff e (meanwhile (registered g1)) (run-Life meanwhile run) room')

  filtered-Life : Life e (ni_set_device_filter e (some mouse_filter) 0 g1).1
  filtered-Life = lived g1 _ (set_device_filter (some mouse_filter) 0 g1) tt started-Life

  hotplug_main_lem :
      (plugged meanwhile : G → G)
      → hotplug_main e plugged meanwhile g
        ≡ waited_for meanwhile
            (plugged (registered (ni_set_device_filter e (some mouse_filter) 0 g1).1))
  unfolding hotplug_main
  hotplug_main_lem plugged meanwhile =
      rw init (hotplug_filtered_lem plugged meanwhile _ (Life-on e _ filtered-Life))

  -- `main` of examples/hotplug_mouse_wait.c leaves the library off, whether a mouse came or not.
  hotplug_main-IsOff :
      (plugged meanwhile : G → G)
      → IsRun e plugged
      → IsRun e meanwhile
      → fits (hotplug_main e plugged meanwhile g).1.trace ≡ true
      → IsOff (hotplug_main e plugged meanwhile g).1
  hotplug_main-IsOff plugged meanwhile waited run room =
      let same = hotplug_main_lem plugged meanwhile in
      let g' = registered (ni_set_device_filter e (some mouse_filter) 0 g1).1 in
      subst (λ (r : ℕ × G). IsOff r.1) (sym same)
        (waited_for-IsOff e meanwhile run (plugged g')
          (waited g' (registered-Life e _ filtered-Life))
          (sym (ap (λ (r : ℕ × G). fits r.1.trace) same) ∙ room))

  module _ (u : AppEnv) (t : AppTrace) (there : is_neg (u.open_uinput t) ≡ false)
      (balanced : IsGivenBack t) where
    benchmark_main_lem :
        (meanwhile : G → G)
        → benchmark_main e u meanwhile (record { trace = t; g = g }) ≡ (
          0,
          record {
            trace =
                give_back
                  (u.open_uinput t)
                  (generate_meanwhile u (made u (benchmark_setup u) t there));
            g = (ni_shutdown (meanwhile (registered g1))).1;
          },
        )
    unfolding benchmark_main benchmark_create
    benchmark_main_lem meanwhile =
        rw (init, create_device_lem u (benchmark_setup u) t there, there)
          (benchmark_registered_lem e u meanwhile (u.open_uinput t)
            (made u (benchmark_setup u) t there) g1 (Life-on e g1 started-Life))

    -- Let the virtual device open, let the virtual devices and the threads before have been given
    -- back, let `ni_init` succeed on a library that was off, let the generator thread start, and
    -- let any steps of the library happen while `main` of examples/benchmark_asyncinput.c waits,
    -- as long as no device was registered behind the array. Then `main` returns 0, the library is
    -- not initialized, no descriptor of an event device is open, every virtual device was destroyed
    -- and its descriptor closed, and the generator was joined, by a handle that was set.
    pub benchmark_main-releases :
        (meanwhile : G → G)
        → IsRun e meanwhile
        → HasJoined t
        → (h : ℕ) → u.pthread_create (made u (benchmark_setup u) t there) ≡ some h
        → fits (benchmark_main e u meanwhile (record { trace = t; g = g })).1.g.trace ≡ true
        → ((benchmark_main e u meanwhile (record { trace = t; g = g })).0 ≡ 0)
          × IsOff (benchmark_main e u meanwhile (record { trace = t; g = g })).1.g
          × IsGivenBack (benchmark_main e u meanwhile (record { trace = t; g = g })).1.trace
          × HasJoined (benchmark_main e u meanwhile (record { trace = t; g = g })).1.trace
    benchmark_main-releases meanwhile run before h starts room =
        let done = benchmark_main_lem meanwhile in
        rw done (
          refl,
          ended-IsOff e (meanwhile (registered g1)) (run-Life meanwhile run)
              (sym (ap (λ (r : ℕ × App). fits r.1.g.trace) done) ∙ room),
          generated-IsGivenBack u (u.open_uinput t) _
              (given_back u (benchmark_setup u) t there balanced),
          generated-HasJoined u (u.open_uinput t) (made u (benchmark_setup u) t there) h starts
              before,
        )
