-- ===== src/Apps/Programs.antt =====
-- The programs of examples that use the library, `main` of each: examples/callback_demo.c,
-- examples/benchmark_asyncinput.c, examples/mouse_demo.c, examples/hotplug_mouse_wait.c, examples/read_keys.c and
-- examples/device_specific_demo.c. What the library's threads do while a program waits, and what a program
-- itself reads and prints meanwhile, is a parameter `meanwhile` on the library's state.
pub mod Devices
pub mod Release
mod Tests
use asyncinput.Prelude.{ℕ, List, ◌∷◌, Bool, Option, none, some, if◌then◌else◌, ◌==◌}
use asyncinput.Prelude.Int.{ℤ, pos, is_neg, nonzero}
use asyncinput.Posix.{Env, G}
use asyncinput.Posix.Api.{
  ni_init, ni_shutdown, ni_register_callback, ni_set_device_filter, ni_device_count,
}
use asyncinput.Apps.Uinput.{
  AppEnv, AppTrace, thread_made, thread_joined, unset_joined, callback_create, benchmark_create,
  give_back,
}

-- a program's own trace, and the library
pub record App : Type 0 where
  pub trace : AppTrace
  pub g : G

-- The callback and the filter of a program, as the library refers to them.
abbrev pub callback : ℕ
callback = 1

abbrev pub mouse_filter : ℕ
mouse_filter = 1

-- The generator thread, which is started before the wait and joined after it. The result of
-- `pthread_create` is ignored: when it fails, the handle that is joined was never set.
abbrev pub join_generator : Option ℕ → AppTrace → AppTrace
join_generator none t = unset_joined ∷ t
join_generator (some h) t = thread_joined (some h) ∷ t

abbrev pub generate_meanwhile : AppEnv → AppTrace → AppTrace
generate_meanwhile u t = let h = u.pthread_create t in join_generator h (thread_made h ∷ t)

-- examples/benchmark_asyncinput.c, with its exit code
unfoldable pub benchmark_registered : Env → AppEnv → (G → G) → ℤ → AppTrace → G → ℕ × App
benchmark_registered e u meanwhile ufd t g =
    let (r, g') = ni_register_callback (some callback) 0 (pos 0) g in
    if nonzero r then (1, record { trace = give_back ufd t; g = (ni_shutdown g').1 }) else (
      0,
      record { trace = give_back ufd (generate_meanwhile u t); g = (ni_shutdown (meanwhile g')).1 },
    )

unfoldable pub benchmark_main : Env → AppEnv → (G → G) → App → ℕ × App
unfolding benchmark_registered
benchmark_main e u meanwhile a =
    let (ufd, t) = benchmark_create u a.trace in
    let (r, g) = ni_init e (pos 0) a.g in
    if is_neg ufd
    then (1, record a { trace = t })
    else if nonzero r
    then (1, record { trace = give_back ufd t; g = g })
    else benchmark_registered e u meanwhile ufd t g

-- examples/callback_demo.c
unfoldable pub callback_registered : Env → AppEnv → (G → G) → ℤ → AppTrace → G → ℕ × App
callback_registered e u meanwhile ufd t g =
    let (r, g') = ni_register_callback (some callback) 0 (pos 0) g in
    if nonzero r then (1, record { trace = t; g = g' }) else (
      0,
      record { trace = give_back ufd (generate_meanwhile u t); g = (ni_shutdown (meanwhile g')).1 },
    )

unfoldable pub callback_main : Env → AppEnv → (G → G) → App → ℕ × App
unfolding callback_registered
callback_main e u meanwhile a =
    let (ufd, t) = callback_create u a.trace in
    let (r, g) = ni_init e (pos 0) a.g in
    if is_neg ufd
    then (1, record a { trace = t })
    else if nonzero r
    then (1, record { trace = t; g = g })
    else callback_registered e u meanwhile ufd t g

-- After `ni_init`: the callback, the wait and the end.
unfoldable pub run_registered : (G → G) → G → ℕ × G
run_registered meanwhile g =
    let (r, g') = ni_register_callback (some callback) 0 (pos 0) g in
    if nonzero r then (1, (ni_shutdown g').1) else (0, (ni_shutdown (meanwhile g')).1)

-- examples/mouse_demo.c
unfoldable pub mouse_main : Env → (G → G) → G → ℕ × G
unfolding run_registered
mouse_main e meanwhile g =
    let (r, g') = ni_init e (pos 0) g in if nonzero r then (1, g') else run_registered meanwhile g'

-- examples/device_specific_demo.c
unfoldable pub device_specific_main : Env → (G → G) → G → ℕ × G
unfolding run_registered
device_specific_main e meanwhile g =
    let (r, g') = ni_init e (pos 0) g in if nonzero r then (1, g') else run_registered meanwhile g'

-- examples/read_keys.c, whose polls are part of what happens meanwhile
unfoldable pub read_keys_main : Env → (G → G) → G → ℕ × G
read_keys_main e meanwhile g =
    let (r, g') = ni_init e (pos 0) g in
    if nonzero r then (1, g') else (0, (ni_shutdown (meanwhile g')).1)

-- examples/hotplug_mouse_wait.c, with the wait for a mouse and the wait after it
abbrev pub waited_for : (G → G) → G → ℕ × G
waited_for meanwhile g =
    if ni_device_count g == 0 then (2, (ni_shutdown g).1) else (0, (ni_shutdown (meanwhile g)).1)

unfoldable pub hotplug_filtered : (G → G) → (G → G) → G → ℕ × G
hotplug_filtered plugged meanwhile g =
    let (r, g') = ni_register_callback (some callback) 0 (pos 0) g in
    if nonzero r then (1, (ni_shutdown g').1) else waited_for meanwhile (plugged g')

unfoldable pub hotplug_main : Env → (G → G) → (G → G) → G → ℕ × G
unfolding hotplug_filtered
hotplug_main e plugged meanwhile g =
    let (r, g') = ni_init e (pos 0) g in
    if nonzero r
    then (1, g')
    else hotplug_filtered plugged meanwhile (ni_set_device_filter e (some mouse_filter) 0 g').1
