-- ===== src/Apps/Demo.antt =====
-- examples/sdl3_demo.c: the state that `SDL_AppInit` makes and `SDL_AppQuit` gives back. SDL calls
-- `SDL_AppQuit` with the pointer that `SDL_AppInit` stored, also after a failure. The memory is a table of
-- the live objects; an access to one that is not live is `none`.
pub mod Holds
pub mod Cleanup
mod Tests
use asyncinput.Prelude.{
  ℕ, ◌+◌, List, [], ◌∷◌, Bool, true, false, not, Option, none, some, if◌then◌else◌, ◌==◌,
}
use asyncinput.Prelude.Int.{ℤ, pos, is_neg}
use asyncinput.Apps.Uinput.{
  AppEnv, AppTrace, sdl_inited, window_made, allocated, freed, thread_made, thread_joined,
  demo_create, give_back,
}

pub data AppResult : Type 0 where
  app_continue app_success app_failure : AppResult

-- `AppState`, without the statistics: the device, the thread and the arguments `ga` of the thread
pub record AppState : Type 0 where
  pub ufd : ℤ
  pub gen_thr : Option ℕ
  pub fd : ℤ
  pub hz : ℤ
  pub seconds : ℤ
  pub emit_key : Bool
  pub stop : Bool

-- what `calloc` gives
abbrev pub no_state : AppState
no_state = record {
  ufd = pos 0;
  gen_thr = none;
  fd = pos 0;
  hz = pos 0;
  seconds = pos 0;
  emit_key = false;
  stop = false;
}

-- `*appstate`, the memory, and what was asked of the system
pub record Demo : Type 0 where
  pub appstate : Option ℕ
  pub memory : ℕ → Option AppState
  pub trace : AppTrace

-- the command line
pub record Arguments : Type 0 where
  pub hz : ℤ
  pub seconds : ℤ
  pub emit_key : Bool

abbrev pub put {ℓ} : {A : Type ℓ} → ℕ → Option A → (ℕ → Option A) → ℕ → Option A
put p o m q = if q == p then o else m q

abbrev pub free_at : ℕ → Demo → Demo
free_at p d = record d { memory = put p none d.memory; trace = freed p ∷ d.trace }

-- `pthread_create(&st->gen_thr, …)` and what follows a failure; the pointer is stored before.
unfoldable pub demo_started : ℕ → AppState → Option ℕ → Demo → AppResult × Demo
demo_started p st none d =
    (app_failure, free_at p (record d { trace = give_back st.ufd (thread_made none ∷ d.trace) }))
demo_started p st (some h) d = (
  app_continue,
  record d {
    memory = put p (some (record st { gen_thr = some h })) d.memory;
    trace = thread_made (some h) ∷ d.trace;
  },
)

abbrev pub filled : Arguments → ℤ → AppState
filled args ufd = record no_state {
  ufd = ufd;
  fd = ufd;
  hz = args.hz;
  seconds = args.seconds;
  emit_key = args.emit_key;
}

-- after `calloc`
unfoldable pub demo_allocated : AppEnv → Arguments → Option ℕ → Demo → AppResult × Demo
unfolding demo_started
demo_allocated u args none d = (app_failure, record d { trace = allocated none ∷ d.trace })
demo_allocated u args (some p) d =
    let (ufd, t) = demo_create u args.emit_key (allocated (some p) ∷ d.trace) in
    let st = filled args ufd in
    let stored : Demo = record {
      appstate = some p;
      memory = put p (some st) d.memory;
      trace = t;
    } in
    if is_neg ufd
    then (
      app_failure,
      free_at p
          (record d { memory = put p (some (record no_state { ufd = ufd })) d.memory; trace = t }),
    )
    else demo_started p st (u.pthread_create t) stored

unfoldable pub sdl_app_init : AppEnv → Arguments → Demo → AppResult × Demo
unfolding demo_allocated
sdl_app_init u args d =
    let fine = u.sdl_init d.trace in
    let d' = record d { trace = sdl_inited fine ∷ d.trace } in
    let shown = u.create_window d'.trace in
    let d'' = record d' { trace = window_made shown ∷ d'.trace } in
    if not fine
    then (app_failure, d')
    else if not shown
    then (app_failure, d'')
    else demo_allocated u args (u.calloc d''.trace) d''

-- `if (st->gen_thr) pthread_join(st->gen_thr, NULL)`
abbrev pub demo_join : Option ℕ → AppTrace → AppTrace
demo_join none t = t
demo_join (some h) t = thread_joined (some h) ∷ t

-- with the object that the pointer refers to
unfoldable pub quit_state : ℕ → Option AppState → Demo → Option Demo
quit_state p none d = none
quit_state p (some st) d =
    let t = demo_join st.gen_thr d.trace in
    let t' = if is_neg st.ufd then t else give_back st.ufd t in
    some (
      free_at p
        (record d { memory = put p (some (record st { stop = true })) d.memory; trace = t' }))

unfoldable pub sdl_app_quit : Option ℕ → Demo → Option Demo
unfolding quit_state
sdl_app_quit none d = some d
sdl_app_quit (some p) d = quit_state p (d.memory p) d
