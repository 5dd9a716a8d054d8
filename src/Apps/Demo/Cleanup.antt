-- ===== src/Apps/Demo/Cleanup.antt =====
-- What examples/sdl3_demo.c gives back.
use asyncinput.Prelude.{
  ℕ, ◌+◌, ◌≡◌, refl, ap, ◌∙◌, inl, inr, ◌∷◌, true, false, not, Option, none, some, by_if,
  Bool-cases, ◌==◌,
}
use asyncinput.Prelude.Int.{is_neg}
use asyncinput.Apps.Uinput.{
  unopened, sdl_inited, window_made, uinput_opened, AppEnv, AppTrace, same, allocated, freed,
  thread_made,
}
use asyncinput.Apps.Demo.Holds.{
  put_lem, IsClean, Holds, one_if, made, demo_create_lem, made-Holds, given_back-IsClean,
  started-Holds, unmade,
}
use asyncinput.Apps.Demo.{
  AppState, Arguments, Demo, AppResult, app_failure, put, filled, demo_started, demo_allocated,
  sdl_app_init, quit_state, sdl_app_quit,
}

-- `SDL_AppInit`, and `SDL_AppQuit` with the pointer it stored
abbrev pub demo_run : AppEnv → Arguments → Demo → Option Demo
demo_run u args d = let s = (sdl_app_init u args d).1 in sdl_app_quit s.appstate s

-- The run accesses no freed memory and ends clean.
abbrev pub RunsClean : Option Demo → Type 0
RunsClean o = (s : Demo) × (o ≡ some s) × IsClean s.trace

-- `SDL_AppQuit` for a pointer to a live object
quit_lem :
    (p : ℕ) (st : AppState) (d : Demo)
    → is_neg st.ufd ≡ false
    → Holds st.ufd p st.gen_thr d.trace
    → RunsClean (quit_state p (some st) d)
unfolding quit_state
quit_lem p st d there o = rw there (_, refl, given_back-IsClean st.ufd p st.gen_thr d.trace o)

-- Every thread that the demo starts starts.
abbrev pub AlwaysStarts : AppEnv → Type 0
AlwaysStarts u = (t : AppTrace) → (h : ℕ) × (u.pthread_create t ≡ some h)

-- what `SDL_AppQuit` makes of a result of `SDL_AppInit`
abbrev Quits : AppResult × Demo → Type 0
Quits r = RunsClean (sdl_app_quit r.1.appstate r.1)

-- With no pointer there is nothing to do.
unstored-Quits :
    (r : AppResult) (m : ℕ → Option AppState) (t : AppTrace)
    → IsClean t
    → Quits (r, record { appstate = none; memory = m; trace = t })
unfolding sdl_app_quit
unstored-Quits r m t c = (_, refl, c)

stored-Quits :
    (u : AppEnv) (p : ℕ) (st : AppState) (h : Option ℕ) (k : ℕ) (m : ℕ → Option AppState)
    (t : AppTrace)
    → h ≡ some k
    → is_neg st.ufd ≡ false
    → Holds st.ufd p none t
    → Quits (demo_started p st h (record { appstate = some p; memory = m; trace = t }))
unfolding demo_started sdl_app_quit
stored-Quits u p st h k m t same there o =
    let st' : AppState = record st { gen_thr = some k } in
    rw (same, put_lem p (some st') m)
      (quit_lem p st'
        (record {
          appstate = some p;
          memory = put p (some st') m;
          trace = thread_made (some k) ∷ t;
        })
        there (started-Holds st.ufd p k t o))

module _ (u : AppEnv) (args : Arguments) (starts_all : AlwaysStarts u) where
  allocated-Quits :
      (o : Option ℕ) (m : ℕ → Option AppState) (t : AppTrace)
      → IsClean t
      → Quits (demo_allocated u args o (record { appstate = none; memory = m; trace = t }))
  unfolding demo_allocated
  allocated-Quits none m t c =
      unstored-Quits app_failure m (allocated none ∷ t)
        (record { devices = c.devices; memory = c.memory; threads = c.threads })
  allocated-Quits (some p) m t c =
      elim (Bool-cases (is_neg (u.open_uinput (allocated (some p) ∷ t)))) [
        | inl neg ↦
            let fd = u.open_uinput (allocated (some p) ∷ t) in
            rw (unmade u args.emit_key (allocated (some p) ∷ t) neg) (
              unstored-Quits app_failure _ (freed p ∷ uinput_opened fd ∷ allocated (some p) ∷ t)
                (record {
                  devices = λ x. (unopened x fd t neg ∙ (c.devices x).0, (c.devices x).1);
                  memory = λ q. ap (λ (n : ℕ). one_if (q == p) + n) (c.memory q);
                  threads = c.threads;
                }))
        | inr there ↦
            let t' = made u args.emit_key (allocated (some p) ∷ t) there in
            let (k, same) = starts_all t' in
            rw (demo_create_lem u args.emit_key (allocated (some p) ∷ t) there, there)
              (stored-Quits u p (filled args (u.open_uinput (allocated (some p) ∷ t)))
                (u.pthread_create t') k _ t' same there (made-Holds u args.emit_key p t there c))
      ]

  -- As long as threads start, from a clean trace and no stored pointer: on every way through
  -- `SDL_AppInit` of examples/sdl3_demo.c, `SDL_AppQuit` with the pointer that was stored accesses
  -- no freed memory, and after it every device, object and thread has been given back as often as it
  -- was acquired.
  pub demo_run-IsClean :
      (m : ℕ → Option AppState) (t : AppTrace)
      → IsClean t
      → RunsClean (demo_run u args (record { appstate = none; memory = m; trace = t }))
  unfolding sdl_app_init
  demo_run-IsClean m t c =
      let t1 = sdl_inited (u.sdl_init t) ∷ t in
      let t2 = window_made (u.create_window t1) ∷ t1 in
      let c1 : IsClean t1 = record {
        devices = c.devices;
        memory = c.memory;
        threads = c.threads;
      } in
      let c2 : IsClean t2 = record {
        devices = c.devices;
        memory = c.memory;
        threads = c.threads;
      } in
      by_if Quits (not (u.sdl_init t)) _ _ (λ _. unstored-Quits app_failure m t1 c1)
        (λ _.
          by_if Quits (not (u.create_window t1)) _ _ (λ _. unstored-Quits app_failure m t2 c2)
            (λ _. allocated-Quits (u.calloc t2) m t2 c2))

-- When everything in `SDL_AppInit` of examples/sdl3_demo.c succeeds but the start of the thread, it
-- frees the object and leaves the pointer to it stored, and `SDL_AppQuit` accesses the freed object.
pub demo_run-dangles :
    (u : AppEnv) (args : Arguments) (p : ℕ) (m : ℕ → Option AppState) (t : AppTrace)
    → u.sdl_init t ≡ true
    → u.create_window (sdl_inited true ∷ t) ≡ true
    → u.calloc (window_made true ∷ sdl_inited true ∷ t) ≡ some p
    → is_neg (u.open_uinput (allocated (some p) ∷ window_made true ∷ sdl_inited true ∷ t)) ≡ false
    → ((s : AppTrace) → u.pthread_create s ≡ none)
    → demo_run u args (record { appstate = none; memory = m; trace = t }) ≡ none
unfolding sdl_app_init demo_allocated demo_started sdl_app_quit quit_state
demo_run-dangles u args p m t inited shown given there never =
    let t' = allocated (some p) ∷ window_made true ∷ sdl_inited true ∷ t in
    let st = filled args (u.open_uinput t') in
    rw
      (
        inited,
        shown,
        given,
        demo_create_lem u args.emit_key t' there,
        there,
        never (made u args.emit_key t' there),
        put_lem p none (put p (some st) m),
      )
      refl
