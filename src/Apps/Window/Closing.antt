-- ===== src/Apps/Window/Closing.antt =====
-- What examples/sdl3_asyncinput.c gives back.
use asyncinput.Prelude.{
  ℕ, ◌+◌, ◌≡◌, refl, ap, ◌∙◌, [], ◌∷◌, Bool, true, false, not, Option, none, some, by_if, ◌==◌,
  arith,
}
use asyncinput.Prelude.Int.{pos}
use asyncinput.Posix.{Env, G}
use asyncinput.Posix.Quiet.{fits}
use asyncinput.Posix.Api.{ni_init, ni_shutdown, ni_register_callback}
use asyncinput.Posix.Runs.Life.{Life-on}
use asyncinput.Apps.Uinput.{
  AppEnv, AppTrace, sdl_inited, window_made, window_destroyed, allocated, freed,
}
use asyncinput.Apps.Demo.{AppResult, app_failure, put}
use asyncinput.Apps.Demo.Holds.{IsClean, one_if, put_lem}
use asyncinput.Apps.Programs.{callback}
use asyncinput.Apps.Programs.Release.{
  started-Life, ni_shutdown-fits, IsRun, IsOff, ended-IsOff, registered, registered_lem, run-Life,
}
use asyncinput.Apps.Window.{
  GameApp, destroy_window_renderer, game_registered, game_allocated, game_app_init, quit_game,
  game_app_quit, between, game_run,
}

-- how often a window was made, and destroyed with its renderer before it
abbrev pub windows : AppTrace → ℕ
windows [] = 0
windows (window_made b ∷ t) = one_if b + windows t
windows (_ ∷ t) = windows t

abbrev pub destroyed : AppTrace → ℕ
destroyed [] = 0
destroyed (window_destroyed ∷ t) = 1 + destroyed t
destroyed (_ ∷ t) = destroyed t

-- No window, no object and no descriptor of an event device is left.
pub record IsClosedDown (a : GameApp) : Type 0 where
  pub gone : a.window ≡ false
  pub drawn : windows a.trace ≡ destroyed a.trace
  pub held : IsClean a.trace
  pub library : IsOff a.g

abbrev pub ClosesDown : Option GameApp → Type 0
ClosesDown o = (a : GameApp) × (o ≡ some a) × IsClosedDown a

-- `destroy_window_renderer` with a window or without one
destroyed-IsClosedDown :
    (w : Bool) (a : Option ℕ) (m : ℕ → Option Bool) (t : AppTrace) (g : G)
    → windows t ≡ one_if w + destroyed t
    → IsClean t
    → IsOff g
    → IsClosedDown (
        destroy_window_renderer (record { window = w; appstate = a; memory = m; trace = t; g = g }))
destroyed-IsClosedDown true a m t g d c off = record {
  gone = refl;
  drawn = d;
  held = record { devices = c.devices; memory = c.memory; threads = c.threads };
  library = off;
}
destroyed-IsClosedDown false a m t g d c off = record {
  gone = refl;
  drawn = omega (arith, d);
  held = c;
  library = off;
}

allocated-IsClean : (p : ℕ) (t : AppTrace) → IsClean t → IsClean (freed p ∷ allocated (some p) ∷ t)
allocated-IsClean p t c = record {
  devices = c.devices;
  memory = λ q. ap (λ (n : ℕ). one_if (q == p) + n) (c.memory q);
  threads = c.threads;
}

module _ (e : Env) (g g1 : G) (off : IsOff g) (init : ni_init e (pos 0) g ≡ (pos 0, g1))
    (meanwhile : G → G) (run : IsRun e meanwhile)
    (room : fits (meanwhile (registered g1)).trace ≡ true) where
  abbrev Ends : AppResult × GameApp → Type 0
  Ends r = ClosesDown (let a2 = between meanwhile r.0 r.1 in game_app_quit a2.appstate a2)

  -- `SDL_AppInit` has failed before it stored the pointer.
  failed-Ends :
      (w : Bool) (m : ℕ → Option Bool) (t : AppTrace)
      → windows t ≡ one_if w + destroyed t
      → IsClean t
      → Ends (app_failure, record { window = w; appstate = none; memory = m; trace = t; g = g })
  unfolding game_app_quit
  failed-Ends w m t d c = (_, refl, destroyed-IsClosedDown w none m t g d c off)

  on : (ni_register_callback (some callback) 0 (pos 0) g1).0 ≡ pos 0
  on = registered_lem g1 (Life-on e g1 (started-Life e g g1 off init))

  ended : IsOff (ni_shutdown (meanwhile (registered g1))).1
  ended =
      ended-IsOff e (meanwhile (registered g1)) (run-Life e g g1 off init meanwhile run)
        (ni_shutdown-fits (meanwhile (registered g1)) ∙ room)

  -- The library runs, and the pointer is stored.
  registered-Ends :
      (w : Bool) (p : ℕ) (m : ℕ → Option Bool) (t : AppTrace)
      → windows t ≡ one_if w + destroyed t
      → IsClean t
      → Ends (
          game_registered p (record {
            window = w;
            appstate = none;
            memory = m;
            trace = allocated (some p) ∷ t;
            g = g1;
          }))
  unfolding game_registered game_app_quit quit_game
  registered-Ends w p m t d c =
      rw (on, put_lem p (some true) m)
        (
          _,
          refl,
          destroyed-IsClosedDown w (some p) _ (freed p ∷ allocated (some p) ∷ t) _ d
              (allocated-IsClean p t c) ended,
        )

  allocated-Ends :
      (o : Option ℕ) (w : Bool) (m : ℕ → Option Bool) (t : AppTrace)
      → windows t ≡ one_if w + destroyed t
      → IsClean t
      → Ends (
          game_allocated e o (record { window = w; appstate = none; memory = m; trace = t; g = g }))
  unfolding game_allocated
  allocated-Ends none w m t d c =
      failed-Ends w m (allocated none ∷ t) d
        (record { devices = c.devices; memory = c.memory; threads = c.threads })
  allocated-Ends (some p) w m t d c = rw init (registered-Ends w p (put p (some false) m) t d c)

  -- Let `ni_init` succeed on a library that was off, and let everything acquired before have been
  -- given back, with no window and no stored pointer. On every way through `SDL_AppInit` of
  -- examples/sdl3_asyncinput.c, and whatever steps of the library happen while the game runs,
  -- `SDL_AppQuit` with the pointer that was stored accesses no freed memory, and after it no window,
  -- no object and no descriptor of an event device is left, as long as no device was registered
  -- behind the array.
  pub game_run-ClosesDown :
      (u : AppEnv) (m : ℕ → Option Bool) (t : AppTrace)
      → windows t ≡ destroyed t
      → IsClean t
      → ClosesDown (
          game_run e u meanwhile
            (record { window = false; appstate = none; memory = m; trace = t; g = g }))
  unfolding game_run game_app_init
  game_run-ClosesDown u m t d c =
      let t1 = sdl_inited (u.sdl_init t) ∷ t in
      let shown = u.create_window t1 in
      let t2 = window_made shown ∷ t1 in
      let c1 : IsClean t1 = record {
        devices = c.devices;
        memory = c.memory;
        threads = c.threads;
      } in
      let c2 : IsClean t2 = record {
        devices = c.devices;
        memory = c.memory;
        threads = c.threads;
      } in
      let d2 : windows t2 ≡ one_if shown + destroyed t2 = ap (λ (n : ℕ). one_if shown + n) d in
      by_if Ends (not (u.sdl_init t)) _ _ (λ _. failed-Ends false m t1 (omega (arith, d)) c1)
        (λ _.
          by_if Ends (not shown) _ _ (λ _. failed-Ends shown m t2 d2 c2)
            (λ _. allocated-Ends (u.calloc t2) shown m t2 d2 c2))
