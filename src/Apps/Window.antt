-- ===== src/Apps/Window.antt =====
-- examples/sdl3_asyncinput.c: its window, its state and the library, from `SDL_AppInit` to `SDL_AppQuit`. SDL
-- calls `SDL_AppQuit` with the pointer that `SDL_AppInit` stored, also after a failure. What happens in between
-- is a parameter `meanwhile` on the library's state. An access to memory that is not live is `none`.
pub mod Closing
mod Tests
use asyncinput.Prelude.{ℕ, List, [], ◌∷◌, Bool, true, false, not, Option, none, some, if◌then◌else◌}
use asyncinput.Prelude.Int.{ℤ, pos, nonzero}
use asyncinput.Posix.{Env, G}
use asyncinput.Posix.Api.{ni_init, ni_shutdown, ni_register_callback}
use asyncinput.Apps.Uinput.{
  AppEnv, AppTrace, sdl_inited, window_made, window_destroyed, renderer_destroyed, allocated, freed,
}
use asyncinput.Apps.Demo.{AppResult, app_continue, app_success, app_failure, put}
use asyncinput.Apps.Programs.{callback}

-- `window` and `renderer`, which are set and cleared together; `*appstate`; the member `ai_ready` of the live
-- states; the library.
pub record GameApp : Type 0 where
  pub window : Bool
  pub appstate : Option ℕ
  pub memory : ℕ → Option Bool
  pub trace : AppTrace
  pub g : G

abbrev pub free_state : ℕ → GameApp → GameApp
free_state p a = record a { memory = put p none a.memory; trace = freed p ∷ a.trace }

abbrev pub create_window_renderer : AppEnv → GameApp → Bool × GameApp
create_window_renderer u a =
    let shown = u.create_window a.trace in
    (shown, record a { window = shown; trace = window_made shown ∷ a.trace })

abbrev pub destroy_window_renderer : GameApp → GameApp
destroy_window_renderer a =
    if a.window
    then record a { window = false; trace = window_destroyed ∷ renderer_destroyed ∷ a.trace }
    else a

-- after `ni_init` returned 0
unfoldable pub game_registered : ℕ → GameApp → AppResult × GameApp
game_registered p a =
    let (r, g) = ni_register_callback (some callback) 0 (pos 0) a.g in
    if nonzero r
    then (app_failure, free_state p (record a { g = (ni_shutdown g).1 }))
    else (app_continue, record a { appstate = some p; memory = put p (some true) a.memory; g = g })

-- after `SDL_calloc`
unfoldable pub game_allocated : Env → Option ℕ → GameApp → AppResult × GameApp
unfolding game_registered
game_allocated e none a = (app_failure, record a { trace = allocated none ∷ a.trace })
game_allocated e (some p) a =
    let a' = record a {
      memory = put p (some false) a.memory;
      trace = allocated (some p) ∷ a.trace;
    } in
    let (r, g) = ni_init e (pos 0) a.g in
    if nonzero r
    then (app_failure, free_state p (record a' { g = g }))
    else game_registered p (record a' { g = g })

unfoldable pub game_app_init : Env → AppEnv → GameApp → AppResult × GameApp
unfolding game_allocated
game_app_init e u a =
    let fine = u.sdl_init a.trace in
    let a1 = record a { trace = sdl_inited fine ∷ a.trace } in
    let (shown, a2) = create_window_renderer u a1 in
    if not fine
    then (app_failure, a1)
    else if not shown
    then (app_failure, a2)
    else game_allocated e (u.calloc a2.trace) a2

-- with the object that the pointer refers to
unfoldable pub quit_game : ℕ → Option Bool → GameApp → Option GameApp
quit_game p none a = none
quit_game p (some ai_ready) a =
    let a' = if ai_ready then record a { g = (ni_shutdown a.g).1 } else a in
    some (destroy_window_renderer (free_state p a'))

unfoldable pub game_app_quit : Option ℕ → GameApp → Option GameApp
unfolding quit_game
game_app_quit none a = some (destroy_window_renderer a)
game_app_quit (some p) a = quit_game p (a.memory p) a

-- SDL's part: the loop if `SDL_AppInit` says so, then the end
abbrev pub between : (G → G) → AppResult → GameApp → GameApp
between meanwhile app_continue a = record a { g = meanwhile a.g }
between meanwhile _ a = a

unfoldable pub game_run : Env → AppEnv → (G → G) → GameApp → Option GameApp
unfolding game_app_init game_app_quit
game_run e u meanwhile a =
    let (r, a1) = game_app_init e u a in
    let a2 = between meanwhile r a1 in game_app_quit a2.appstate a2
