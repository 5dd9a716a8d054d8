-- ===== src/Win/Keyless.antt =====
-- What holds in every run of src/libasyncinput_win.c: its event queue is valid, and its key queue is never
-- filled.
use asyncinput.Prelude.{
  ℕ, zero, suc, ◌≡◌, refl, sym, ap, ap₂, ◌∙◌, List, Bool, true, not, ◌||◌, Option, none, some,
  arith, if_false, by_if, ne→==, ◌==◌,
}
use asyncinput.Prelude.Int.{ℤ, pos, pos_part, nonzero, not_positive}
use asyncinput.Event.{NiEvent, NiKeyEvent, blank_event, blank_key_event}
use asyncinput.Ring.{RingBuf, ring_size, ring_init, ring_pop_many, pop_loop}
use asyncinput.Ring.Bounds.{ring_pop_many-IsValid}
use asyncinput.Win.{Win, WinEnv, win_zeroed, log, window_made}
use asyncinput.Win.Api.{
  win_init, win_set_device_filter, win_register_callback, win_poll, win_shutdown,
  win_register_key_callback, win_poll_key_events, worker_start, create_message_window, created,
  win_round, started, post_close,
}
use asyncinput.Win.Steps.{
  dispatch, wndproc-IsSafe, Step, Reachable, begin, next, IsSafe, IsSafe-same, zeroed-IsSafe,
  dispatch_all-IsSafe, init, set_device_filter, register_callback, poll, shutdown,
  register_key_callback, poll_key_events, start, round,
}

-- An empty ring gives nothing.
pop_nothing :
    (out : List NiKeyEvent) (max : ℕ)
    → let r = ring_init ring_size blank_key_event in
      ring_pop_many ring_size blank_key_event r out max ≡ (0, r, out)
unfolding ring_pop_many pop_loop ring_init
pop_nothing out zero = refl
pop_nothing out (suc max) = refl

started-IsSafe : (t : Option ℕ) (g : Win) → IsSafe g → IsSafe (started t g).1
unfolding started
started-IsSafe none g safe = IsSafe-same g _ refl refl safe
started-IsSafe (some t) g safe = IsSafe-same g _ refl refl safe

init-IsSafe : (e : WinEnv) (flags : ℤ) (g : Win) → IsSafe g → IsSafe (win_init e flags g).1
unfolding win_init
init-IsSafe e flags g safe =
    by_if (λ (r : ℤ × Win). IsSafe r.1) (nonzero flags) _ _ (λ _. safe)
      (λ _.
        by_if (λ (r : ℤ × Win). IsSafe r.1) g.initialized _ _ (λ _. safe)
          (λ _.
            started-IsSafe (e.create_thread g.trace) (win_zeroed g.trace) (zeroed-IsSafe g.trace)))

poll-IsSafe :
    (evts : Option (List NiEvent)) (max : ℤ) (g : Win) → IsSafe g → IsSafe (win_poll evts max g).2
unfolding win_poll
poll-IsSafe none max g safe = safe
poll-IsSafe (some out) max g safe =
    by_if (λ (r : ℤ × Option (List NiEvent) × Win). IsSafe r.2)
      (not g.initialized || not_positive max) _ _ (λ _. safe)
      (λ _. record {
        queue = ring_pop_many-IsValid ring_size blank_event g.queue out (pos_part max) safe.queue;
        key_queue = safe.key_queue;
      })

poll_key_events-IsSafe :
    (evts : Option (List NiKeyEvent)) (max : ℤ) (g : Win)
    → IsSafe g
    → IsSafe (win_poll_key_events evts max g).2
unfolding win_poll_key_events
poll_key_events-IsSafe none max g safe = safe
poll_key_events-IsSafe (some out) max g safe =
    by_if (λ (r : ℤ × Option (List NiKeyEvent) × Win). IsSafe r.2)
      (not g.initialized || not_positive max) _ _ (λ _. safe)
      (λ _. record {
        queue = safe.queue;
        key_queue =
            ap (λ r. (ring_pop_many ring_size blank_key_event r out (pos_part max)).1)
              safe.key_queue
            ∙ ap (λ (p : ℕ × RingBuf NiKeyEvent × List NiKeyEvent). p.1)
                (pop_nothing out (pos_part max));
      })

post_close-IsSafe : (w : Option ℕ) (g : Win) → IsSafe g → IsSafe (post_close w g)
post_close-IsSafe none g safe = safe
post_close-IsSafe (some w) g safe = IsSafe-same g _ refl refl safe

shutdown-IsSafe : (g : Win) → IsSafe g → IsSafe (win_shutdown g).1
unfolding win_shutdown
shutdown-IsSafe g safe =
    let g1 : Win = record g { stop = true } in
    by_if IsSafe g.initialized _ _
      (λ _.
        IsSafe-same (post_close g.hwnd g1) _ refl refl
          (post_close-IsSafe g.hwnd g1 (IsSafe-same g g1 refl refl safe)))
      (λ _. safe)

created-IsSafe : (e : WinEnv) (w : Option ℕ) (g : Win) → IsSafe g → IsSafe (created e w g).1
unfolding created
created-IsSafe e none g safe = IsSafe-same g _ refl refl safe
created-IsSafe e (some w) g safe =
    by_if (λ (r : Bool × Win). IsSafe r.1) (e.register_raw (log (window_made (some w)) g).trace) _ _
      (λ _. IsSafe-same g _ refl refl safe) (λ _. IsSafe-same g _ refl refl safe)

start-IsSafe : (e : WinEnv) (g : Win) → IsSafe g → IsSafe (worker_start e g).1
unfolding worker_start create_message_window
start-IsSafe e g safe =
    let made = created-IsSafe e (e.create_window g.trace) g safe in
    by_if (λ (r : Bool × Win). IsSafe r.1) (create_message_window e g).0 _ _
      (λ _. IsSafe-same (create_message_window e g).1 _ refl refl made) (λ _. made)

step-IsSafe : (e : WinEnv) (g s : Win) → Step e g s → IsSafe g → IsSafe s
unfolding win_set_device_filter win_register_callback win_register_key_callback win_round
step-IsSafe e _ _ (init flags g) safe = init-IsSafe e flags g safe
step-IsSafe e _ _ (set_device_filter f user g) safe = IsSafe-same g _ refl refl safe
step-IsSafe e _ _ (register_callback cb user flags g) safe =
    by_if (λ (r : ℤ × Win). IsSafe r.1) (not g.initialized || nonzero flags) _ _ (λ _. safe)
      (λ _. IsSafe-same g _ refl refl safe)
step-IsSafe e _ _ (poll evts max g) safe = poll-IsSafe evts max g safe
step-IsSafe e _ _ (shutdown g) safe = shutdown-IsSafe g safe
step-IsSafe e _ _ (register_key_callback cb user flags g) safe =
    by_if (λ (r : ℤ × Win). IsSafe r.1) (not g.initialized) _ _ (λ _. safe)
      (λ _. IsSafe-same g _ refl refl safe)
step-IsSafe e _ _ (poll_key_events evts max g) safe = poll_key_events-IsSafe evts max g safe
step-IsSafe e _ _ (start g) safe = start-IsSafe e g safe
step-IsSafe e _ _ (round ms g) safe =
    by_if (λ (r : Bool × Win). IsSafe r.1) g.stop _ _ (λ _. IsSafe-same g _ refl refl safe)
      (λ _. dispatch_all-IsSafe e ms g safe)
step-IsSafe e _ _ (dispatch m g) safe = wndproc-IsSafe e m g safe

-- In every state that the application's calls and the worker's rounds reach, in any order, the event
-- queue is a valid ring and the key queue is as `keyring_init` leaves it.
pub Reachable-IsSafe : (e : WinEnv) (g : Win) → Reachable e g → IsSafe g
Reachable-IsSafe e _ (begin t) = zeroed-IsSafe t
Reachable-IsSafe e _ (next h s run step) = step-IsSafe e h s step (Reachable-IsSafe e h run)

-- what the call makes of the number, the ring and the array that the ring's operation gives
abbrev answer : Win → ℕ × RingBuf NiKeyEvent × List NiKeyEvent → ℤ × Option (List NiKeyEvent) × Win
answer g (n, queue, out) = (pos n, some out, record g { key_queue = queue })

-- In every state that the application's calls and the worker's rounds reach, in any order, and that is
-- initialized, `ni_poll_key_events` with an array and a positive bound returns 0 and changes nothing: no
-- key event ever comes out of the key queue.
pub Reachable-win_poll_key_events :
    (e : WinEnv) (g : Win) (out : List NiKeyEvent) (m : ℕ)
    → Reachable e g
    → g.initialized ≡ true
    → win_poll_key_events (some out) (pos (suc m)) g ≡ (pos 0, some out, g)
unfolding win_poll_key_events
Reachable-win_poll_key_events e g out m run on =
    let empty = (Reachable-IsSafe e g run).key_queue in
    if_false (not g.initialized || (suc m == 0)) _ _
      (ap₂ (λ a b. not a || b) on (ne→== (suc m) 0 (omega arith)))
    ∙ ap (λ r. answer g (ring_pop_many ring_size blank_key_event r out (suc m))) empty
    ∙ ap (answer g) (pop_nothing out (suc m))
    ∙ ap (λ (k : RingBuf NiKeyEvent). (pos 0, some out, record g { key_queue = k })) (sym empty)
