-- ===== src/Win/Api.antt =====
-- The worker thread and the exported functions of src/libasyncinput_win.c.
use asyncinput.Prelude.{
  ℕ, Bool, true, false, not, ◌||◌, List, [], ◌∷◌, Option, none, some, if◌then◌else◌,
}
use asyncinput.Prelude.Int.{ℤ, pos, minus_one, nonzero, not_positive, pos_part}
use asyncinput.Event.{NiEvent, NiKeyEvent}
use asyncinput.Posix.{RuleNames}
use asyncinput.Ring.Copies.{win_ring_pop_many, win_keyring_pop_many}
use asyncinput.Win.{
  Win, WinEnv, Message, win_zeroed, log, window_made, raw_registered, window_destroyed,
  close_posted, thread_made, waited, wndproc,
}

-- The result of `create_message_window` is whether it returned 0.
abbrev pub register : WinEnv → ℕ → Win → Bool × Win
register e w g =
    let ok = e.register_raw g.trace in
    let g' = log (raw_registered ok) (record g { hwnd = some w }) in
    if ok then (true, g') else (false, log (window_destroyed (some w)) (record g' { hwnd = none }))

unfoldable pub created : WinEnv → Option ℕ → Win → Bool × Win
created e none g = (false, log (window_made none) g)
created e (some w) g = register e w (log (window_made (some w)) g)

unfoldable pub create_message_window : WinEnv → Win → Bool × Win
unfolding created
create_message_window e g = created e (e.create_window g.trace) g

-- `worker_thread` before its loop
unfoldable pub worker_start : WinEnv → Win → Bool × Win
unfolding create_message_window
worker_start e g =
    let (ok, g') = create_message_window e g in
    if ok then (true, record g' { device_count = 2 }) else (false, g')

-- `while (PeekMessage(…))`
unfoldable pub dispatch_all : WinEnv → List Message → Win → Win
unfolding wndproc
dispatch_all e [] g = g
dispatch_all e (m ∷ ms) g = dispatch_all e ms (wndproc e m g)

-- A round of the outer loop with the messages that wait, or the way out of it.
unfoldable pub win_round : WinEnv → List Message → Win → Bool × Win
unfolding dispatch_all
win_round e ms g =
    if g.stop
    then (false, record (log (window_destroyed g.hwnd) g) { hwnd = none })
    else (true, dispatch_all e ms g)

unfoldable pub started : Option ℕ → Win → ℤ × Win
started none g = (minus_one, log (thread_made none) g)
started (some t) g =
    (pos 0, log (thread_made (some t)) (record g { thread = some t; initialized = true }))

unfoldable pub win_init : WinEnv → ℤ → Win → ℤ × Win
unfolding started
win_init e flags g =
    if nonzero flags
    then (minus_one, g)
    else if g.initialized
    then (pos 0, g)
    else started (e.create_thread g.trace) (win_zeroed g.trace)

unfoldable pub win_set_device_filter : Option ℕ → ℕ → Win → ℤ × Win
win_set_device_filter filter user_data g =
    (pos 0, record g { filter = filter; filter_user = user_data })

unfoldable pub win_device_count : Win → ℕ
win_device_count g = g.device_count

unfoldable pub win_register_callback : Option ℕ → ℕ → ℤ → Win → ℤ × Win
win_register_callback cb user_data flags g =
    if not g.initialized || nonzero flags
    then (minus_one, g)
    else (pos 0, record g { cb = cb; cb_user = user_data })

unfoldable pub win_poll : Option (List NiEvent) → ℤ → Win → ℤ × Option (List NiEvent) × Win
win_poll none max_events g = (minus_one, none, g)
win_poll (some evts) max_events g =
    let (n, queue, out) = win_ring_pop_many g.queue evts (pos_part max_events) in
    if not g.initialized || not_positive max_events
    then (minus_one, some evts, g)
    else (pos n, some out, record g { queue = queue })

abbrev pub post_close : Option ℕ → Win → Win
post_close none g = g
post_close (some w) g = log (close_posted w) g

unfoldable pub win_shutdown : Win → ℤ × Win
win_shutdown g =
    let g' = post_close g.hwnd (record g { stop = true }) in
    (
      pos 0,
      if g.initialized
          then record (log (waited g'.thread) g') { thread = none; initialized = false }
          else g,
    )

unfoldable pub win_register_key_callback : Option ℕ → ℕ → ℤ → Win → ℤ × Win
win_register_key_callback cb user_data flags g =
    if not g.initialized
    then (minus_one, g)
    else (pos 0, record g { key_cb = cb; key_cb_user = user_data })

unfoldable pub win_poll_key_events :
    Option (List NiKeyEvent) → ℤ → Win → ℤ × Option (List NiKeyEvent) × Win
win_poll_key_events none max_events g = (minus_one, none, g)
win_poll_key_events (some evts) max_events g =
    let (n, queue, out) = win_keyring_pop_many g.key_queue evts (pos_part max_events) in
    if not g.initialized || not_positive max_events
    then (minus_one, some evts, g)
    else (pos n, some out, record g { key_queue = queue })

-- `ni_enable_xkb` and `ni_set_xkb_names` fail, `ni_enable_mice` does nothing.
unfoldable pub win_enable_xkb : ℤ → Win → ℤ × Win
win_enable_xkb enabled g = (minus_one, g)

unfoldable pub win_set_xkb_names : RuleNames → Win → ℤ × Win
win_set_xkb_names names g = (minus_one, g)

unfoldable pub win_enable_mice : ℤ → Win → ℤ × Win
win_enable_mice enabled g = (pos 0, g)
