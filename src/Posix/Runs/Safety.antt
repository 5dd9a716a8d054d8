-- ===== src/Posix/Runs/Safety.antt =====
-- The two queues of src/libasyncinput_posix.c in every run.
use asyncinput.Prelude.{◌≡◌, true, false, by_if}
use asyncinput.Posix.{Env, G}
use asyncinput.Posix.Quiet.{fits}
use asyncinput.Posix.Api.{ni_shutdown}
use asyncinput.Posix.Runs.{
  Step, Reachable, begin, next, init, set_device_filter, register_callback, poll, shutdown,
  register_key_callback, poll_key_events, enable_xkb, set_xkb_names, enable_mice, worker,
  mice_begin, mice,
}
use asyncinput.Posix.Runs.Calm.{filter-Calm, enable_xkb-Calm, set_xkb_names-Calm}
use asyncinput.Posix.Runs.Rings.{
  HasRings, HasRings-Calm, zeroed-HasRings, worker_round-HasRings, mice_start-Calm,
  mice_round-HasRings,
}
use asyncinput.Posix.Runs.Calls.{
  ni_init-HasRings, ni_poll-HasRings, ni_poll_key_events-HasRings, shut_down-Calm, enable_mice-Calm,
  register_callback-Calm, register_key_callback-Calm,
}

Step-HasRings : (e : Env) (g s : G) → Step e g s → HasRings g → HasRings s
unfolding ni_shutdown
Step-HasRings e _ _ (init flags g) h = ni_init-HasRings e flags g h
Step-HasRings e _ _ (set_device_filter f user g) h = HasRings-Calm g _ (filter-Calm e f user g) h
Step-HasRings e _ _ (register_callback cb user flags g) h =
    HasRings-Calm g _ (register_callback-Calm cb user flags g) h
Step-HasRings e _ _ (poll evts max g) h = ni_poll-HasRings evts max g h
Step-HasRings e _ _ (shutdown g) h =
    by_if HasRings g.initialized _ _
      (λ _.
        HasRings-Calm (record g { initialized = false }) _ (shut_down-Calm g)
          (record { queue = h.queue; key_queue = h.key_queue }))
      (λ _. h)
Step-HasRings e _ _ (register_key_callback cb user flags g) h =
    HasRings-Calm g _ (register_key_callback-Calm cb user flags g) h
Step-HasRings e _ _ (poll_key_events evts max g) h = ni_poll_key_events-HasRings evts max g h
Step-HasRings e _ _ (enable_xkb enabled g) h = HasRings-Calm g _ (enable_xkb-Calm e enabled g) h
Step-HasRings e _ _ (set_xkb_names names g) h = HasRings-Calm g _ (set_xkb_names-Calm e names g) h
Step-HasRings e _ _ (enable_mice enabled g) h = HasRings-Calm g _ (enable_mice-Calm e enabled g) h
Step-HasRings e _ _ (worker p ready g) h = worker_round-HasRings e p ready g h
Step-HasRings e _ _ (mice_begin g) h = HasRings-Calm g _ (mice_start-Calm e g) h
Step-HasRings e _ _ (mice r m g) h = mice_round-HasRings e r m g h

at_all_times : (e : Env) (g : G) → Reachable e g → HasRings g
at_all_times e _ (begin t) = zeroed-HasRings t
at_all_times e _ (next g s r step) = Step-HasRings e g s step (at_all_times e g r)

-- From the program's start, after any calls of the exported functions and any rounds of the two threads in
-- any order, as long as no device was registered behind the array of devices, the event queue and the key queue are rings of 1024 slots whose head and tail lie within
-- them.
pub Reachable-HasRings : (e : Env) (g : G) → Reachable e g → fits g.trace ≡ true → HasRings g
Reachable-HasRings e g r room = at_all_times e g r
