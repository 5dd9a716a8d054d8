-- ===== src/Sdl/Runs.antt =====
-- The runs of src/libasyncinput_stub.c, and how `ni_init` reads the result of SDL_Init.
use asyncinput.Prelude.{
  ℕ, ◌≡◌, refl, sym, ap, subst, List, [], ◌∷◌, Bool, true, false, not, ◌||◌, Option, none, some,
  arith, if_true, if_false, by_if,
}
use asyncinput.Prelude.Int.{ℤ, pos_part, minus_one, nonzero, not_positive, of_Bool}
use asyncinput.Event.{NiEvent, blank_event}
use asyncinput.Ring.{ring_size}
use asyncinput.Ring.Bounds.{IsValid, ring_init-IsValid, ring_push-IsValid, ring_pop_many-IsValid}
use asyncinput.Sdl.{
  Sdl, SdlEnv, SdlEvent, sdl_zeroed, sdl_emit_to, sdl_emit_all, sdl_events, sdl_pump, sdl_start,
  sdl_round, sdl_started, emptied, sdl_ni_init, sdl_register_callback, sdl_poll, sdl_shutdown, log,
  ticks_read, inited,
}

-- A call of the application, the start of the worker, or a round of its loop.
pub data Step (e : SdlEnv) : Sdl → Sdl → Type 0 where
  init : (flags : ℤ) (g : Sdl) → Step e g (sdl_ni_init e flags g).1
  register_callback :
      (cb : Option ℕ) (user : ℕ) (flags : ℤ) (g : Sdl)
      → Step e g (sdl_register_callback cb user flags g).1
  poll : (evts : Option (List NiEvent)) (max : ℤ) (g : Sdl) → Step e g (sdl_poll evts max g).2
  shutdown : (g : Sdl) → Step e g (sdl_shutdown g).1
  start : (g : Sdl) → Step e g (sdl_start e g).1
  round : (evs : List SdlEvent) (g : Sdl) → Step e g (sdl_round e evs g).1

pub data Reachable (e : SdlEnv) : Sdl → Type 0 where
  begin : Reachable e sdl_zeroed
  next : (g s : Sdl) → Reachable e g → Step e g s → Reachable e s

abbrev pub HasValidQueue : Sdl → Type 0
HasValidQueue g = IsValid ring_size g.queue

emit_to-HasValidQueue :
    (cb : Option ℕ) (ev : NiEvent) (g : Sdl) → HasValidQueue g → HasValidQueue (sdl_emit_to cb ev g)
unfolding sdl_emit_to
emit_to-HasValidQueue (some f) ev g v = v
emit_to-HasValidQueue none ev g v = ring_push-IsValid ring_size blank_event g.queue ev v

emit_all-HasValidQueue :
    (evs : List NiEvent) (g : Sdl) → HasValidQueue g → HasValidQueue (sdl_emit_all evs g)
unfolding sdl_emit_all
emit_all-HasValidQueue [] g v = v
emit_all-HasValidQueue (ev ∷ evs) g v =
    emit_all-HasValidQueue evs (sdl_emit_to g.cb ev g) (emit_to-HasValidQueue g.cb ev g v)

pump-HasValidQueue :
    (e : SdlEnv) (evs : List SdlEvent) (g : Sdl)
    → HasValidQueue g
    → HasValidQueue (sdl_pump e evs g)
unfolding sdl_pump
pump-HasValidQueue e [] g v = v
pump-HasValidQueue e (ev ∷ evs) g v =
    let made = sdl_events e (e.ticks g.trace) ev in
    pump-HasValidQueue e evs (sdl_emit_all made (log ticks_read g))
      (emit_all-HasValidQueue made (log ticks_read g) v)

emptied-HasValidQueue : (g : Sdl) → HasValidQueue g → HasValidQueue (emptied g)
emptied-HasValidQueue g v = omega (arith, v.slots)

started-HasValidQueue :
    (t : Option ℕ) (g : Sdl) → HasValidQueue g → HasValidQueue (sdl_started t g).1
unfolding sdl_started
started-HasValidQueue none g v = v
started-HasValidQueue (some t) g v = v

poll-HasValidQueue :
    (evts : Option (List NiEvent)) (max : ℤ) (g : Sdl)
    → HasValidQueue g
    → HasValidQueue (sdl_poll evts max g).2
unfolding sdl_poll
poll-HasValidQueue none max g v = v
poll-HasValidQueue (some out) max g v =
    by_if (λ (r : ℤ × Option (List NiEvent) × Sdl). HasValidQueue r.2)
      (not g.initialized || not_positive max) _ _ (λ _. v)
      (λ _. ring_pop_many-IsValid ring_size blank_event g.queue out (pos_part max) v)

step-HasValidQueue : (e : SdlEnv) (g s : Sdl) → Step e g s → HasValidQueue g → HasValidQueue s
unfolding sdl_ni_init sdl_register_callback sdl_start sdl_round sdl_shutdown
step-HasValidQueue e _ _ (init flags g) v =
    by_if (λ (r : ℤ × Sdl). HasValidQueue r.1) (nonzero flags) _ _ (λ _. v)
      (λ _.
        by_if (λ (r : ℤ × Sdl). HasValidQueue r.1) g.initialized _ _ (λ _. v)
          (λ _.
            by_if (λ (r : ℤ × Sdl). HasValidQueue r.1) (nonzero (of_Bool (e.sdl_init g.trace))) _ _
              (λ _. v)
              (λ _.
                let g' = log (inited (e.sdl_init g.trace)) g in
                started-HasValidQueue (e.create_thread g'.trace) (emptied g')
                  (emptied-HasValidQueue g' v))))
step-HasValidQueue e _ _ (register_callback cb user flags g) v =
    by_if (λ (r : ℤ × Sdl). HasValidQueue r.1) (not g.initialized || nonzero flags) _ _ (λ _. v)
      (λ _. v)
step-HasValidQueue e _ _ (poll evts max g) v = poll-HasValidQueue evts max g v
step-HasValidQueue e _ _ (shutdown g) v = by_if HasValidQueue g.initialized _ _ (λ _. v) (λ _. v)
step-HasValidQueue e _ _ (start g) v = v
step-HasValidQueue e _ _ (round evs g) v =
    by_if (λ (r : Bool × Sdl). HasValidQueue r.1) g.stop _ _ (λ _. v)
      (λ _. pump-HasValidQueue e evs g v)

-- In every state that the application's calls and the worker's rounds reach, in any order, the event queue
-- is a valid ring.
pub Reachable-HasValidQueue : (e : SdlEnv) (g : Sdl) → Reachable e g → HasValidQueue g
unfolding sdl_zeroed
Reachable-HasValidQueue e _ begin = ring_init-IsValid ring_size blank_event (omega arith)
Reachable-HasValidQueue e _ (next g s run step) =
    step-HasValidQueue e g s step (Reachable-HasValidQueue e g run)

-- If SDL_Init succeeds, as SDL3 says by the result `true`, then `ni_init` returns -1 from a state that is
-- not initialized, and the state stays so.
sdl_ni_init-refuses :
    (e : SdlEnv) (flags : ℤ) (g : Sdl)
    → g.initialized ≡ false
    → e.sdl_init g.trace ≡ true
    → let (result, s) = sdl_ni_init e flags g in (result ≡ minus_one) × (s.initialized ≡ false)
unfolding sdl_ni_init
sdl_ni_init-refuses e flags g off fine =
    let P : ℤ × Sdl → Type 0 = λ r. (r.0 ≡ minus_one) × (r.1.initialized ≡ false) in
    by_if P (nonzero flags) _ _ (λ _. (refl, off))
      (λ _. subst P (sym (if_false g.initialized _ _ off)) (
        subst P
          (sym (
            if_true (nonzero (of_Bool (e.sdl_init g.trace))) _ _
              (ap (λ b. nonzero (of_Bool b)) fine)))
          (refl, off)))
