-- ===== src/InputLib/Delivery.antt =====
-- What the reader thread of examples/input_lib.c delivers: to the ring that the application polls, and to
-- the callback.
use mathlib.Core.List.{append_assoc, append-nil}
use asyncinput.Prelude.{
  ℕ, ◌+◌, ◌≤◌, ◌≡◌, refl, sym, ap, ◌∙◌, List, [], ◌∷◌, ◌++◌, Option, none, some, arith, length,
  length-append, ltb, lt→ltb, if_true,
}
use asyncinput.Ring.{ring_push}
use asyncinput.Ring.Bounds.{IsValid, ring_push-IsValid}
use asyncinput.Ring.Fifo.{offer}
use asyncinput.Ring.Refine.{contents, contents-ring_push}
use asyncinput.Posix.Worker.{InputEvent, ReadResult, event, error, short}
use asyncinput.InputLib.{
  PlainEvent, LibTrace, LibEnv, InputLib, TimedEvent, blank_timed, buffer_size, log, clock_read,
  called,
}
use asyncinput.InputLib.Threads.{receive, receive_all, notify, get_time_ns, timed, plain}

-- the events of the reads, up to the first one that fails
abbrev pub leading : List ReadResult → List PlainEvent
leading [] = []
leading (event raw ∷ rs) = plain raw ∷ leading rs
leading (error ∷ rs) = []
leading (short ∷ rs) = []

abbrev pub events_of : List TimedEvent → List PlainEvent
events_of [] = []
events_of (t ∷ ts) = t.event ∷ events_of ts

-- what waits to be polled, without the times
abbrev pub queued : InputLib → List PlainEvent
queued l = events_of (contents buffer_size blank_timed l.buffer)

-- what the callback got, the first event first
abbrev pub heard : LibTrace → List PlainEvent
heard [] = []
heard (called f user evt timing ∷ t) = heard t ++ (evt ∷ [])
heard (_ ∷ t) = heard t

-- what it should get
abbrev pub told : Option ℕ → List PlainEvent → List PlainEvent
told none evts = []
told (some f) evts = evts

events_of-append : (xs ys : List TimedEvent) → events_of (xs ++ ys) ≡ events_of xs ++ events_of ys
events_of-append [] ys = refl
events_of-append (x ∷ xs) ys = ap (◌∷◌ x.event) (events_of-append xs ys)

notify-heard :
    (e : LibEnv) (cb : Option ℕ) (evt : TimedEvent) (l : InputLib)
    → heard (notify e cb evt l).trace ≡ heard l.trace ++ told cb (evt.event ∷ [])
unfolding notify get_time_ns
notify-heard e none evt l = sym (append-nil (heard l.trace))
notify-heard e (some f) evt l = refl

notify-buffer :
    (e : LibEnv) (cb : Option ℕ) (evt : TimedEvent) (l : InputLib)
    → (notify e cb evt l).buffer ≡ l.buffer
unfolding notify get_time_ns
notify-buffer e none evt l = refl
notify-buffer e (some f) evt l = refl

notify-worker_callback :
    (e : LibEnv) (cb : Option ℕ) (evt : TimedEvent) (l : InputLib)
    → (notify e cb evt l).worker_callback ≡ l.worker_callback
unfolding notify get_time_ns
notify-worker_callback e none evt l = refl
notify-worker_callback e (some f) evt l = refl

told-append :
    (cb : Option ℕ) (x : PlainEvent) (xs : List PlainEvent)
    → told cb (x ∷ []) ++ told cb xs ≡ told cb (x ∷ xs)
told-append none x xs = refl
told-append (some f) x xs = refl

-- What one event does.
record Received (e : LibEnv) (raw : InputEvent) (l s : InputLib) : Type 0 where
  pub valid : IsValid buffer_size s.buffer
  pub contents_after :
      contents buffer_size blank_timed s.buffer
      ≡ offer 999 (contents buffer_size blank_timed l.buffer) (timed raw (get_time_ns e l).0)
  pub heard_after : heard s.trace ≡ heard l.trace ++ told l.worker_callback (plain raw ∷ [])
  pub callback_kept : s.worker_callback ≡ l.worker_callback

receive-Received :
    (e : LibEnv) (raw : InputEvent) (l : InputLib)
    → IsValid buffer_size l.buffer
    → Received e raw l (receive e raw l)
unfolding receive get_time_ns
receive-Received e raw l v =
    let evt = timed raw (get_time_ns e l).0 in
    let l1 = log clock_read l in
    let l2 = record l1 { buffer = ring_push buffer_size blank_timed l1.buffer evt } in
    let kept = notify-buffer e l2.worker_callback evt l2 in
    record {
      valid = rw kept (ring_push-IsValid buffer_size blank_timed l.buffer evt v);
      contents_after =
          ap (contents buffer_size blank_timed) kept
          ∙ contents-ring_push buffer_size blank_timed l.buffer evt v;
      heard_after = notify-heard e l2.worker_callback evt l2;
      callback_kept = notify-worker_callback e l2.worker_callback evt l2;
    }

offered :
    (q : List TimedEvent) (evt : TimedEvent)
    → length q + 1 ≤ 999
    → offer 999 q evt ≡ q ++ (evt ∷ [])
unfolding offer
offered q evt h = if_true (ltb (length q) 999) _ _ (lt→ltb (length q) 999 (omega arith))

told-nil : (cb : Option ℕ) → [] ≡ told cb []
told-nil none = refl
told-nil (some f) = refl

nothing :
    (l : InputLib)
    → (queued l ≡ queued l ++ []) × (heard l.trace ≡ heard l.trace ++ told l.worker_callback [])
nothing l = (
  sym (append-nil (queued l)),
  sym (append-nil (heard l.trace)) ∙ ap (λ xs. heard l.trace ++ xs) (told-nil l.worker_callback),
)

fitted :
    (e : LibEnv) (raw : InputEvent) (l s : InputLib)
    → Received e raw l s
    → length (contents buffer_size blank_timed l.buffer) + 1 ≤ 999
    → contents buffer_size blank_timed s.buffer
      ≡ contents buffer_size blank_timed l.buffer ++ (timed raw (get_time_ns e l).0 ∷ [])
fitted e raw l s r h = r.contents_after ∙ offered _ (timed raw (get_time_ns e l).0) h

-- From a valid ring, if the events that the reads give fit behind what is queued: they are queued in
-- order behind it, and a callback that is set got each of them once, in the same order. Nothing behind
-- a read that fails is delivered.
pub receive_all-delivers :
    (e : LibEnv) (rs : List ReadResult) (l : InputLib)
    → IsValid buffer_size l.buffer
    → length (contents buffer_size blank_timed l.buffer) + length (leading rs) ≤ 999
    → (queued (receive_all e rs l) ≡ queued l ++ leading rs)
      × (heard (receive_all e rs l).trace ≡ heard l.trace ++ told l.worker_callback (leading rs))
unfolding receive_all
receive_all-delivers e [] l v h = nothing l
receive_all-delivers e (error ∷ rs) l v h = nothing l
receive_all-delivers e (short ∷ rs) l v h = nothing l
receive_all-delivers e (event raw ∷ rs) l v h =
    let s = receive e raw l in
    let evt = timed raw (get_time_ns e l).0 in
    let r = receive-Received e raw l v in
    let q = contents buffer_size blank_timed l.buffer in
    let room = fitted e raw l s r (omega (arith, h)) in
    let (polled, got) =
      receive_all-delivers e rs s r.valid
        (omega (arith, h, ap length room, length-append q (evt ∷ []))) in
    (
      polled
          ∙ ap (λ xs. events_of xs ++ leading rs) room
          ∙ ap (λ xs. xs ++ leading rs) (events_of-append q (evt ∷ []))
          ∙ append_assoc (queued l) (plain raw ∷ []) (leading rs),
      got
          ∙ ap (λ xs. xs ++ told s.worker_callback (leading rs)) r.heard_after
          ∙ ap
              (λ cb.
                (heard l.trace ++ told l.worker_callback (plain raw ∷ [])) ++ told cb (leading rs))
              r.callback_kept
          ∙ append_assoc (heard l.trace) _ _
          ∙ ap (λ xs. heard l.trace ++ xs) (told-append l.worker_callback (plain raw) (leading rs)),
    )
