-- ===== src/Posix/Worker/Delivery.antt =====
-- From the kernel to `ni_poll`: without callbacks the events that the worker reads are those that the
-- application polls.
use asyncinput.Prelude.{
  ℕ, ◌+◌, ◌-◌, ◌≤◌, ◌≡◌, refl, sym, ap, ap₂, ◌∙◌, List, [], ◌∷◌, ◌++◌, true, false, Option, none,
  some, arith, if_false, subst, subst₂, not, ◌||◌, ne→==, ◌==◌, length, take, drop, min, suc,
}
use asyncinput.Prelude.Int.{ℤ, pos}
use asyncinput.Event.{NiEvent, blank_event}
use asyncinput.Ring.{RingBuf, ring_size, ring_push, ring_pop_many}
use asyncinput.Ring.Bounds.{IsValid, ring_push-IsValid}
use asyncinput.Ring.Refine.{contents}
use asyncinput.Ring.Drain.{ring_pop_many-poll}
use asyncinput.Ring.Runs.{Op, put, puts, run, run_lossless}
use asyncinput.Posix.{Env, G, emit_to}
use asyncinput.Posix.Keys.{maybe_emit_key_event}
use asyncinput.Posix.Worker.{InputEvent, ReadResult, event, error, short, event_of, deliver, drain}
use asyncinput.Posix.Api.{ni_poll}

-- the events that are read before the first error or short read
abbrev pub arrived : List ReadResult → List InputEvent
arrived [] = []
arrived (event iev ∷ rs) = iev ∷ arrived rs
arrived (error ∷ rs) = []
arrived (short ∷ rs) = []

-- An event is queued, and nothing else happens, if there is no callback and no xkb layer.
deliver_quietly :
    (e : Env) (devid : ℤ) (iev : InputEvent) (g : G)
    → g.cb ≡ none
    → g.xkb_enabled ≡ false
    → deliver e devid iev g
      ≡ record g { queue = ring_push ring_size blank_event g.queue (event_of devid iev) }
unfolding deliver emit_to
deliver_quietly e devid iev g no_cb no_xkb =
    ap (λ c. maybe_emit_key_event e (event_of devid iev) (emit_to c (event_of devid iev) g)) no_cb
    ∙ if_false g.xkb_enabled _ _ no_xkb

module _ (devid : ℤ) where
  abbrev pub events : List InputEvent → List NiEvent
  events [] = []
  events (iev ∷ ievs) = event_of devid iev ∷ events ievs

  abbrev pub pushes : List InputEvent → List (Op NiEvent)
  pushes [] = []
  pushes (iev ∷ ievs) = put (event_of devid iev) ∷ pushes ievs

  puts-pushes : (ievs : List InputEvent) → puts (pushes ievs) ≡ events ievs
  puts-pushes [] = refl
  puts-pushes (iev ∷ ievs) = ap (◌∷◌ (event_of devid iev)) (puts-pushes ievs)

  drain-run :
      (e : Env) (rs : List ReadResult) (g : G)
      → g.cb ≡ none
      → g.xkb_enabled ≡ false
      → drain e devid rs g
        ≡ record g { queue = (run ring_size blank_event g.queue (pushes (arrived rs))).1 }
  unfolding drain run
  drain-run e [] g no_cb no_xkb = refl
  drain-run e (event iev ∷ rs) g no_cb no_xkb =
      ap (drain e devid rs) (deliver_quietly e devid iev g no_cb no_xkb)
      ∙ drain-run e rs
          (record g { queue = ring_push ring_size blank_event g.queue (event_of devid iev) }) no_cb
          no_xkb
  drain-run e (error ∷ rs) g no_cb no_xkb = refl
  drain-run e (short ∷ rs) g no_cb no_xkb = refl

  pushes_take_nothing :
      (r : RingBuf NiEvent) (ievs : List InputEvent)
      → (run ring_size blank_event r (pushes ievs)).0 ≡ []
  unfolding run
  pushes_take_nothing r [] = refl
  pushes_take_nothing r (iev ∷ ievs) =
      pushes_take_nothing (ring_push ring_size blank_event r (event_of devid iev)) ievs

  pushes-IsValid :
      (r : RingBuf NiEvent) (ievs : List InputEvent)
      → IsValid ring_size r
      → IsValid ring_size (run ring_size blank_event r (pushes ievs)).1
  unfolding run
  pushes-IsValid r [] v = v
  pushes-IsValid r (iev ∷ ievs) v =
      pushes-IsValid (ring_push ring_size blank_event r (event_of devid iev)) ievs
        (ring_push-IsValid ring_size blank_event r (event_of devid iev) v)

  pushes-contents :
      (r : RingBuf NiEvent) (ievs : List InputEvent)
      → IsValid ring_size r
      → length (contents ring_size blank_event r) + length (events ievs) ≤ ring_size - 1
      → contents ring_size blank_event (run ring_size blank_event r (pushes ievs)).1
        ≡ contents ring_size blank_event r ++ events ievs
  pushes-contents r ievs v room =
      sym (
        ap (λ t. t ++ contents ring_size blank_event (run ring_size blank_event r (pushes ievs)).1)
          (pushes_take_nothing r ievs))
      ∙ run_lossless ring_size blank_event (pushes ievs) r v (rw (puts-pushes ievs) room)
      ∙ ap (λ t. contents ring_size blank_event r ++ t) (puts-pushes ievs)

-- what `ni_poll` gives from a queue: the number, the events written, and those that stay
unfoldable pub Polls : ℕ → List NiEvent → ℤ × Option (List NiEvent) × G → Type 0
Polls m q (n, out, g) =
    (n ≡ pos (min m (length q)))
    × ((written : List NiEvent) × (out ≡ some written)
        × (take (min m (length q)) written ≡ take m q))
    × (contents ring_size blank_event g.queue ≡ drop m q)

-- An initialized library with a valid queue gives `ni_poll` with m > 0, and an array of at least m events,
-- the oldest min(m, queued) events in order, returns their number and keeps the rest.
pub ni_poll-Polls :
    (g : G) (out : List NiEvent) (m : ℕ)
    → g.initialized ≡ true
    → IsValid ring_size g.queue
    → suc m ≤ length out
    → Polls (suc m) (contents ring_size blank_event g.queue) (ni_poll (some out) (pos (suc m)) g)
unfolding ni_poll Polls
ni_poll-Polls g out m started v room =
    let (n, rest, got, _) = ring_pop_many-poll ring_size blank_event g.queue out (suc m) v room in
    let q = contents ring_size blank_event g.queue in
    subst (Polls (suc m) q)
      (sym (
        if_false (not g.initialized || (suc m == 0)) _ _
          (ap₂ (λ a b. not a || b) started (ne→== (suc m) 0 (omega arith)))))
      (
        ap pos n,
        (
          (ring_pop_many ring_size blank_event g.queue out (suc m)).2,
          refl,
          ap (λ k. take k (ring_pop_many ring_size blank_event g.queue out (suc m)).2) (sym n)
              ∙ got,
        ),
        rest,
      )

-- With the library initialized, no callback, the xkb layer off and a valid queue: if the events that the
-- worker reads from a device before the first error or short read fit into the queue, a `ni_poll` of m > 0
-- events after it gives the oldest m of what was queued before and what was read, in order.
pub drain-ni_poll :
    (e : Env) (devid : ℤ) (rs : List ReadResult) (g : G) (out : List NiEvent) (m : ℕ)
    → g.initialized ≡ true
    → g.cb ≡ none
    → g.xkb_enabled ≡ false
    → IsValid ring_size g.queue
    → length (contents ring_size blank_event g.queue) + length (events devid (arrived rs))
      ≤ ring_size - 1
    → suc m ≤ length out
    → Polls
        (suc m)
        (contents ring_size blank_event g.queue ++ events devid (arrived rs))
        (ni_poll (some out) (pos (suc m)) (drain e devid rs g))
drain-ni_poll e devid rs g out m started no_cb no_xkb v fits room =
    let after : G = record g {
      queue = (run ring_size blank_event g.queue (pushes devid (arrived rs))).1;
    } in
    subst₂ (λ q (u : G). Polls (suc m) q (ni_poll (some out) (pos (suc m)) u))
      (pushes-contents devid g.queue (arrived rs) v fits)
      (sym (drain-run devid e rs g no_cb no_xkb))
      (ni_poll-Polls after out m started (pushes-IsValid devid g.queue (arrived rs) v) room)
