-- ===== src/Posix/Runs/Rings.antt =====
-- What the two threads of src/libasyncinput_posix.c do to the two queues.
use asyncinput.Prelude.{
  ℕ, ◌+◌, refl, sym, subst, List, [], ◌∷◌, not, ◌||◌, ◌&&◌, Option, none, some, arith, by_if,
  get_or, set, leb,
}
use asyncinput.Prelude.Int.{ℤ, nonzero, eqb_ℤ, ltb_ℤ}
use asyncinput.Event.{NiEvent, NiKeyEvent, blank_event, blank_key_event}
use asyncinput.Ring.{ring_size}
use asyncinput.Ring.Bounds.{IsValid, ring_init-IsValid, ring_push-IsValid}
use asyncinput.Posix.{
  Env, G, Trace, Pointer, blank_device, inotify, null, slot, zeroed, emit_to, emit_or_queue, now_ns,
}
use asyncinput.Posix.Keys.{maybe_emit_key_event, translate, make_key_event, emit_key, emit_key_to}
use asyncinput.Posix.Mice.{
  Running, Reader, ReadBytes, bytes, again, failed, packet_events, emit_all, mice_byte, mice_bytes,
  mice_exit, mice_start, mice_round,
}
use asyncinput.Posix.Worker.{
  ReadResult, event, error, short, event_of, drain, deliver, Pending, handle_ready, handle_all,
  maybe_rescan, worker_round,
}
use asyncinput.Posix.Runs.Calm.{
  Calm, Calm-same, Calm-trans, scan_devices-Calm, handle_inotify_event-Calm,
}

-- Both queues are valid rings.
pub record HasRings (g : G) : Type 0 where
  pub queue : IsValid ring_size g.queue
  pub key_queue : IsValid ring_size g.key_queue

pub HasRings-Calm : (g s : G) → Calm g s → HasRings g → HasRings s
HasRings-Calm g s c h = record {
  queue = subst (IsValid ring_size) (sym c.queue) h.queue;
  key_queue = subst (IsValid ring_size) (sym c.key_queue) h.key_queue;
}

pub zeroed-HasRings : (t : Trace) → HasRings (zeroed t)
unfolding zeroed
zeroed-HasRings t = record {
  queue = ring_init-IsValid ring_size blank_event (omega arith);
  key_queue = ring_init-IsValid ring_size blank_key_event (omega arith);
}

emit_to-HasRings : (cb : Option ℕ) (ev : NiEvent) (g : G) → HasRings g → HasRings (emit_to cb ev g)
unfolding emit_to
emit_to-HasRings (some f) ev g h = HasRings-Calm g _ (Calm-same g _ refl refl (λ h. h)) h
emit_to-HasRings none ev g h = record {
  queue = ring_push-IsValid ring_size blank_event g.queue ev h.queue;
  key_queue = h.key_queue;
}

emit_or_queue-HasRings : (ev : NiEvent) (g : G) → HasRings g → HasRings (emit_or_queue ev g)
unfolding emit_or_queue
emit_or_queue-HasRings ev g h = emit_to-HasRings g.cb ev g h

emit_key_to-HasRings :
    (cb : Option ℕ) (kev : NiKeyEvent) (g : G) → HasRings g → HasRings (emit_key_to cb kev g)
unfolding emit_key_to
emit_key_to-HasRings (some f) kev g h = HasRings-Calm g _ (Calm-same g _ refl refl (λ h. h)) h
emit_key_to-HasRings none kev g h = record {
  queue = h.queue;
  key_queue = ring_push-IsValid ring_size blank_key_event g.key_queue kev h.key_queue;
}

translate-HasRings :
    (e : Env) (base : NiEvent) (st : Option ℕ) (g : G)
    → HasRings g
    → HasRings (translate e base st g)
unfolding translate make_key_event emit_key
translate-HasRings e base none g h = h
translate-HasRings e base (some st) g h =
    let (kev, g') = make_key_event e base st g in
    emit_key_to-HasRings g'.key_cb kev g' (HasRings-Calm g g' (Calm-same g g' refl refl (λ h. h)) h)

maybe_emit_key_event-HasRings :
    (e : Env) (base : NiEvent) (g : G) → HasRings g → HasRings (maybe_emit_key_event e base g)
unfolding maybe_emit_key_event
maybe_emit_key_event-HasRings e base g h =
    by_if HasRings g.xkb_enabled _ _
      (λ _.
        by_if HasRings e.have_xkb _ _
          (λ _.
            by_if HasRings (eqb_ℤ base.type e.codes.ev_key) _ _
              (λ _. translate-HasRings e base g.xkb_state g h) (λ _. h))
          (λ _. h))
      (λ _. h)

drain-HasRings :
    (e : Env) (devid : ℤ) (rs : List ReadResult) (g : G)
    → HasRings g
    → HasRings (drain e devid rs g)
unfolding drain deliver
drain-HasRings e devid [] g h = h
drain-HasRings e devid (event iev ∷ rs) g h =
    let ev = event_of devid iev in
    drain-HasRings e devid rs _
      (maybe_emit_key_event-HasRings e ev (emit_or_queue ev g) (emit_or_queue-HasRings ev g h))
drain-HasRings e devid (error ∷ rs) g h = h
drain-HasRings e devid (short ∷ rs) g h = h

handle_all-HasRings :
    (e : Env) (p : Pending) (rs : List Pointer) (g : G)
    → HasRings g
    → HasRings (handle_all e p rs g)
unfolding handle_all handle_ready
handle_all-HasRings e p [] g h = h
handle_all-HasRings e p (inotify ∷ rs) g h =
    handle_all-HasRings e p rs _ (HasRings-Calm g _ (handle_inotify_event-Calm e p.nodes g) h)
handle_all-HasRings e p (null ∷ rs) g h = handle_all-HasRings e p rs g h
handle_all-HasRings e p (slot i ∷ rs) g h =
    let dev = get_or g.devices i blank_device in
    handle_all-HasRings e p rs _ (drain-HasRings e dev.id (p.of_fd dev.fd) g h)

maybe_rescan-Calm : (e : Env) (g : G) → Calm g (maybe_rescan e g)
unfolding maybe_rescan now_ns
maybe_rescan-Calm e g =
    let g' = (now_ns e g).1 in
    let same = Calm-same g g' refl refl (λ h. h) in
    by_if (Calm g) (nonzero g'.rescan_until_ns && ltb_ℤ (e.clock g.trace) g'.rescan_until_ns) _ _
      (λ _. Calm-trans g g' _ same (scan_devices-Calm e g')) (λ _. same)

pub worker_round-HasRings :
    (e : Env) (p : Pending) (ready : List Pointer) (g : G)
    → HasRings g
    → HasRings (worker_round e p ready g).1
unfolding worker_round
worker_round-HasRings e p ready g h =
    by_if (λ (r : Running × G). HasRings r.1) g.stop _ _ (λ _. h)
      (λ _. handle_all-HasRings e p ready _ (HasRings-Calm g _ (maybe_rescan-Calm e g) h))

emit_all-HasRings : (evs : List NiEvent) (g : G) → HasRings g → HasRings (emit_all evs g)
unfolding emit_all
emit_all-HasRings [] g h = h
emit_all-HasRings (ev ∷ evs) g h = emit_all-HasRings evs _ (emit_or_queue-HasRings ev g h)

mice_bytes-HasRings :
    (e : Env) (bs : List ℕ) (m : Reader) (g : G) → HasRings g → HasRings (mice_bytes e bs m g).1
unfolding mice_bytes mice_byte now_ns
mice_bytes-HasRings e [] m g h = h
mice_bytes-HasRings e (b ∷ bs) m g h = mice_bytes-HasRings e bs _ _ (
    by_if (λ (r : Reader × G). HasRings r.1) (leb 3 (m.have + 1)) _ _
      (λ _.
        let (ts, g') = now_ns e g in
        emit_all-HasRings (packet_events e.codes ts (set m.pkt m.have b) (m.have + 1)) g'
          (HasRings-Calm g g' (Calm-same g g' refl refl (λ h. h)) h))
      (λ _. h))

mice_exit-Calm : (g : G) → Calm g (mice_exit g)
unfolding mice_exit
mice_exit-Calm g = ground arith

pub mice_start-Calm : (e : Env) (g : G) → Calm g (mice_start e g).1
unfolding mice_start
mice_start-Calm e g = ground arith

pub mice_round-HasRings :
    (e : Env) (r : ReadBytes) (m : Reader) (g : G) → HasRings g → HasRings (mice_round e r m g).2
unfolding mice_round
mice_round-HasRings e (bytes bs) m g h =
    by_if (λ (r : Running × Reader × G). HasRings r.2) (g.stop || not g.mice_enabled) _ _
      (λ _. HasRings-Calm g _ (mice_exit-Calm g) h) (λ _. mice_bytes-HasRings e bs m g h)
mice_round-HasRings e again m g h =
    by_if (λ (r : Running × Reader × G). HasRings r.2) (g.stop || not g.mice_enabled) _ _
      (λ _. HasRings-Calm g _ (mice_exit-Calm g) h) (λ _. h)
mice_round-HasRings e failed m g h = HasRings-Calm g _ (mice_exit-Calm g) h
