-- ===== src/Posix/Runs/Threads.antt =====
-- The threads of src/libasyncinput_posix.c neither acquire nor give back an object of libxkbcommon.
use asyncinput.Prelude.{
  ℕ, ◌+◌, refl, List, [], ◌∷◌, not, ◌||◌, ◌&&◌, Option, none, some, arith, by_if, get_or, set, leb,
}
use asyncinput.Prelude.Int.{ℤ, is_neg, nonzero, eqb_ℤ, ltb_ℤ}
use asyncinput.Event.{NiEvent, NiKeyEvent}
use asyncinput.Posix.{
  Env, G, Pointer, blank_device, inotify, null, slot, emit_to, emit_or_queue, now_ns,
}
use asyncinput.Posix.Keys.{maybe_emit_key_event, translate, make_key_event, emit_key, emit_key_to}
use asyncinput.Posix.Mice.{
  Running, Reader, ReadBytes, bytes, again, failed, packet_events, emit_all, mice_byte, mice_bytes,
  mice_exit, mice_start, mice_round,
}
use asyncinput.Posix.Worker.{
  ReadResult, event, error, short, event_of, drain, deliver, Pending, handle_ready, handle_all,
  maybe_rescan, worker_round,
}
use asyncinput.Posix.Runs.Kept.{
  Kept, Kept-same, Kept-refl, Kept-trans, scan_devices-Kept, handle_inotify_event-Kept,
}

emit_to-Kept : (cb : Option ℕ) (ev : NiEvent) (g : G) → Kept g (emit_to cb ev g)
unfolding emit_to
emit_to-Kept (some f) ev g = Kept-same g _ refl refl refl (λ k x. refl) (λ k x. refl) (λ h. h)
emit_to-Kept none ev g = Kept-same g _ refl refl refl (λ k x. refl) (λ k x. refl) (λ h. h)

emit_or_queue-Kept : (ev : NiEvent) (g : G) → Kept g (emit_or_queue ev g)
unfolding emit_or_queue
emit_or_queue-Kept ev g = emit_to-Kept g.cb ev g

emit_key_to-Kept : (cb : Option ℕ) (kev : NiKeyEvent) (g : G) → Kept g (emit_key_to cb kev g)
unfolding emit_key_to
emit_key_to-Kept (some f) kev g = Kept-same g _ refl refl refl (λ k x. refl) (λ k x. refl) (λ h. h)
emit_key_to-Kept none kev g = Kept-same g _ refl refl refl (λ k x. refl) (λ k x. refl) (λ h. h)

translate-Kept : (e : Env) (base : NiEvent) (st : Option ℕ) (g : G) → Kept g (translate e base st g)
unfolding translate make_key_event emit_key
translate-Kept e base none g = Kept-refl g
translate-Kept e base (some st) g =
    let (kev, g') = make_key_event e base st g in
    Kept-trans g g' _ (Kept-same g g' refl refl refl (λ k x. refl) (λ k x. refl) (λ h. h))
      (emit_key_to-Kept g'.key_cb kev g')

maybe_emit_key_event-Kept :
    (e : Env) (base : NiEvent) (g : G) → Kept g (maybe_emit_key_event e base g)
unfolding maybe_emit_key_event
maybe_emit_key_event-Kept e base g =
    by_if (Kept g) g.xkb_enabled _ _
      (λ _.
        by_if (Kept g) e.have_xkb _ _
          (λ _.
            by_if (Kept g) (eqb_ℤ base.type e.codes.ev_key) _ _
              (λ _. translate-Kept e base g.xkb_state g) (λ _. Kept-refl g))
          (λ _. Kept-refl g))
      (λ _. Kept-refl g)

drain-Kept : (e : Env) (devid : ℤ) (rs : List ReadResult) (g : G) → Kept g (drain e devid rs g)
unfolding drain deliver
drain-Kept e devid [] g = Kept-refl g
drain-Kept e devid (event iev ∷ rs) g =
    let ev = event_of devid iev in
    let g1 = emit_or_queue ev g in
    let g2 = maybe_emit_key_event e ev g1 in
    Kept-trans g g1 _ (emit_or_queue-Kept ev g)
      (Kept-trans g1 g2 _ (maybe_emit_key_event-Kept e ev g1) (drain-Kept e devid rs g2))
drain-Kept e devid (error ∷ rs) g = Kept-refl g
drain-Kept e devid (short ∷ rs) g = Kept-refl g

handle_ready-Kept : (e : Env) (p : Pending) (r : Pointer) (g : G) → Kept g (handle_ready e p r g)
unfolding handle_ready
handle_ready-Kept e p inotify g = handle_inotify_event-Kept e p.nodes g
handle_ready-Kept e p null g = Kept-refl g
handle_ready-Kept e p (slot i) g =
    let dev = get_or g.devices i blank_device in drain-Kept e dev.id (p.of_fd dev.fd) g

handle_all-Kept : (e : Env) (p : Pending) (rs : List Pointer) (g : G) → Kept g (handle_all e p rs g)
unfolding handle_all
handle_all-Kept e p [] g = Kept-refl g
handle_all-Kept e p (r ∷ rs) g =
    Kept-trans g (handle_ready e p r g) _ (handle_ready-Kept e p r g)
      (handle_all-Kept e p rs (handle_ready e p r g))

maybe_rescan-Kept : (e : Env) (g : G) → Kept g (maybe_rescan e g)
unfolding maybe_rescan now_ns
maybe_rescan-Kept e g =
    let g' = (now_ns e g).1 in
    let same = Kept-same g g' refl refl refl (λ k x. refl) (λ k x. refl) (λ h. h) in
    by_if (Kept g) (nonzero g'.rescan_until_ns && ltb_ℤ (e.clock g.trace) g'.rescan_until_ns) _ _
      (λ _. Kept-trans g g' _ same (scan_devices-Kept e g')) (λ _. same)

pub worker_round-Kept :
    (e : Env) (p : Pending) (ready : List Pointer) (g : G) → Kept g (worker_round e p ready g).1
unfolding worker_round
worker_round-Kept e p ready g =
    by_if (λ (r : Running × G). Kept g r.1) g.stop _ _ (λ _. Kept-refl g)
      (λ _.
        Kept-trans g (maybe_rescan e g) _ (maybe_rescan-Kept e g)
          (handle_all-Kept e p ready (maybe_rescan e g)))

emit_all-Kept : (evs : List NiEvent) (g : G) → Kept g (emit_all evs g)
unfolding emit_all
emit_all-Kept [] g = Kept-refl g
emit_all-Kept (ev ∷ evs) g =
    Kept-trans g (emit_or_queue ev g) _ (emit_or_queue-Kept ev g)
      (emit_all-Kept evs (emit_or_queue ev g))

mice_byte-Kept : (e : Env) (b : ℕ) (m : Reader) (g : G) → Kept g (mice_byte e b m g).1
unfolding mice_byte now_ns
mice_byte-Kept e b m g =
    by_if (λ (r : Reader × G). Kept g r.1) (leb 3 (m.have + 1)) _ _
      (λ _.
        let (ts, g') = now_ns e g in
        Kept-trans g g' _ (Kept-same g g' refl refl refl (λ k x. refl) (λ k x. refl) (λ h. h))
          (emit_all-Kept (packet_events e.codes ts (set m.pkt m.have b) (m.have + 1)) g'))
      (λ _. Kept-refl g)

mice_bytes-Kept : (e : Env) (bs : List ℕ) (m : Reader) (g : G) → Kept g (mice_bytes e bs m g).1
unfolding mice_bytes
mice_bytes-Kept e [] m g = Kept-refl g
mice_bytes-Kept e (b ∷ bs) m g =
    let (m', g') = mice_byte e b m g in
    Kept-trans g g' _ (mice_byte-Kept e b m g) (mice_bytes-Kept e bs m' g')

mice_exit-Kept : (g : G) → Kept g (mice_exit g)
unfolding mice_exit
mice_exit-Kept g =
    by_if (Kept g) (is_neg g.mice_fd) _ _ (λ _. Kept-refl g)
      (λ _. Kept-same g _ refl refl refl (λ k x. refl) (λ k x. refl) (λ h. h))

pub mice_start-Kept : (e : Env) (g : G) → Kept g (mice_start e g).1
unfolding mice_start
mice_start-Kept e g = record {
  ctx = ground arith;
  km = ground arith;
  st = ground arith;
  made_same = λ k x. ground arith;
  freed_same = λ k x. ground arith;
  on = λ h. ground arith;
}

pub mice_round-Kept : (e : Env) (r : ReadBytes) (m : Reader) (g : G) → Kept g (mice_round e r m g).2
unfolding mice_round
mice_round-Kept e (bytes bs) m g =
    by_if (λ (r : Running × Reader × G). Kept g r.2) (g.stop || not g.mice_enabled) _ _
      (λ _. mice_exit-Kept g) (λ _. mice_bytes-Kept e bs m g)
mice_round-Kept e again m g =
    by_if (λ (r : Running × Reader × G). Kept g r.2) (g.stop || not g.mice_enabled) _ _
      (λ _. mice_exit-Kept g) (λ _. Kept-refl g)
mice_round-Kept e failed m g = mice_exit-Kept g
