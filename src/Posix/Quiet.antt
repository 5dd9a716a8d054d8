-- ===== src/Posix/Quiet.antt =====
-- Operations of src/libasyncinput_posix.c that leave the device table, the descriptors of the event
-- devices alone.
use asyncinput.Prelude.{
  ltb, ◌&&◌, ℕ, ◌+◌, ◌≡◌, refl, ap, ap₂, ◌∙◌, inl, inr, List, [], ◌∷◌, Bool, true, false, Option,
  none, some, if◌then◌else◌, arith, Bool-cases, take, length, set, leb,
}
use asyncinput.Prelude.Int.{ℤ, is_neg, minus_one, nonzero, eqb_ℤ}
use asyncinput.Prelude.Tally.{tally}
use asyncinput.Event.{NiEvent, NiKeyEvent}
use asyncinput.Posix.{
  slot, max_devices, Env, G, Trace, emit_or_queue, emit_to, log, Call, opened, closed, epoll_add,
  epoll_del, called, key_called, xkb_updated, clock_read, other_closed,
}
use asyncinput.Posix.Devices.Table.{IsTable}
use asyncinput.Posix.Devices.Ids.{IsScanned-same}
use asyncinput.Posix.Devices.Descriptors.{IsBalanced, opens, closes, holds}
use asyncinput.Posix.Devices.Scan.{IsSound}
use asyncinput.Posix.Keys.{
  maybe_emit_key_event, emit_key, emit_key_to, translate, make_key_event, xkb_code,
}
use asyncinput.Posix.Mice.{Reader, packet_events, emit_all, mice_byte, mice_bytes, mice_exit}
use asyncinput.Posix.Worker.{ReadResult, event, error, short, drain, event_of}

-- No slot that a device was registered with lies behind the array.
abbrev pub fits : Trace → Bool
fits [] = true
fits (epoll_add fd (slot i) ∷ t) = ltb i max_devices && fits t
fits (_ ∷ t) = fits t

pub record Quiet (g s : G) : Type 0 where
  pub devices : s.devices ≡ g.devices
  pub ndevi : s.ndevi ≡ g.ndevi
  pub opens_same : (x : ℤ) → opens x s.trace ≡ opens x g.trace
  pub closes_same : (x : ℤ) → closes x s.trace ≡ closes x g.trace
  pub fits_same : fits s.trace ≡ fits g.trace

-- A change of other fields is quiet.
pub Quiet-same :
    (g s : G) → s.devices ≡ g.devices → s.ndevi ≡ g.ndevi → s.trace ≡ g.trace → Quiet g s
Quiet-same g s d n t = record {
  devices = d;
  ndevi = n;
  opens_same = λ x. ap (opens x) t;
  closes_same = λ x. ap (closes x) t;
  fits_same = ap fits t;
}

-- The calls that are not about event devices or the epoll set.
abbrev pub IsOther : Call → Type 0
IsOther (opened path fd) = ⊥
IsOther (closed fd) = ⊥
IsOther (epoll_add fd p) = ⊥
IsOther (epoll_del fd) = ⊥
IsOther _ = Unit

pub Quiet-log : (c : Call) (g : G) → IsOther c → Quiet g (log c g)
Quiet-log (opened path fd) g h = absurd h
Quiet-log (closed fd) g h = absurd h
Quiet-log (epoll_add fd p) g h = absurd h
Quiet-log (epoll_del fd) g h = absurd h
Quiet-log _ g h = record {
  devices = refl;
  ndevi = refl;
  opens_same = λ x. refl;
  closes_same = λ x. refl;
  fits_same = refl;
}

pub Quiet-refl : (g : G) → Quiet g g
Quiet-refl g = Quiet-same g g refl refl refl

pub Quiet-trans : (g s t : G) → Quiet g s → Quiet s t → Quiet g t
Quiet-trans g s t p q = record {
  devices = q.devices ∙ p.devices;
  ndevi = q.ndevi ∙ p.ndevi;
  opens_same = λ x. q.opens_same x ∙ p.opens_same x;
  closes_same = λ x. q.closes_same x ∙ p.closes_same x;
  fits_same = q.fits_same ∙ p.fits_same;
}

-- What a quiet operation keeps.
module _ (g s : G) (q : Quiet g s) where
  pub IsTable-Quiet : IsTable g → IsTable s
  IsTable-Quiet t = omega (arith, ap length q.devices, q.ndevi)

  pub IsBalanced-Quiet : IsBalanced g → IsBalanced s
  IsBalanced-Quiet b x = omega (
    arith,
    b x,
    q.opens_same x,
    q.closes_same x,
    ap (tally (holds x)) (ap₂ take q.ndevi q.devices),
  )

  pub IsSound-Quiet : IsSound g → IsSound s
  IsSound-Quiet (d, b) = (IsScanned-same g s q.devices q.ndevi d, IsBalanced-Quiet b)

-- The table and its descriptors do not show in the other fields, nor in a call that is not about them.
pub emit_to-Quiet : (cb : Option ℕ) (ev : NiEvent) (g : G) → Quiet g (emit_to cb ev g)
unfolding emit_to
emit_to-Quiet (some f) ev g = Quiet-log (called f g.cb_user ev) g tt
emit_to-Quiet none ev g = Quiet-same g _ refl refl refl

pub emit_or_queue-Quiet : (ev : NiEvent) (g : G) → Quiet g (emit_or_queue ev g)
unfolding emit_or_queue
emit_or_queue-Quiet ev g = emit_to-Quiet g.cb ev g

emit_key_to-Quiet : (cb : Option ℕ) (kev : NiKeyEvent) (g : G) → Quiet g (emit_key_to cb kev g)
unfolding emit_key_to
emit_key_to-Quiet (some f) kev g = Quiet-log (key_called f g.key_cb_user kev) g tt
emit_key_to-Quiet none kev g = Quiet-same g _ refl refl refl

translate-Quiet :
    (e : Env) (base : NiEvent) (st : Option ℕ) (g : G) → Quiet g (translate e base st g)
unfolding translate
translate-Quiet e base none g = Quiet-refl g
translate-Quiet e base (some st) g =
    let (kev, g') = make_key_event e base st g in
    Quiet-trans g g' (emit_key kev g')
      (Quiet-log (xkb_updated st (xkb_code base.code) (nonzero base.value)) g tt)
      (emit_key_to-Quiet g'.key_cb kev g')

-- A choice between two quiet results is quiet.
if-Quiet : (g : G) (b : Bool) {s t : G} → Quiet g s → Quiet g t → Quiet g (if b then s else t)
if-Quiet g true p q = p
if-Quiet g false p q = q

pub maybe_emit_key_event-Quiet :
    (e : Env) (base : NiEvent) (g : G) → Quiet g (maybe_emit_key_event e base g)
unfolding maybe_emit_key_event
maybe_emit_key_event-Quiet e base g =
    let no = Quiet-refl g in
    let translated = translate-Quiet e base g.xkb_state g in
    if-Quiet g g.xkb_enabled
      (if-Quiet g e.have_xkb (if-Quiet g (eqb_ℤ base.type e.codes.ev_key) translated no) no) no

pub drain-Quiet :
    (e : Env) (devid : ℤ) (rs : List ReadResult) (g : G) → Quiet g (drain e devid rs g)
unfolding drain
drain-Quiet e devid [] g = Quiet-refl g
drain-Quiet e devid (event iev ∷ rs) g =
    let ev = event_of devid iev in
    let g' = emit_or_queue ev g in
    Quiet-trans g _ _ (emit_or_queue-Quiet ev g) (
      Quiet-trans g' _ _ (maybe_emit_key_event-Quiet e ev g')
        (drain-Quiet e devid rs (maybe_emit_key_event e ev g')))
drain-Quiet e devid (error ∷ rs) g = Quiet-refl g
drain-Quiet e devid (short ∷ rs) g = Quiet-refl g

pub emit_all-Quiet : (evs : List NiEvent) (g : G) → Quiet g (emit_all evs g)
unfolding emit_all
emit_all-Quiet [] g = Quiet-refl g
emit_all-Quiet (ev ∷ evs) g =
    Quiet-trans g _ _ (emit_or_queue-Quiet ev g) (emit_all-Quiet evs (emit_or_queue ev g))

mice_byte-Quiet : (e : Env) (b : ℕ) (m : Reader) (g : G) → Quiet g (mice_byte e b m g).1
unfolding mice_byte
mice_byte-Quiet e b m g =
    let have = m.have + 1 in
    let g' = log clock_read g in
    let evs = packet_events e.codes (e.clock g.trace) (set m.pkt m.have b) have in
    elim (Bool-cases (leb 3 have)) [
      | inl full ↦ rw full (Quiet-trans g g' _ (Quiet-log clock_read g tt) (emit_all-Quiet evs g'))
      | inr more ↦ rw more (Quiet-refl g)
    ]

pub mice_bytes-Quiet :
    (e : Env) (bs : List ℕ) (m : Reader) (g : G) → Quiet g (mice_bytes e bs m g).1
unfolding mice_bytes
mice_bytes-Quiet e [] m g = Quiet-refl g
mice_bytes-Quiet e (b ∷ bs) m g =
    let (m', g') = mice_byte e b m g in
    Quiet-trans g g' _ (mice_byte-Quiet e b m g) (mice_bytes-Quiet e bs m' g')

pub mice_exit-Quiet : (g : G) → Quiet g (mice_exit g)
unfolding mice_exit
mice_exit-Quiet g = if-Quiet g (is_neg g.mice_fd) (Quiet-refl g) (
    Quiet-trans g (record g { mice_fd = minus_one }) _ (Quiet-same g _ refl refl refl)
      (Quiet-log (other_closed g.mice_fd) (record g { mice_fd = minus_one }) tt))
