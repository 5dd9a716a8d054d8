-- ===== src/InputLib/Session.antt =====
-- A session with examples/input_lib.c: any calls of the application and any batches of the reader thread
-- between `input_lib_create` and `input_lib_destroy`.
use mathlib.Core.Option
use asyncinput.Prelude.{
  ap₂, ◌&&◌, [], ◌∷◌, ℕ, ◌≡◌, refl, sym, ap, subst, ◌∙◌, List, Option, none, some, arith, length,
  Bool, true, false, ◌==◌, by_if, Bool-cases, inl, inr, if_true, if_false,
}
use asyncinput.Prelude.Int.{ℤ, is_neg}
use asyncinput.Prelude.Tally.{tally}
use asyncinput.Posix.Worker.{ReadResult}
use asyncinput.InputLib.{
  LibTrace, LibEnv, InputLib, TimedEvent, input_lib_create, with_lib, with_buffer, with_epoll,
  input_lib_add_device, add_opened, link, input_lib_start_reading, input_lib_set_worker_callback,
  input_lib_stop, input_lib_poll_events, log, opened,
}
use asyncinput.InputLib.Threads.{Batch, reader_batch, reader_thread, input_lib_destroy}
use asyncinput.InputLib.Owned.{
  gained, lost, registered, IsRegistered, IsBalanced, IsOwned, IsAllocator, Made,
  input_lib_create-Made,
}
use asyncinput.InputLib.Adding.{input_lib_add_device-IsOwned}
use asyncinput.InputLib.Destroy.{input_lib_destroy-IsBalanced}
use asyncinput.InputLib.Joined.{
  IsJoined, IsManned, Crew, IsManned-Crew, left_here, reader_batch-Crew, input_lib_create-IsManned,
  add_device-Crew, start-IsManned, input_lib_destroy-IsJoined,
}
use asyncinput.InputLib.Reading.{
  Same, IsOwned-Same, IsRegistered-Same, all_registered, all_registered_same, both,
  reader_batch-reads,
}

pub data Session (e : LibEnv) : InputLib → Type 0 where
  making :
      (t : LibTrace) (l : InputLib) → IsBalanced t → (input_lib_create e t).0 ≡ some l → Session e l
  adding :
      (path : List ℕ) (l : InputLib) → Session e l → Session e (input_lib_add_device e path l).1
  starting : (l : InputLib) → Session e l → Session e (input_lib_start_reading e l)
  setting :
      (cb : Option ℕ) (user : ℕ) (l : InputLib)
      → Session e l
      → Session e (input_lib_set_worker_callback cb user l)
  stopping : (l : InputLib) → Session e l → Session e (input_lib_stop l)
  polling :
      (evts : List TimedEvent) (max : ℕ) (l : InputLib)
      → Session e l
      → Session e (input_lib_poll_events l evts max).2
  reading :
      (of_fd : ℤ → List ReadResult) (devs : List ℕ) (l s : InputLib)
      → all_registered devs l.trace ≡ true
      → reader_batch e of_fd devs l ≡ some s
      → Session e l
      → Session e s

some_of : (m : InputLib) (o : Option InputLib) → InputLib
some_of m none = m
some_of m (some l) = l

-- What is made, where something is.
with_buffer_made :
    (P : InputLib → Type 0) (e : LibEnv) (t : LibTrace) (ok : Bool) (l : InputLib)
    → ((u : LibTrace) (fd : ℤ) (m : InputLib) → (with_epoll u fd).0 ≡ some m → P m)
    → (with_buffer e t ok).0 ≡ some l
    → P l
unfolding with_buffer
with_buffer_made P e t false l h run = absurd (cc run)
with_buffer_made P e t true l h run = h _ _ l run

with_lib_made :
    (P : InputLib → Type 0) (e : LibEnv) (t : LibTrace) (ok : Bool) (l : InputLib)
    → ((u : LibTrace) (fd : ℤ) (m : InputLib) → (with_epoll u fd).0 ≡ some m → P m)
    → (with_lib e t ok).0 ≡ some l
    → P l
unfolding with_lib
with_lib_made P e t false l h run = absurd (cc run)
with_lib_made P e t true l h run = with_buffer_made P e _ _ l h run

made :
    (P : InputLib → Type 0) (e : LibEnv) (t : LibTrace) (l : InputLib)
    → ((u : LibTrace) (fd : ℤ) (m : InputLib) → (with_epoll u fd).0 ≡ some m → P m)
    → (input_lib_create e t).0 ≡ some l
    → P l
unfolding input_lib_create
made P e t l h run = with_lib_made P e t (e.calloc_lib t) l h run

owned : (p : Option InputLib × LibTrace) (l : InputLib) → Made p → p.0 ≡ some l → IsOwned l
unfolding some_of
owned (none, t) l m h = absurd (cc h)
owned (some k, t) l m h = subst IsOwned (ap (some_of k) h) m

making-IsRegistered :
    (u : LibTrace) (fd : ℤ) (m : InputLib) → (with_epoll u fd).0 ≡ some m → IsRegistered m
unfolding with_epoll some_of
making-IsRegistered u fd m h = elim (Bool-cases (is_neg fd)) [
  | inl neg ↦
      absurd (cc (ap (λ (p : Option InputLib × LibTrace). p.0) (sym (if_true _ _ _ neg)) ∙ h))
  | inr fine ↦
      subst IsRegistered
        (ap (some_of m)
          (ap (λ (p : Option InputLib × LibTrace). p.0) (sym (if_false _ _ _ fine)) ∙ h))
        (λ p there. absurd (cc there))
]

add_opened-IsRegistered :
    (e : LibEnv) (path : List ℕ) (fd : ℤ) (o : Option ℕ) (l : InputLib)
    → IsRegistered l
    → IsRegistered (add_opened e path fd o (log (opened path fd) l)).1
unfolding add_opened link
add_opened-IsRegistered e path fd none l g q h = g q h
add_opened-IsRegistered e path fd (some p) l g q h = elim (Bool-cases (p == q)) [
  | inl same ↦ (_, if_true (p == q) _ _ same)
  | inr other ↦
      let (n, there) = g q (ground (arith, h, other)) in (n, if_false (p == q) _ _ other ∙ there)
]

add-IsRegistered :
    (e : LibEnv) (path : List ℕ) (l : InputLib)
    → IsRegistered l
    → IsRegistered (input_lib_add_device e path l).1
unfolding input_lib_add_device
add-IsRegistered e path l g =
    by_if (λ (r : ℤ × InputLib). IsRegistered r.1) (is_neg (e.open_path l.trace path)) _ _ (λ _. g)
      (λ _. add_opened-IsRegistered e path (e.open_path l.trace path) _ l g)

started-Same : (e : LibEnv) (l : InputLib) → Same l (input_lib_start_reading e l)
unfolding input_lib_start_reading
started-Same e l = record {
  nodes = refl;
  devices = refl;
  epoll_fd = refl;
  gained_same = λ r. ground arith;
  lost_same = λ r. ground arith;
  registered_same = λ p. refl;
}

-- A change of other fields.
field-Same :
    (l s : InputLib)
    → s.nodes ≡ l.nodes
    → s.devices ≡ l.devices
    → s.epoll_fd ≡ l.epoll_fd
    → s.trace ≡ l.trace
    → Same l s
field-Same l s n d f t = record {
  nodes = n;
  devices = d;
  epoll_fd = f;
  gained_same = λ r. ap (tally (gained r)) t;
  lost_same = λ r. ap (tally (lost r)) t;
  registered_same = λ p. ap (registered p) t;
}

-- Where epoll points there is a node, at every point of a session.
Session-IsRegistered : (e : LibEnv) (l : InputLib) → Session e l → IsRegistered l
unfolding input_lib_set_worker_callback input_lib_stop input_lib_poll_events some_of
Session-IsRegistered e _ (making t l b h) = made IsRegistered e t l making-IsRegistered h
Session-IsRegistered e _ (adding path l r) = add-IsRegistered e path l (Session-IsRegistered e l r)
Session-IsRegistered e _ (starting l r) =
    IsRegistered-Same l _ (started-Same e l) (Session-IsRegistered e l r)
Session-IsRegistered e _ (setting cb user l r) = Session-IsRegistered e l r
Session-IsRegistered e _ (stopping l r) = Session-IsRegistered e l r
Session-IsRegistered e _ (polling evts max l r) = Session-IsRegistered e l r
Session-IsRegistered e _ (reading of_fd devs l s known run r) =
    let g = Session-IsRegistered e l r in
    let (s', run', q) = reader_batch-reads e of_fd devs l g known in
    subst IsRegistered (ap (some_of s) (sym run' ∙ run)) (IsRegistered-Same l s' q g)

pub Session-IsOwned : (e : LibEnv) (l : InputLib) → IsAllocator e → Session e l → IsOwned l
unfolding input_lib_set_worker_callback input_lib_stop input_lib_poll_events some_of
Session-IsOwned e _ a (making t l b h) =
    owned (input_lib_create e t) l (input_lib_create-Made e t b) h
Session-IsOwned e _ a (adding path l r) =
    input_lib_add_device-IsOwned e path l a (Session-IsOwned e l a r)
Session-IsOwned e _ a (starting l r) = IsOwned-Same l _ (started-Same e l) (Session-IsOwned e l a r)
Session-IsOwned e _ a (setting cb user l r) =
    IsOwned-Same l _ (field-Same l _ refl refl refl refl) (Session-IsOwned e l a r)
Session-IsOwned e _ a (stopping l r) =
    IsOwned-Same l _ (field-Same l _ refl refl refl refl) (Session-IsOwned e l a r)
Session-IsOwned e _ a (polling evts max l r) =
    IsOwned-Same l _ (field-Same l _ refl refl refl refl) (Session-IsOwned e l a r)
Session-IsOwned e _ a (reading of_fd devs l s known run r) =
    let (s', run', q) = reader_batch-reads e of_fd devs l (Session-IsRegistered e l r) known in
    subst IsOwned (ap (some_of s) (sym run' ∙ run)) (IsOwned-Same l s' q (Session-IsOwned e l a r))

-- every pointer of every batch is registered
abbrev pub all_known : List Batch → LibTrace → Bool
all_known [] t = true
all_known (b ∷ bs) t = all_registered b.devs t && all_known bs t

all_known_same :
    (bs : List Batch) (t u : LibTrace)
    → ((p : ℕ) → registered p u ≡ registered p t)
    → all_known bs u ≡ all_known bs t
all_known_same [] t u h = refl
all_known_same (b ∷ bs) t u h =
    ap₂ ◌&&◌ (all_registered_same b.devs t u h) (all_known_same bs t u h)

-- From every point of a session, while epoll gives only pointers that were registered, the reader thread finds
-- a node behind each of them: its rounds come to their end, and the session goes on from there.
pub Session-reader_thread :
    (e : LibEnv) (bs : List Batch) (l : InputLib)
    → Session e l
    → all_known bs l.trace ≡ true
    → (s : InputLib) × (reader_thread e bs l ≡ some s) × Session e s
unfolding reader_thread Option.bind
Session-reader_thread e [] l r h = (l, refl, r)
Session-reader_thread e (b ∷ bs) l r h =
    by_if (λ (o : Option InputLib). (s : InputLib) × (o ≡ some s) × Session e s) l.stop_flag _ _
      (λ _. (l, refl, r))
      (λ _.
        let (here, later) = both (all_registered b.devs l.trace) (all_known bs l.trace) h in
        let (m, run, q) = reader_batch-reads e b.of_fd b.devs l (Session-IsRegistered e l r) here in
        let (s, run', r') =
          Session-reader_thread e bs m (reading b.of_fd b.devs l m here run r)
            (all_known_same bs l.trace m.trace q.registered_same ∙ later) in
        (s, ap (λ o. Option.bind o (reader_thread e bs)) run ∙ run', r'))

-- `input_lib_start_reading` is called only while the library holds no reader thread, and the threads of
-- before were joined.
abbrev pub StartsOnce : (e : LibEnv) (l : InputLib) → Session e l → Type 0
StartsOnce e l (making t _ b h) = IsJoined t
StartsOnce e _ (adding path l r) = StartsOnce e l r
StartsOnce e _ (starting l r) = (l.reader_thread ≡ none) × StartsOnce e l r
StartsOnce e _ (setting cb user l r) = StartsOnce e l r
StartsOnce e _ (stopping l r) = StartsOnce e l r
StartsOnce e _ (polling evts max l r) = StartsOnce e l r
StartsOnce e l (reading of_fd devs k _ known run r) = StartsOnce e k r

Session-IsManned : (e : LibEnv) (l : InputLib) (r : Session e l) → StartsOnce e l r → IsManned l
unfolding input_lib_set_worker_callback input_lib_stop input_lib_poll_events
Session-IsManned e _ (making t l b h) once = input_lib_create-IsManned e t l once h
Session-IsManned e _ (adding path l r) once =
    IsManned-Crew l _ (add_device-Crew e path l) (Session-IsManned e l r once)
Session-IsManned e _ (starting l r) (none_yet, once) =
    start-IsManned e l none_yet (Session-IsManned e l r once)
Session-IsManned e _ (setting cb user l r) once = Session-IsManned e l r once
Session-IsManned e _ (stopping l r) once = Session-IsManned e l r once
Session-IsManned e _ (polling evts max l r) once = Session-IsManned e l r once
Session-IsManned e _ (reading of_fd devs l s known run r) once =
    IsManned-Crew l s (left_here (Crew l) _ s (reader_batch-Crew e of_fd devs l) run)
      (Session-IsManned e l r once)

-- Let a session begin with all memory and descriptors given back and all threads joined, let reading be
-- started only while the library holds no reader thread, and let `calloc` return blocks that are not in use.
-- Then after the session `input_lib_destroy` ends: with enough rounds for its loop it gives a trace in which
-- the library, its ring, every node, every path and every descriptor that was acquired was given back exactly
-- once, and every thread that was started was joined.
pub Session-input_lib_destroy :
    (e : LibEnv) (l : InputLib) (r : Session e l)
    → IsAllocator e
    → StartsOnce e l r
    → (rounds : ℕ) × (t : LibTrace) × (input_lib_destroy rounds l ≡ some t)
      × IsBalanced t
      × IsJoined t
Session-input_lib_destroy e l r a once =
    let o = Session-IsOwned e l a r in
    let (t, run, b) = input_lib_destroy-IsBalanced l o (length o.cells) (omega arith) in
    let m = Session-IsManned e l r once in
    (length o.cells, t, run, b, input_lib_destroy-IsJoined l (length o.cells) t m run)
