-- ===== src/InputLib/Joined.antt =====
-- The threads of examples/input_lib.c: those that `input_lib_start_reading` starts and those that
-- `input_lib_destroy` joins.
use mathlib.Core.Option
use asyncinput.Prelude.{
  ℕ, zero, suc, ◌+◌, ◌≡◌, refl, ap, subst, ◌∙◌, List, [], ◌∷◌, Bool, true, false, Option, none,
  some, arith, by_if,
}
use asyncinput.Prelude.Int.{ℤ, is_neg}
use asyncinput.Prelude.Tally.{tally}
use asyncinput.Ring.{ring_push}
use asyncinput.Posix.Worker.{InputEvent, ReadResult, event, error, short}
use asyncinput.InputLib.{
  Node, LibCall, LibTrace, LibEnv, InputLib, TimedEvent, blank_timed, buffer_size, log, thread_made,
  joined, clock_read, input_lib_create, with_lib, with_buffer, with_epoll, input_lib_add_device,
  add_opened, link, input_lib_start_reading, opened,
}
use asyncinput.InputLib.Threads.{
  receive, receive_all, notify, get_time_ns, timed, reader_batch, read_node, join, free_node,
  free_next, free_nodes, finish, input_lib_destroy,
}
use asyncinput.InputLib.Owned.{at}

-- how many threads with the handle `h` a call starts, and how many it joins
abbrev pub begun : ℕ → LibCall → ℕ
begun h (thread_made t) = at h t
begun h _ = 0

abbrev pub ended : ℕ → LibCall → ℕ
ended h (joined k) = at h (some k)
ended h _ = 0

-- Every thread that was started was joined.
abbrev pub IsJoined : LibTrace → Type 0
IsJoined t = (h : ℕ) → tally (begun h) t ≡ tally (ended h) t

-- The threads that run are those whose handles the library holds.
abbrev pub IsManned : InputLib → Type 0
IsManned l =
    (h : ℕ)
    → tally (begun h) l.trace
      ≡ tally (ended h) l.trace + at h l.reader_thread + at h l.worker_thread

-- A change that neither starts nor joins a thread.
pub record Crew (l s : InputLib) : Type 0 where
  pub reader : s.reader_thread ≡ l.reader_thread
  pub worker : s.worker_thread ≡ l.worker_thread
  pub begun_same : (h : ℕ) → tally (begun h) s.trace ≡ tally (begun h) l.trace
  pub ended_same : (h : ℕ) → tally (ended h) s.trace ≡ tally (ended h) l.trace

-- A change of other fields.
pub Crew-same :
    (l s : InputLib)
    → s.reader_thread ≡ l.reader_thread
    → s.worker_thread ≡ l.worker_thread
    → s.trace ≡ l.trace
    → Crew l s
Crew-same l s r w t = record {
  reader = r;
  worker = w;
  begun_same = λ h. ap (tally (begun h)) t;
  ended_same = λ h. ap (tally (ended h)) t;
}

Crew-refl : (l : InputLib) → Crew l l
Crew-refl l = Crew-same l l refl refl refl

Crew-trans : (l s t : InputLib) → Crew l s → Crew s t → Crew l t
Crew-trans l s t p q = record {
  reader = q.reader ∙ p.reader;
  worker = q.worker ∙ p.worker;
  begun_same = λ h. q.begun_same h ∙ p.begun_same h;
  ended_same = λ h. q.ended_same h ∙ p.ended_same h;
}

pub IsManned-Crew : (l s : InputLib) → Crew l s → IsManned l → IsManned s
IsManned-Crew l s c m h =
    omega (arith, m h, c.begun_same h, c.ended_same h, ap (at h) c.reader, ap (at h) c.worker)

-- the state that is left, where there is one
abbrev pub Left : (InputLib → Type 0) → Option InputLib → Type 0
Left P none = Unit
Left P (some s) = P s

pub left_here :
    (P : InputLib → Type 0) (o : Option InputLib) (s : InputLib) → Left P o → o ≡ some s → P s
left_here P o s p h = subst (Left P) h p

-- The reader thread.
notify-Crew :
    (e : LibEnv) (cb : Option ℕ) (evt : TimedEvent) (l : InputLib) → Crew l (notify e cb evt l)
unfolding notify get_time_ns
notify-Crew e none evt l = Crew-refl l
notify-Crew e (some f) evt l = record {
  reader = refl;
  worker = refl;
  begun_same = λ h. ground arith;
  ended_same = λ h. ground arith;
}

receive-Crew : (e : LibEnv) (raw : InputEvent) (l : InputLib) → Crew l (receive e raw l)
unfolding receive get_time_ns
receive-Crew e raw l =
    let t = (get_time_ns e l).0 in
    let l1 = log clock_read l in
    let l2 = record l1 { buffer = ring_push buffer_size blank_timed l1.buffer (timed raw t) } in
    let read : Crew l l2 = record {
      reader = refl;
      worker = refl;
      begun_same = λ h. ground arith;
      ended_same = λ h. ground arith;
    } in
    Crew-trans l l2 _ read (notify-Crew e l2.worker_callback (timed raw t) l2)

receive_all-Crew : (e : LibEnv) (rs : List ReadResult) (l : InputLib) → Crew l (receive_all e rs l)
unfolding receive_all
receive_all-Crew e [] l = Crew-refl l
receive_all-Crew e (event raw ∷ rs) l =
    Crew-trans l (receive e raw l) _ (receive-Crew e raw l)
      (receive_all-Crew e rs (receive e raw l))
receive_all-Crew e (error ∷ rs) l = Crew-refl l
receive_all-Crew e (short ∷ rs) l = Crew-refl l

Left-Crew : (l s : InputLib) (o : Option InputLib) → Crew l s → Left (Crew s) o → Left (Crew l) o
Left-Crew l s none c p = tt
Left-Crew l s (some t) c p = Crew-trans l s t c p

pub reader_batch-Crew :
    (e : LibEnv) (of_fd : ℤ → List ReadResult) (devs : List ℕ) (l : InputLib)
    → Left (Crew l) (reader_batch e of_fd devs l)
unfolding reader_batch Option.bind
reader_batch-Crew e of_fd [] l = Crew-refl l
reader_batch-Crew e of_fd (dev ∷ devs) l = after (reader_batch-Crew e of_fd devs) (l.nodes dev)
  where
    after :
        ((s : InputLib) → Left (Crew s) (reader_batch e of_fd devs s))
        → (o : Option Node)
        → Left (Crew l) (Option.bind (read_node e of_fd o l) (reader_batch e of_fd devs))
    after rest none = tt
    after rest (some n) =
        let s = receive_all e (of_fd n.fd) l in
        Left-Crew l s _ (receive_all-Crew e (of_fd n.fd) l) (rest s)

-- A new library has no thread.
abbrev Manned : Option InputLib × LibTrace → Type 0
Manned (o, t) = Left IsManned o

with_epoll-IsManned : (t : LibTrace) (fd : ℤ) → IsJoined t → Manned (with_epoll t fd)
unfolding with_epoll
with_epoll-IsManned t fd b = by_if Manned (is_neg fd) _ _ (λ _. tt) (λ _. λ h. ground (arith, b h))

with_buffer-IsManned :
    (e : LibEnv) (t : LibTrace) (ok : Bool) → IsJoined t → Manned (with_buffer e t ok)
unfolding with_buffer
with_buffer-IsManned e t false b = tt
with_buffer-IsManned e t true b = with_epoll-IsManned _ _ (λ h. ground (arith, b h))

with_lib-IsManned : (e : LibEnv) (t : LibTrace) (ok : Bool) → IsJoined t → Manned (with_lib e t ok)
unfolding with_lib
with_lib-IsManned e t false b = tt
with_lib-IsManned e t true b = with_buffer-IsManned e _ _ (λ h. ground (arith, b h))

pub input_lib_create-IsManned :
    (e : LibEnv) (t : LibTrace) (l : InputLib)
    → IsJoined t
    → (input_lib_create e t).0 ≡ some l
    → IsManned l
unfolding input_lib_create
input_lib_create-IsManned e t l b made =
    left_here IsManned _ l (with_lib-IsManned e t (e.calloc_lib t) b) made

add_opened-Crew :
    (e : LibEnv) (path : List ℕ) (fd : ℤ) (o : Option ℕ) (l : InputLib)
    → Crew l (add_opened e path fd o l).1
unfolding add_opened link
add_opened-Crew e path fd none l = record {
  reader = refl;
  worker = refl;
  begun_same = λ h. ground arith;
  ended_same = λ h. ground arith;
}
add_opened-Crew e path fd (some p) l = record {
  reader = refl;
  worker = refl;
  begun_same = λ h. ground arith;
  ended_same = λ h. ground arith;
}

pub add_device-Crew :
    (e : LibEnv) (path : List ℕ) (l : InputLib) → Crew l (input_lib_add_device e path l).1
unfolding input_lib_add_device
add_device-Crew e path l =
    let fd = e.open_path l.trace path in
    let l' = log (opened path fd) l in
    let asked : Crew l l' = record {
      reader = refl;
      worker = refl;
      begun_same = λ h. ground arith;
      ended_same = λ h. ground arith;
    } in
    by_if (λ (r : ℤ × InputLib). Crew l r.1) (is_neg fd) _ _ (λ _. asked)
      (λ _. Crew-trans l l' _ asked (add_opened-Crew e path fd (e.calloc_node l'.trace) l'))

-- A start is accounted for when no handle is overwritten.
pub start-IsManned :
    (e : LibEnv) (l : InputLib)
    → l.reader_thread ≡ none
    → IsManned l
    → IsManned (input_lib_start_reading e l)
unfolding input_lib_start_reading
start-IsManned e l none_yet m h = let before = ap (at h) none_yet in ground (arith, m h, before)

-- The teardown.
free_nodes-Crew : (fuel p : ℕ) (l : InputLib) → Left (Crew l) (free_nodes fuel p l)
unfolding free_nodes
free_nodes-Crew fuel zero l = Crew-refl l
free_nodes-Crew zero (suc p) l = tt
free_nodes-Crew (suc fuel) (suc p) l = after (free_nodes-Crew fuel) (l.nodes (suc p))
  where
    after :
        ((q : ℕ) (s : InputLib) → Left (Crew s) (free_nodes fuel q s))
        → (o : Option Node) → Left (Crew l) (free_next (free_nodes fuel) (suc p) o l)
    after rest none = tt
    after rest (some n) =
        let s = free_node (suc p) n l in
        let one : Crew l s = record {
          reader = refl;
          worker = refl;
          begun_same = λ h. ground arith;
          ended_same = λ h. ground arith;
        } in
        Left-Crew l s _ one (rest n.next s)

join-account :
    (t : Option ℕ) (l : InputLib) (h : ℕ)
    → (tally (begun h) (join t l).trace ≡ tally (begun h) l.trace)
      × (tally (ended h) (join t l).trace ≡ tally (ended h) l.trace + at h t)
      × ((join t l).worker_thread ≡ l.worker_thread)
join-account none l h = (refl, omega arith, refl)
join-account (some t) l h = (omega arith, omega arith, refl)

abbrev IsJoinedLeft : Option LibTrace → Type 0
IsJoinedLeft none = Unit
IsJoinedLeft (some t) = IsJoined t

ended-IsJoined :
    (l : InputLib) (o : Option InputLib) (t : LibTrace)
    → IsJoined l.trace
    → Left (Crew l) o
    → Option.map finish o ≡ some t
    → IsJoined t
unfolding Option.map
ended-IsJoined l none t b c run = absurd (cc run)
ended-IsJoined l (some m) t b c run = subst IsJoinedLeft run all_joined
  where
    all_joined : IsJoined (finish m)
    all_joined h = ground (arith, b h, c.begun_same h, c.ended_same h)

-- The teardown joins the threads whose handles the library holds.
pub input_lib_destroy-IsJoined :
    (l : InputLib) (fuel : ℕ) (t : LibTrace)
    → IsManned l
    → input_lib_destroy fuel l ≡ some t
    → IsJoined t
unfolding input_lib_destroy
input_lib_destroy-IsJoined l fuel t m run =
    let l0 : InputLib = record l { stop_flag = true } in
    let l1 = join l.reader_thread l0 in
    let l2 = join l1.worker_thread l1 in
    let gone : IsJoined l2.trace = λ h.
      let (b1, e1, w1) = join-account l.reader_thread l0 h in
      let (b2, e2, w2) = join-account l1.worker_thread l1 h in
      omega (arith, m h, b1, e1, b2, e2, ap (at h) w1) in
    ended-IsJoined l2 (free_nodes fuel l2.devices l2) t gone (free_nodes-Crew fuel l2.devices l2)
      run
