-- ===== src/InputLib/Reading.antt =====
-- The reader thread of examples/input_lib.c: what it leaves alone, and what the application polls.
use mathlib.Core.Option
use asyncinput.Prelude.{
  ℕ, ◌≡◌, refl, sym, ap, ap₂, ◌∙◌, List, [], ◌∷◌, Option, none, some, arith, Bool, true, ◌&&◌,
}
use asyncinput.Prelude.Int.{ℤ}
use asyncinput.Prelude.Tally.{tally}
use asyncinput.Ring.{ring_push}
use asyncinput.Ring.Runs.{run}
use asyncinput.Posix.Worker.{InputEvent, ReadResult, event, error, short}
use asyncinput.InputLib.{
  LibTrace, LibEnv, InputLib, TimedEvent, blank_timed, buffer_size, log, clock_read, called,
}
use asyncinput.InputLib.Threads.{
  receive, receive_all, notify, get_time_ns, timed, reader_batch, read_node,
}
use asyncinput.InputLib.Owned.{Resource, gained, lost, base, registered, IsRegistered, IsOwned}

-- A change that touches neither the list nor what is owned.
pub record Same (l s : InputLib) : Type 0 where
  pub nodes : s.nodes ≡ l.nodes
  pub devices : s.devices ≡ l.devices
  pub epoll_fd : s.epoll_fd ≡ l.epoll_fd
  pub gained_same : (r : Resource) → tally (gained r) s.trace ≡ tally (gained r) l.trace
  pub lost_same : (r : Resource) → tally (lost r) s.trace ≡ tally (lost r) l.trace
  pub registered_same : (p : ℕ) → registered p s.trace ≡ registered p l.trace

Same-refl : (l : InputLib) → Same l l
Same-refl l = record {
  nodes = refl;
  devices = refl;
  epoll_fd = refl;
  gained_same = λ r. refl;
  lost_same = λ r. refl;
  registered_same = λ p. refl;
}

Same-trans : (l s t : InputLib) → Same l s → Same s t → Same l t
Same-trans l s t p q = record {
  nodes = q.nodes ∙ p.nodes;
  devices = q.devices ∙ p.devices;
  epoll_fd = q.epoll_fd ∙ p.epoll_fd;
  gained_same = λ r. q.gained_same r ∙ p.gained_same r;
  lost_same = λ r. q.lost_same r ∙ p.lost_same r;
  registered_same = λ a. q.registered_same a ∙ p.registered_same a;
}

pub IsOwned-Same : (l s : InputLib) → Same l s → IsOwned l → IsOwned s
IsOwned-Same l s q o = record {
  cells = o.cells;
  chain = rw (q.nodes, q.devices) o.chain;
  account = λ r. omega (arith, o.account r, q.gained_same r, q.lost_same r, ap (base r) q.epoll_fd);
}

pub IsRegistered-Same : (l s : InputLib) → Same l s → IsRegistered l → IsRegistered s
IsRegistered-Same l s q g p h =
    let (n, there) = g p (sym (q.registered_same p) ∙ h) in (n, ap (λ f. f p) q.nodes ∙ there)

clock-Same : (l : InputLib) → Same l (log clock_read l)
clock-Same l = record {
  nodes = refl;
  devices = refl;
  epoll_fd = refl;
  gained_same = λ r. ground arith;
  lost_same = λ r. ground arith;
  registered_same = λ p. refl;
}

called-Same :
    (f : ℕ) (evt : TimedEvent) (l : InputLib)
    → Same l (log (called f l.worker_userdata evt.event evt.timing) l)
called-Same f evt l = record {
  nodes = refl;
  devices = refl;
  epoll_fd = refl;
  gained_same = λ r. ground arith;
  lost_same = λ r. ground arith;
  registered_same = λ p. refl;
}

notify-Same :
    (e : LibEnv) (cb : Option ℕ) (evt : TimedEvent) (l : InputLib) → Same l (notify e cb evt l)
unfolding notify get_time_ns
notify-Same e none evt l = Same-refl l
notify-Same e (some f) evt l =
    let l1 = log clock_read l in
    let l2 = log (called f l1.worker_userdata evt.event evt.timing) l1 in
    Same-trans l l1 _ (clock-Same l) (Same-trans l1 l2 _ (called-Same f evt l1) (clock-Same l2))

receive-Same : (e : LibEnv) (raw : InputEvent) (l : InputLib) → Same l (receive e raw l)
unfolding receive get_time_ns
receive-Same e raw l =
    let t = (get_time_ns e l).0 in
    let l1 = log clock_read l in
    let l2 = record l1 { buffer = ring_push buffer_size blank_timed l1.buffer (timed raw t) } in
    let pushed : Same l1 l2 = record {
      nodes = refl;
      devices = refl;
      epoll_fd = refl;
      gained_same = λ r. refl;
      lost_same = λ r. refl;
      registered_same = λ p. refl;
    } in
    Same-trans l l1 _ (clock-Same l)
      (Same-trans l1 l2 _ pushed (notify-Same e l2.worker_callback (timed raw t) l2))

receive_all-Same : (e : LibEnv) (rs : List ReadResult) (l : InputLib) → Same l (receive_all e rs l)
unfolding receive_all
receive_all-Same e [] l = Same-refl l
receive_all-Same e (event raw ∷ rs) l =
    Same-trans l (receive e raw l) _ (receive-Same e raw l)
      (receive_all-Same e rs (receive e raw l))
receive_all-Same e (error ∷ rs) l = Same-refl l
receive_all-Same e (short ∷ rs) l = Same-refl l

unfoldable pub all_registered : List ℕ → LibTrace → Bool
all_registered [] t = true
all_registered (p ∷ ps) t = registered p t && all_registered ps t

pub both : (a b : Bool) → (a && b) ≡ true → (a ≡ true) × (b ≡ true)
both a b h = ground arith

pub all_registered_same :
    (ps : List ℕ) (t u : LibTrace)
    → ((p : ℕ) → registered p u ≡ registered p t)
    → all_registered ps u ≡ all_registered ps t
unfolding all_registered
all_registered_same [] t u h = refl
all_registered_same (p ∷ ps) t u h = ap₂ ◌&&◌ (h p) (all_registered_same ps t u h)

-- A batch of pointers that are registered is read without a dangling pointer.
pub reader_batch-reads :
    (e : LibEnv) (of_fd : ℤ → List ReadResult) (devs : List ℕ) (l : InputLib)
    → IsRegistered l
    → all_registered devs l.trace ≡ true
    → (s : InputLib) × (reader_batch e of_fd devs l ≡ some s) × Same l s
unfolding reader_batch all_registered Option.bind
reader_batch-reads e of_fd [] l g h = (l, refl, Same-refl l)
reader_batch-reads e of_fd (dev ∷ devs) l g h =
    let (here, rest) = both (registered dev l.trace) (all_registered devs l.trace) h in
    let (n, there) = g dev here in
    let l1 = receive_all e (of_fd n.fd) l in
    let q = receive_all-Same e (of_fd n.fd) l in
    let (s, run, q') =
      reader_batch-reads e of_fd devs l1 (IsRegistered-Same l l1 q g)
        (all_registered_same devs l.trace l1.trace q.registered_same ∙ rest) in
    (
      s,
      ap (λ o. Option.bind (read_node e of_fd o l) (reader_batch e of_fd devs)) there ∙ run,
      Same-trans l l1 s q q',
    )
