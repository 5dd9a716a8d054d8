-- ===== src/InputLib/Owned.antt =====
-- What examples/input_lib.c owns: memory and descriptors, each held by a field or by a node of the list.
use asyncinput.Prelude.{
  ℕ, suc, ◌+◌, ◌≡◌, ◌≢◌, List, [], ◌∷◌, Bool, true, false, ◌||◌, Option, none, some, arith, ◌==◌,
  if◌then◌else◌, by_if,
}
use asyncinput.Prelude.Int.{ℤ, is_neg}
use asyncinput.Prelude.Tally.{tally}
use asyncinput.Posix.Devices.Descriptors.{hits}
use asyncinput.InputLib.{
  Node, LibCall, LibTrace, LibEnv, InputLib, input_lib_create, with_lib, with_buffer, with_epoll,
  lib_made, lib_freed, buffer_made, buffer_freed, epoll_made, epoll_closed, opened, closed,
  node_made, node_freed, path_made, path_freed, epoll_added,
}

-- A node with its address.
abbrev pub Cell : Type 0
Cell = ℕ × Node

abbrev pub stands : ℕ → List Cell → Bool
stands p [] = false
stands p ((q, n) ∷ cs) = (p == q) || stands p cs

-- From `p` the `next` pointers lead through distinct nodes to NULL.
pub data Chain (h : ℕ → Option Node) : ℕ → List Cell → Type 0 where
  end : Chain h 0 []
  link_to :
      {p : ℕ} {n : Node} {cs : List Cell}
      → h (suc p) ≡ some n
      → stands (suc p) cs ≡ false
      → Chain h n.next cs
      → Chain h (suc p) ((suc p, n) ∷ cs)

-- Memory and descriptors, which are acquired and given back. Threads are counted in InputLib/Joined; the two
-- mutexes, which are made and destroyed with the library, are not counted.
pub data Resource : Type 0 where
  library : Resource
  ring : Resource
  epoll : ℤ → Resource
  descriptor : ℤ → Resource
  block : ℕ → Resource
  text : ℕ → Resource

-- 1 if the address is `p`
abbrev pub at : ℕ → Option ℕ → ℕ
at p none = 0
at p (some q) = if q == p then 1 else 0

abbrev pub acquired : ℤ → ℤ → ℕ
acquired x fd = if is_neg fd then 0 else hits x fd

abbrev pub one_if : Bool → ℕ
one_if b = if b then 1 else 0

-- how many of the resource a call brings
abbrev pub gained : Resource → LibCall → ℕ
gained library (lib_made ok) = one_if ok
gained ring (buffer_made ok) = one_if ok
gained (epoll x) (epoll_made fd) = acquired x fd
gained (descriptor x) (opened path fd) = acquired x fd
gained (block p) (node_made q) = at p q
gained (text p) (path_made q) = at p q
gained _ _ = 0

-- how many it gives back
abbrev pub lost : Resource → LibCall → ℕ
lost library lib_freed = 1
lost ring buffer_freed = 1
lost (epoll x) (epoll_closed fd) = hits x fd
lost (descriptor x) (closed fd) = hits x fd
lost (block p) (node_freed q) = at p (some q)
lost (text p) (path_freed q) = at p q
lost _ _ = 0

-- how many a node holds
abbrev pub held : Resource → Cell → ℕ
held (descriptor x) (p, n) = hits x n.fd
held (block q) (p, n) = at q (some p)
held (text q) (p, n) = at q n.path
held _ c = 0

-- how many the fields of the library hold
abbrev pub base : Resource → ℤ → ℕ
base library fd = 1
base ring fd = 1
base (epoll x) fd = hits x fd
base _ fd = 0

-- whether the address was registered with the epoll descriptor that was made last
abbrev pub registered : ℕ → LibTrace → Bool
registered p [] = false
registered p (epoll_added fd q ∷ t) = (q == p) || registered p t
registered p (epoll_made fd ∷ t) = false
registered p (_ ∷ t) = registered p t

-- Where epoll points there is a node.
abbrev pub IsRegistered : InputLib → Type 0
IsRegistered l = (p : ℕ) → registered p l.trace ≡ true → (n : Node) × (l.nodes p ≡ some n)

-- All memory and every descriptor that was acquired was given back.
abbrev pub IsBalanced : LibTrace → Type 0
IsBalanced t = (r : Resource) → tally (gained r) t ≡ tally (lost r) t

-- Of every resource as many are in use as the library and the nodes of its list hold.
pub record IsOwned (l : InputLib) : Type 0 where
  pub cells : List Cell
  pub chain : Chain l.nodes l.devices cells
  pub account :
      (r : Resource)
      → tally (gained r) l.trace ≡ tally (lost r) l.trace + base r l.epoll_fd + tally (held r) cells

-- What `calloc` promises of the block of a node: it is not NULL, and it is not in use.
pub record IsAllocator (e : LibEnv) : Type 0 where
  pub not_null : (t : LibTrace) (p : ℕ) → e.calloc_node t ≡ some p → p ≢ 0
  pub unused :
      (t : LibTrace) (p : ℕ)
      → e.calloc_node t ≡ some p
      → tally (gained (block p)) t ≡ tally (lost (block p)) t

-- What is created owns what it acquired; a creation that fails has given everything back.
abbrev pub Made : Option InputLib × LibTrace → Type 0
Made (none, t) = IsBalanced t
Made (some l, t) = IsOwned l

-- before the library has a descriptor
abbrev pub bare : Resource → ℕ
bare library = 1
bare ring = 1
bare _ = 0

Bare : LibTrace → Type 0
Bare t = (r : Resource) → tally (gained r) t ≡ tally (lost r) t + bare r

not_acquired : (x fd : ℤ) → is_neg fd ≡ true → acquired x fd ≡ 0
not_acquired x fd h = ground arith

was_acquired : (x fd : ℤ) → is_neg fd ≡ false → acquired x fd ≡ hits x fd
was_acquired x fd h = ground arith

failed-IsBalanced :
    (t : LibTrace) (fd : ℤ)
    → is_neg fd ≡ true
    → Bare t
    → IsBalanced (lib_freed ∷ buffer_freed ∷ epoll_made fd ∷ t)
unfolding Bare
failed-IsBalanced t fd neg h r = ground (arith, h r)

base_account :
    (t : LibTrace) (fd : ℤ) (r : Resource)
    → is_neg fd ≡ false
    → Bare t
    → tally (gained r) (epoll_made fd ∷ t) ≡ tally (lost r) (epoll_made fd ∷ t) + base r fd + 0
unfolding Bare
base_account t fd r fine h = ground (arith, h r)

with_epoll-Made : (t : LibTrace) (fd : ℤ) → Bare t → Made (with_epoll t fd)
unfolding with_epoll
with_epoll-Made t fd h =
    by_if Made (is_neg fd) _ _ (λ neg. failed-IsBalanced t fd neg h)
      (λ fine. record { cells = []; chain = end; account = λ r. base_account t fd r fine h })

no_library-IsBalanced : (t : LibTrace) → IsBalanced t → IsBalanced (lib_made false ∷ t)
no_library-IsBalanced t h r = ground (arith, h r)

no_buffer-IsBalanced :
    (t : LibTrace) → IsBalanced t → IsBalanced (lib_freed ∷ buffer_made false ∷ lib_made true ∷ t)
no_buffer-IsBalanced t h r = ground (arith, h r)

both-Bare : (t : LibTrace) → IsBalanced t → Bare (buffer_made true ∷ lib_made true ∷ t)
unfolding Bare
both-Bare t h r = ground (arith, h r)

with_buffer-Made :
    (e : LibEnv) (t : LibTrace) (ok : Bool)
    → IsBalanced t
    → Made (with_buffer e (lib_made true ∷ t) ok)
unfolding with_buffer
with_buffer-Made e t false h = no_buffer-IsBalanced t h
with_buffer-Made e t true h = with_epoll-Made _ _ (both-Bare t h)

with_lib-Made : (e : LibEnv) (t : LibTrace) (ok : Bool) → IsBalanced t → Made (with_lib e t ok)
unfolding with_lib
with_lib-Made e t false h = no_library-IsBalanced t h
with_lib-Made e t true h = with_buffer-Made e t (e.calloc_buffer (lib_made true ∷ t)) h

-- From a balanced trace `input_lib_create` makes a library with an empty list, whose resources are the
-- ones in use, or fails and has given back all that it acquired.
pub input_lib_create-Made : (e : LibEnv) (t : LibTrace) → IsBalanced t → Made (input_lib_create e t)
unfolding input_lib_create
input_lib_create-Made e t h = with_lib-Made e t (e.calloc_lib t) h
