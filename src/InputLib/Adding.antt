-- ===== src/InputLib/Adding.antt =====
-- Adding a device to the list of examples/input_lib.c.
use asyncinput.Prelude.{
  ℕ, zero, suc, ◌+◌, ◌≡◌, ◌≢◌, refl, List, [], ◌∷◌, true, false, Option, none, some, arith, by_if,
}
use asyncinput.Prelude.Int.{ℤ, is_neg}
use asyncinput.Prelude.Tally.{tally}
use asyncinput.InputLib.{
  Node, LibTrace, LibEnv, InputLib, log, write, input_lib_add_device, add_opened, link, opened,
  closed, node_made, path_made, epoll_added,
}
use asyncinput.InputLib.Owned.{
  Cell, stands, Chain, end, link_to, Resource, block, gained, lost, held, base, IsOwned,
  IsAllocator,
}

-- A chain survives a write to an address that is not one of its own.
pub Chain-write :
    {h : ℕ → Option Node} {p : ℕ} {cs : List Cell} (q : ℕ) (v : Option Node)
    → Chain h p cs
    → stands q cs ≡ false
    → Chain (write h q v) p cs
Chain-write q v end out = end
Chain-write q v (link_to {p} here apart rest) out =
    link_to (ground (arith, here)) apart (Chain-write q v rest (ground arith))

-- An address that no node is counted at is not in the list.
not_counted : (p : ℕ) (cs : List Cell) → tally (held (block p)) cs ≡ 0 → stands p cs ≡ false
not_counted p [] h = refl
not_counted p ((q, n) ∷ cs) h = ground (arith, not_counted p cs)

-- An open that fails, and one whose node cannot be had.
not_opened-account :
    (t : LibTrace) (path : List ℕ) (fd : ℤ) (r : Resource)
    → is_neg fd ≡ true
    → tally (gained r) (opened path fd ∷ t) ≡ tally (gained r) t
not_opened-account t path fd r neg = ground arith

lost_opened :
    (t : LibTrace) (path : List ℕ) (fd : ℤ) (r : Resource)
    → tally (lost r) (opened path fd ∷ t) ≡ tally (lost r) t
lost_opened t path fd r = ground arith

refused_owner :
    (t : LibTrace) (path : List ℕ) (fd : ℤ) (r : Resource) (k m : ℕ)
    → is_neg fd ≡ false
    → tally (gained r) t ≡ tally (lost r) t + k + m
    → tally (gained r) (closed fd ∷ node_made none ∷ opened path fd ∷ t)
      ≡ tally (lost r) (closed fd ∷ node_made none ∷ opened path fd ∷ t) + k + m
refused_owner t path fd r k m fine h = ground (arith, h)

linked-account :
    (t : LibTrace) (path : List ℕ) (fd : ℤ) (n : Node) (p k : ℕ) (cs : List Cell) (r : Resource)
    → is_neg fd ≡ false
    → n.fd ≡ fd
    → tally (gained r) t ≡ tally (lost r) t + k + tally (held r) cs
    → let made = epoll_added fd p ∷ path_made n.path ∷ node_made (some p) ∷ opened path fd ∷ t in
      tally (gained r) made ≡ tally (lost r) made + k + tally (held r) ((p, n) ∷ cs)
linked-account t path fd n p k cs r fine same h = ground (arith, h)

-- The address is new to the list, since no block is in use there.
fresh_block :
    (l : InputLib) (p : ℕ) (o : IsOwned l)
    → tally (gained (block p)) l.trace ≡ tally (lost (block p)) l.trace
    → stands p o.cells ≡ false
fresh_block l p o idle = not_counted p o.cells (omega (arith, o.account (block p), idle))

link-IsOwned :
    (e : LibEnv) (path : List ℕ) (fd : ℤ) (p : ℕ) (l : InputLib)
    → is_neg fd ≡ false
    → p ≢ 0
    → tally (gained (block p)) l.trace ≡ tally (lost (block p)) l.trace
    → IsOwned l
    → IsOwned (link e path fd p (log (node_made (some p)) (log (opened path fd) l))).1
unfolding link
link-IsOwned e path fd zero l fine real idle o = absurd (real refl)
link-IsOwned e path fd (suc p) l fine real idle o =
    let copy = e.strdup (node_made (some (suc p)) ∷ opened path fd ∷ l.trace) path in
    let n : Node = record { fd = fd; path = copy; next = l.devices } in
    let out = fresh_block l (suc p) o idle in
    record {
      cells = (suc p, n) ∷ o.cells;
      chain = link_to (ground arith) out (Chain-write (suc p) (some n) o.chain out);
      account = λ r.
          linked-account l.trace path fd n (suc p) (base r l.epoll_fd) o.cells r fine refl
            (o.account r);
    }

add_opened-IsOwned :
    (e : LibEnv) (path : List ℕ) (fd : ℤ) (o : Option ℕ) (l : InputLib)
    → is_neg fd ≡ false
    → ((p : ℕ) → o ≡ some p → p ≢ 0)
    → ((p : ℕ) → o ≡ some p → tally (gained (block p)) l.trace ≡ tally (lost (block p)) l.trace)
    → IsOwned l
    → IsOwned (add_opened e path fd o (log (opened path fd) l)).1
unfolding add_opened
add_opened-IsOwned e path fd none l fine real idle o = record {
  cells = o.cells;
  chain = o.chain;
  account = λ r.
      refused_owner l.trace path fd r (base r l.epoll_fd) (tally (held r) o.cells) fine
        (o.account r);
}
add_opened-IsOwned e path fd (some p) l fine real idle o =
    link-IsOwned e path fd p l fine (real p refl) (idle p refl) o

-- If the resources in use are those of the library and of the nodes of its list, which is a chain of
-- distinct nodes, and `calloc` returns blocks that are not in use, then `input_lib_add_device` keeps
-- this, whether it adds a device or fails.
pub input_lib_add_device-IsOwned :
    (e : LibEnv) (path : List ℕ) (l : InputLib)
    → IsAllocator e
    → IsOwned l
    → IsOwned (input_lib_add_device e path l).1
unfolding input_lib_add_device
input_lib_add_device-IsOwned e path l a o =
    let fd = e.open_path l.trace path in
    by_if (λ (r : ℤ × InputLib). IsOwned r.1) (is_neg fd) _ _
      (λ neg. record {
        cells = o.cells;
        chain = o.chain;
        account = λ r. omega (
          arith,
          not_opened-account l.trace path fd r neg,
          lost_opened l.trace path fd r,
          o.account r,
        );
      })
      (λ fine.
        add_opened-IsOwned e path fd (e.calloc_node (opened path fd ∷ l.trace)) l fine
          (λ p made. a.not_null (opened path fd ∷ l.trace) p made)
          (λ p made. omega (arith, a.unused (opened path fd ∷ l.trace) p made)) o)
