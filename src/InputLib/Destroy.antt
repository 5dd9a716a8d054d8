-- ===== src/InputLib/Destroy.antt =====
-- The teardown of examples/input_lib.c: its loop ends, and everything is given back once.
use mathlib.Core.Option
use asyncinput.Prelude.{
  ℕ, zero, suc, ◌+◌, ◌≤◌, ◌≡◌, refl, sym, ap, subst₂, ◌∙◌, List, Option, none, some, arith, length,
  true,
}
use asyncinput.Prelude.Tally.{tally}
use asyncinput.InputLib.{Node, LibTrace, InputLib}
use asyncinput.InputLib.Threads.{join, free_node, free_next, free_nodes, finish, input_lib_destroy}
use asyncinput.InputLib.Owned.{
  Cell, Chain, end, link_to, Resource, gained, lost, held, base, IsBalanced, IsOwned,
}
use asyncinput.InputLib.Adding.{Chain-write}

-- what the loop does to the account, for the nodes `cs`
pub record Freed (cs : List Cell) (l m : InputLib) : Type 0 where
  pub epoll_same : m.epoll_fd ≡ l.epoll_fd
  pub gained_same : (r : Resource) → tally (gained r) m.trace ≡ tally (gained r) l.trace
  pub lost_more :
      (r : Resource) → tally (lost r) m.trace ≡ tally (lost r) l.trace + tally (held r) cs

gained-free_node :
    (p : ℕ) (n : Node) (l : InputLib) (r : Resource)
    → tally (gained r) (free_node p n l).trace ≡ tally (gained r) l.trace
gained-free_node p n l r = ground arith

lost-free_node :
    (p : ℕ) (n : Node) (l : InputLib) (r : Resource)
    → tally (lost r) (free_node p n l).trace ≡ tally (lost r) l.trace + held r (p, n)
lost-free_node p n l r = ground arith

-- Along a chain the loop frees every node, and its number of rounds is that of the nodes.
free_nodes-Freed :
    (fuel : ℕ) {p : ℕ} {cs : List Cell} (l : InputLib)
    → Chain l.nodes p cs
    → length cs ≤ fuel
    → (m : InputLib) × (free_nodes fuel p l ≡ some m) × Freed cs l m
unfolding free_nodes
free_nodes-Freed fuel l end h =
    (l, refl, record { epoll_same = refl; gained_same = λ r. refl; lost_more = λ r. omega arith })
free_nodes-Freed zero l (link_to here out rest) h = absurd (omega arith)
free_nodes-Freed (suc fuel) l (link_to {p} {n} {cs} here out rest) h =
    let l' = free_node (suc p) n l in
    let (m, run, f) = free_nodes-Freed fuel l' (Chain-write (suc p) none rest out) (omega arith) in
    (
      m,
      ap (λ o. free_next (free_nodes fuel) (suc p) o l) here ∙ run,
      record {
        epoll_same = f.epoll_same;
        gained_same = λ r. f.gained_same r ∙ gained-free_node (suc p) n l r;
        lost_more = λ r. omega (arith, f.lost_more r, lost-free_node (suc p) n l r);
      },
    )

join-account :
    (t : Option ℕ) (l : InputLib) (r : Resource)
    → (tally (gained r) (join t l).trace ≡ tally (gained r) l.trace)
      × (tally (lost r) (join t l).trace ≡ tally (lost r) l.trace)
join-account t l r = ground arith

finish-IsBalanced :
    (m : InputLib) (r : Resource)
    → tally (gained r) m.trace ≡ tally (lost r) m.trace + base r m.epoll_fd
    → tally (gained r) (finish m) ≡ tally (lost r) (finish m)
finish-IsBalanced m r h = ground (arith, h)

join-list :
    (t : Option ℕ) (l : InputLib)
    → ((join t l).nodes ≡ l.nodes)
      × ((join t l).devices ≡ l.devices)
      × ((join t l).epoll_fd ≡ l.epoll_fd)
join-list none l = (refl, refl, refl)
join-list (some t) l = (refl, refl, refl)

-- If the resources in use are those of the library and of the nodes of its list, which is a chain of
-- distinct nodes, then `input_lib_destroy` ends, after as many rounds of its loop as there are nodes,
-- and everything that was acquired has been given back exactly once: the descriptors, the nodes, their
-- paths, the ring, the epoll descriptor and the library.
pub input_lib_destroy-IsBalanced :
    (l : InputLib) (o : IsOwned l) (fuel : ℕ)
    → length o.cells ≤ fuel
    → (t : LibTrace) × (input_lib_destroy fuel l ≡ some t) × IsBalanced t
unfolding input_lib_destroy
input_lib_destroy-IsBalanced l o fuel enough =
    let l1 = join l.reader_thread (record l { stop_flag = true }) in
    let l2 = join l1.worker_thread l1 in
    let (nodes1, list1, epoll1) = join-list l.reader_thread (record l { stop_flag = true }) in
    let (nodes2, list2, epoll2) = join-list l1.worker_thread l1 in
    let chain =
      subst₂ (λ h p. Chain h p o.cells) (sym (nodes2 ∙ nodes1)) (sym (list2 ∙ list1)) o.chain in
    let (m, run, f) = free_nodes-Freed fuel l2 chain enough in
    (
      finish m,
      ap (Option.map finish) run,
      λ r. finish-IsBalanced m r (
          omega (
            arith,
            o.account r,
            f.gained_same r,
            f.lost_more r,
            ap (base r) (f.epoll_same ∙ epoll2 ∙ epoll1),
            join-account l.reader_thread (record l { stop_flag = true }) r,
            join-account l1.worker_thread l1 r,
          )),
    )
