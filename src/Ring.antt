-- ===== src/Ring.antt =====
-- The bounded event ring that every backend keeps: `struct ringbuf` and `struct keyringbuf` of
-- src/libasyncinput_posix.c and src/libasyncinput_win.c, the fields `q`, `head`, `tail` of
-- src/libasyncinput_stub.c. The copies differ in the type of the events only, so the ring is generic
-- in it, and in the number of slots (RING_SIZE). Each operation runs whole under the ring's lock, so
-- it is one step here; the lock itself has no field.
pub mod Fifo
pub mod Bounds
pub mod Refine
pub mod Drain
pub mod Runs
pub mod Copies
mod Tests
use asyncinput.Prelude.{
  ℕ, zero, suc, ◌+◌, ◌%◌, true, false, List, ◌==◌, if◌then◌else◌, get_or, set, replicate,
}

pub record RingBuf {ℓ} (A : Type ℓ) : Type ℓ where
  pub ev : List A
  pub head : ℕ
  pub tail : ℕ

-- RING_SIZE
abbrev pub ring_size : ℕ
ring_size = 1024

-- `blank` is the event of zero bytes that `memset` leaves in every slot. A read outside the array
-- would give it too; `Bounds.in_bounds` rules that read out.
module _ {ℓ} {A : Type ℓ} (size : ℕ) (blank : A) where
  unfoldable pub ring_init : RingBuf A
  ring_init = record { ev = replicate size blank; head = 0; tail = 0 }

  -- A full ring drops the new event.
  unfoldable pub ring_push : RingBuf A → A → RingBuf A
  ring_push r e =
      let next = (r.head + 1) % size in
      if next == r.tail then r else record r { ev = set r.ev r.head e; head = next }

  -- `while (n < max && r->tail != r->head)`: the first argument is max - n, the rounds that the bound
  -- still allows. `out` is the caller's array.
  unfoldable pub pop_loop : ℕ → ℕ → RingBuf A → List A → ℕ × RingBuf A × List A
  pop_loop zero n r out = (n, r, out)
  pop_loop (suc k) n r out = elim (r.tail == r.head) [
    | true ↦ (n, r, out)
    | false ↦
        pop_loop k (n + 1) (record r { tail = (r.tail + 1) % size })
          (set out n (get_or r.ev r.tail blank))
  ]

  unfoldable pub ring_pop_many : RingBuf A → List A → ℕ → ℕ × RingBuf A × List A
  unfolding pop_loop
  ring_pop_many r out max = pop_loop max 0 r out
