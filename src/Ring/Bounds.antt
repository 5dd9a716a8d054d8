-- ===== src/Ring/Bounds.antt =====
-- The representation invariant of the ring.
use asyncinput.Prelude.{
  ℕ, zero, suc, ◌+◌, ◌%◌, ◌<◌, ◌≡◌, List, arith, length, length-set, length-replicate, set, get_or,
}
use asyncinput.Ring.{RingBuf, ring_init, ring_push, pop_loop, ring_pop_many}

pub record IsValid {ℓ} {A : Type ℓ} (size : ℕ) (r : RingBuf A) : Type 0 where
  pub slots : length r.ev ≡ size
  pub two : 1 < size
  pub head_in : r.head < size
  pub tail_in : r.tail < size

module _ {ℓ} {A : Type ℓ} (size : ℕ) (blank : A) where
  pub ring_init-IsValid : 1 < size → IsValid size (ring_init size blank)
  unfolding ring_init
  ring_init-IsValid h = record {
    slots = length-replicate size blank;
    two = h;
    head_in = omega arith;
    tail_in = omega arith;
  }

  -- Every slot that the code reads or writes is inside the array.
  pub in_bounds : {r : RingBuf A} → IsValid size r → (r.head < length r.ev) × (r.tail < length r.ev)
  in_bounds v = omega arith

  pub ring_push-IsValid :
      (r : RingBuf A) (e : A) → IsValid size r → IsValid size (ring_push size blank r e)
  unfolding ring_push
  ring_push-IsValid r e v = ground (arith, length-set r.ev r.head e)

  pub pop_loop-IsValid :
      (k n : ℕ) (r : RingBuf A) (out : List A)
      → IsValid size r
      → IsValid size (pop_loop size blank k n r out).1
  unfolding pop_loop
  pop_loop-IsValid zero n r out v = v
  pop_loop-IsValid (suc k) n r out v = ground (
    arith,
    pop_loop-IsValid k (n + 1) (record r { tail = (r.tail + 1) % size })
        (set out n (get_or r.ev r.tail blank)),
  )

  pub ring_pop_many-IsValid :
      (r : RingBuf A) (out : List A) (max : ℕ)
      → IsValid size r
      → IsValid size (ring_pop_many size blank r out max).1
  unfolding ring_pop_many
  ring_pop_many-IsValid r out max v = pop_loop-IsValid max 0 r out v
