-- ===== src/Ring/Refine.antt =====
-- A valid ring of `size` slots is the first-in first-out queue of capacity `size - 1`.
use native.Mathlib.Nat.{mod-eq_of_lt, mod-eq-sub-mod, mod-add-mod}
use asyncinput.Prelude.{
  ℕ, zero, suc, ◌+◌, ◌-◌, ◌%◌, ◌≤◌, ◌<◌, ◌≡◌, refl, sym, ap, ap₂, ◌∙◌, ◌≢◌, ◌⊎◌, inl, inr, List, [],
  ◌∷◌, ◌++◌, arith, dec_lt, ℕ_discrete, length, get_or, set, get_or-set_self, get_or-set_ne, eq→==,
  ne→==, lt→ltb, not_lt→ltb,
}
use asyncinput.Ring.{RingBuf, ring_push}
use asyncinput.Ring.Fifo.{offer}
use asyncinput.Ring.Bounds.{IsValid}

-- one turn past the end of the array
mod_turn : (size x : ℕ) → size ≤ x → x < size + size → x % size ≡ x - size
mod_turn size x h k = mod-eq-sub-mod h ∙ mod-eq_of_lt (omega arith)

-- the slot after `x`
pub next_cases :
    (size x : ℕ)
    → x < size
    → ((x + 1 ≡ size) × ((x + 1) % size ≡ 0)) ⊎ ((x + 1 < size) × ((x + 1) % size ≡ x + 1))
next_cases size x h = elim (dec_lt (x + 1) size) [
  | yes p ↦ inr (p, mod-eq_of_lt p)
  | no p ↦ inl (omega arith, omega (arith, mod_turn size (x + 1) (omega arith) (omega arith)))
]

module _ {ℓ} {A : Type ℓ} (size : ℕ) (blank : A) where
  -- the number of queued events
  abbrev pub count : RingBuf A → ℕ
  count r = (r.head + size - r.tail) % size

  -- the events in `n` slots from slot `t` on, wrapping at the end of the array
  abbrev pub span : List A → ℕ → ℕ → List A
  span buf t zero = []
  span buf t (suc n) = get_or buf t blank ∷ span buf ((t + 1) % size) n

  -- the queue that the ring stands for, oldest first
  abbrev pub contents : RingBuf A → List A
  contents r = span r.ev r.tail (count r)

  pub length-span : (buf : List A) (t n : ℕ) → length (span buf t n) ≡ n
  length-span buf t zero = refl
  length-span buf t (suc n) = ap suc (length-span buf ((t + 1) % size) n)

  pub count_cases :
      (r : RingBuf A)
      → IsValid size r
      → ((r.tail ≤ r.head) × (count r ≡ r.head - r.tail))
        ⊎ ((r.head < r.tail) × (count r ≡ r.head + size - r.tail))
  count_cases r v = elim (dec_lt r.head r.tail) [
    | yes p ↦ inr (p, mod-eq_of_lt (omega arith))
    | no p ↦ inl (
      omega arith,
      omega (arith, mod_turn size (r.head + size - r.tail) (omega arith) (omega arith)),
    )
  ]

  -- Fewer than `size` steps round the array do not come back to the start.
  walk-ne : (t k : ℕ) → t < size → suc k < size → (t + suc k) % size ≢ t
  walk-ne t k ht hk = elim (dec_lt (t + suc k) size) [
    | yes p ↦ omega (arith, mod-eq_of_lt p)
    | no p ↦ omega (arith, mod_turn size (t + suc k) (omega arith) (omega arith))
  ]

  -- Writing the slot just behind a span appends the event to it.
  span-set :
      (buf : List A) (e : A) (n t i : ℕ)
      → length buf ≡ size
      → t < size
      → n < size
      → i ≡ (t + n) % size
      → span (set buf i e) t (suc n) ≡ span buf t n ++ (e ∷ [])
  span-set buf e zero t i hl ht hn hi =
      let here : i ≡ t = hi ∙ ap (λ k. k % size) (omega arith) ∙ mod-eq_of_lt ht in
      rw here (rw (get_or-set_self buf t e blank (omega arith)))
  span-set buf e (suc n) t i hl ht hn hi =
      ap₂ ◌∷◌ (get_or-set_ne buf i t e blank (rw hi (walk-ne t n ht hn)))
        (span-set buf e n ((t + 1) % size) i hl (omega arith) (omega arith) (hi ∙ shift))
    where
      shift : (t + suc n) % size ≡ ((t + 1) % size + n) % size
      shift = rw mod-add-mod (ap (λ k. k % size) (omega arith))

  head_of_count : (r : RingBuf A) → IsValid size r → r.head ≡ (r.tail + count r) % size
  head_of_count r v = elim (count_cases r v) [
    | inl (h, e) ↦ rw e (sym (ap (λ k. k % size) (omega arith) ∙ mod-eq_of_lt v.head_in))
    | inr (h, e) ↦ omega (arith, mod_turn size (r.tail + count r) (omega arith) (omega arith))
  ]

  count-lt : (r : RingBuf A) → IsValid size r → count r < size
  count-lt r v = omega arith

  next-IsValid :
      (r : RingBuf A) → IsValid size r → IsValid size (record r { head = (r.head + 1) % size })
  next-IsValid r v = omega (arith, next_cases size r.head v.head_in)

  count_full : (r : RingBuf A) → IsValid size r → (r.head + 1) % size ≡ r.tail → count r ≡ size - 1
  count_full r v h = omega (arith, next_cases size r.head v.head_in, count_cases r v)

  count_room :
      (r : RingBuf A)
      → IsValid size r
      → (r.head + 1) % size ≢ r.tail
      → (count r < size - 1) × (((r.head + 1) % size + size - r.tail) % size ≡ suc (count r))
  count_room r v h = omega (
    arith,
    next_cases size r.head v.head_in,
    count_cases r v,
    count_cases (record r { head = (r.head + 1) % size }) (next-IsValid r v),
  )

  -- A push to a valid ring queues the new event, behind all others, exactly when fewer than `size
  -- - 1` events wait; else it changes nothing that is queued.
  pub contents-ring_push :
      (r : RingBuf A) (e : A)
      → IsValid size r
      → contents (ring_push size blank r e) ≡ offer (size - 1) (contents r) e
  unfolding ring_push offer
  contents-ring_push r e v = elim (ℕ_discrete ((r.head + 1) % size) r.tail) [
    | yes full ↦ rw (
      eq→== _ _ full,
      not_lt→ltb (length (contents r)) (size - 1)
          (omega (arith, count_full r v full, length-span r.ev r.tail (count r))),
    )
    | no room ↦
        rw
          (
            ne→== _ _ room,
            lt→ltb (length (contents r)) (size - 1)
                (omega (arith, count_room r v room, length-span r.ev r.tail (count r))),
            (count_room r v room).1,
          )
          (span-set r.ev e (count r) r.tail r.head v.slots v.tail_in (count-lt r v)
            (head_of_count r v))
  ]

  -- `tail != head` says that an event waits, and taking it leaves the others.
  count_some :
      (r : RingBuf A)
      → IsValid size r
      → r.tail ≢ r.head
      → count r ≡ suc (count (record r { tail = (r.tail + 1) % size }))
  count_some r v h = omega (
    arith,
    next_cases size r.tail v.tail_in,
    count_cases r v,
    count_cases (record r { tail = (r.tail + 1) % size })
        (omega (arith, next_cases size r.tail v.tail_in)),
  )

  count_none : (r : RingBuf A) → IsValid size r → r.tail ≡ r.head → count r ≡ 0
  count_none r v h = omega (arith, count_cases r v)

  pub contents_none : (r : RingBuf A) → IsValid size r → r.tail ≡ r.head → contents r ≡ []
  contents_none r v h = ap (span r.ev r.tail) (count_none r v h)

  -- The oldest event is the one that the loop copies out.
  pub contents_some :
      (r : RingBuf A)
      → IsValid size r
      → r.tail ≢ r.head
      → contents r ≡ get_or r.ev r.tail blank ∷ contents (record r { tail = (r.tail + 1) % size })
  contents_some r v h = ap (span r.ev r.tail) (count_some r v h)
