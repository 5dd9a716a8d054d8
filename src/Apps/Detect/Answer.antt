-- ===== src/Apps/Detect/Answer.antt =====
-- What the filter of examples/hotplug_mouse_wait.c answers.
use asyncinput.Prelude.{
  ℕ, zero, suc, ◌+◌, ◌*◌, ◌/◌, ◌%◌, ◌<◌, ◌≤◌, ◌≡◌, refl, sym, ap, ◌∙◌, inl, inr, List, [], ◌∷◌,
  Bool, true, false, not, ◌&&◌, ◌||◌, some, if◌then◌else◌, if_true, if_false, leb, get_elem?,
  get_or, length, Bool-cases, arith,
}
use asyncinput.Prelude.Int.{ℤ, is_neg, eqb_ℤ}
use asyncinput.Event.{NiDeviceInfo}
use asyncinput.Apps.Bits.{bit_at, zero-bit_at}
use asyncinput.Apps.Detect.{
  DetectEnv, DetectTrace, node_opened, node_closed, asked_bits, test_bit, bit_of, or_else, any_bit,
  both_set, mouse_buttons, ask_more, ask_if, is_mouse_like,
}

abbrev pub is_one : ℕ → Bool
is_one zero = false
is_one (suc n) = true

-- whether a bit of an array is set; behind the end none is
abbrev pub is_set : List ℕ → ℕ → Bool
is_set array bit = is_one (bit_at (get_or array (bit / 64) 0) (bit % 64))

elem_or : (xs : List ℕ) (i : ℕ) → i < length xs → get_elem? xs i ≡ some (get_or xs i 0)
elem_or [] i h = absurd (omega arith)
elem_or (x ∷ xs) zero h = refl
elem_or (x ∷ xs) (suc i) h = elem_or xs i (omega arith)

behind : (xs : List ℕ) (i : ℕ) → length xs ≤ i → get_or xs i 0 ≡ 0
behind [] i h = refl
behind (x ∷ xs) zero h = absurd (omega arith)
behind (x ∷ xs) (suc i) h = behind xs i (omega arith)

-- A test in the array's own size reads inside of it.
test_bit_lem :
    (bit size : ℕ) (array : List ℕ)
    → size ≡ 8 * length array
    → test_bit bit array size ≡ some (bit_at (get_or array (bit / 64) 0) (bit % 64))
unfolding test_bit
test_bit_lem bit size array same = elim (Bool-cases (leb (size / 8) (bit / 64))) [
  | inl over ↦
      if_true _ _ _ over
      ∙ ap some (
          sym (
            ap (λ (w : ℕ). bit_at w (bit % 64))
              (behind array (bit / 64) (ground (arith, same, over)))
            ∙ zero-bit_at (bit % 64)))
  | inr inside ↦
      if_false _ _ _ inside
      ∙ ap (bit_of (bit % 64)) (elem_or array (bit / 64) (ground (arith, same, inside)))
]

abbrev pub one : Bool → ℕ
one b = if b then 1 else 0

or_else_lem : (v : ℕ) (r : Bool) → or_else (some v) (some (one r)) ≡ some (one (is_one v || r))
or_else_lem zero r = refl
or_else_lem (suc v) r = refl

both_set_lem : (a b : Bool) → both_set (some (one a)) (some (one b)) ≡ some (one (a && b))
both_set_lem true true = refl
both_set_lem true false = refl
both_set_lem false true = refl
both_set_lem false false = refl

-- some of the bits is set
abbrev pub any_set : List ℕ → List ℕ → Bool
any_set [] array = false
any_set (b ∷ bs) array = is_set array b || any_set bs array

any_bit_lem :
    (bs : List ℕ) (size : ℕ) (array : List ℕ)
    → size ≡ 8 * length array
    → any_bit bs array size ≡ some (one (any_set bs array))
any_bit_lem [] size array same = refl
any_bit_lem (b ∷ bs) size array same =
    rw (test_bit_lem b size array same, any_bit_lem bs size array same)
      (or_else_lem (bit_at (get_or array (b / 64) 0) (b % 64)) (any_set bs array))

-- The arrays have the sizes that the program gives to the kernel.
pub record IsFilled (e : DetectEnv) : Type 0 where
  pub types : (t : DetectTrace) (fd : ℤ) → length (e.bits t fd 0) ≡ 8
  pub relatives : (t : DetectTrace) (fd : ℤ) → length (e.bits t fd e.ev_rel) ≡ 8
  pub keys : (t : DetectTrace) (fd : ℤ) → length (e.bits t fd e.ev_key) ≡ 64

-- what the kernel says of an open device: it has relative movement, along X or Y, and a mouse button
abbrev pub says_mouse : DetectEnv → ℤ → DetectTrace → Bool
says_mouse e fd t =
    let t1 = asked_bits fd 0 ∷ t in
    let t2 = asked_bits fd e.ev_rel ∷ t1 in
    is_set (e.bits t fd 0) e.ev_rel
    && (any_set (e.rel_x ∷ e.rel_y ∷ []) (e.bits t1 fd e.ev_rel)
        && any_set (mouse_buttons e) (e.bits t2 fd e.ev_key))

ask_more_lem :
    (e : DetectEnv) (fd : ℤ) (t : DetectTrace)
    → IsFilled e
    → (ask_more e fd t).0
      ≡ some (
          one (
            any_set (e.rel_x ∷ e.rel_y ∷ []) (e.bits t fd e.ev_rel)
            && any_set (mouse_buttons e) (e.bits (asked_bits fd e.ev_rel ∷ t) fd e.ev_key)))
unfolding ask_more
ask_more_lem e fd t f =
    let t1 = asked_bits fd e.ev_rel ∷ t in
    rw
      (
        any_bit_lem (e.rel_x ∷ e.rel_y ∷ []) 64 (e.bits t fd e.ev_rel) (rw (f.relatives t fd) refl),
        any_bit_lem (mouse_buttons e) 512 (e.bits t1 fd e.ev_key) (rw (f.keys t1 fd) refl),
      )
      (both_set_lem (any_set (e.rel_x ∷ e.rel_y ∷ []) (e.bits t fd e.ev_rel))
        (any_set (mouse_buttons e) (e.bits t1 fd e.ev_key)))

-- how often a descriptor was opened and closed
abbrev pub hits : ℤ → ℤ → ℕ
hits x fd = one (eqb_ℤ x fd)

abbrev pub node_opens : ℤ → DetectTrace → ℕ
node_opens x [] = 0
node_opens x (node_opened fd ∷ t) = (if is_neg fd then 0 else hits x fd) + node_opens x t
node_opens x (_ ∷ t) = node_opens x t

abbrev pub node_closes : ℤ → DetectTrace → ℕ
node_closes x [] = 0
node_closes x (node_closed fd ∷ t) = hits x fd + node_closes x t
node_closes x (_ ∷ t) = node_closes x t

abbrev pub IsNodeFree : DetectTrace → Type 0
IsNodeFree t = (x : ℤ) → node_opens x t ≡ node_closes x t

ask_if-Answers :
    (e : DetectEnv) (fd : ℤ) (v : ℕ) (t : DetectTrace)
    → IsFilled e
    → ((x : ℤ) → node_opens x t ≡ hits x fd + node_closes x t)
    → ((ask_if e fd (some v) t).0
        ≡ some (
            one (
              is_one v
              && (any_set (e.rel_x ∷ e.rel_y ∷ []) (e.bits t fd e.ev_rel)
                  && any_set (mouse_buttons e) (e.bits (asked_bits fd e.ev_rel ∷ t) fd e.ev_key)))))
      × IsNodeFree (ask_if e fd (some v) t).1
unfolding ask_more
ask_if-Answers e fd zero t f h = (refl, h)
ask_if-Answers e fd (suc v) t f h = (ask_more_lem e fd t f, h)

-- For a device and arrays of the sizes that the program asks for, the filter reads inside of its arrays, answers
-- 1 if the device opens and the kernel says that it has relative movement, along X or Y, and a mouse
-- button, and 0 otherwise, and has closed every descriptor that it opened.
pub is_mouse_like-answers :
    (e : DetectEnv) (info : NiDeviceInfo) (t : DetectTrace)
    → IsFilled e
    → IsNodeFree t
    → ((is_mouse_like e (some info) t).0
        ≡ some (
            one (
              not (is_neg (e.open_node t info.path))
              && says_mouse e
                  (e.open_node t info.path)
                  (node_opened (e.open_node t info.path) ∷ t))))
      × IsNodeFree (is_mouse_like e (some info) t).1
unfolding is_mouse_like
is_mouse_like-answers e info t f h = elim (Bool-cases (is_neg (e.open_node t info.path))) [
  | inl neg ↦ rw neg (
    refl,
    λ x. omega (
      arith,
      if_true (is_neg (e.open_node t info.path)) 0 (hits x (e.open_node t info.path)) neg,
      h x,
    ),
  )
  | inr there ↦
      let fd = e.open_node t info.path in
      let t1 = node_opened fd ∷ t in
      rw (there, test_bit_lem e.ev_rel 64 (e.bits t1 fd 0) (rw (f.types t1 fd) refl))
        (ask_if-Answers e fd (bit_at (get_or (e.bits t1 fd 0) (e.ev_rel / 64) 0) (e.ev_rel % 64))
          (asked_bits fd 0 ∷ t1) f
          (λ x. omega (arith, if_false (is_neg fd) 0 (hits x fd) there, h x)))
]
