-- ===== src/Apps/Detect.antt =====
-- The device filter of examples/hotplug_mouse_wait.c, which asks the kernel what a device can do. An
-- `unsigned long` has 64 bits. A read outside of an array is `none`.
pub mod Answer
mod Tests
use asyncinput.Prelude.{
  ℕ, zero, suc, ◌+◌, ◌*◌, ◌/◌, ◌%◌, List, [], ◌∷◌, Bool, true, false, not, ◌&&◌, ◌||◌, Option, none,
  some, if◌then◌else◌, leb, ltb, get_elem?,
}
use asyncinput.Prelude.Int.{ℤ, pos, is_neg}
use asyncinput.Event.{NiDeviceInfo}
use asyncinput.Apps.Bits.{bit_at}

-- `(array[idx] >> off) & 1UL`
abbrev pub bit_of : ℕ → Option ℕ → Option ℕ
bit_of off none = none
bit_of off (some w) = some (bit_at w off)

unfoldable pub test_bit : ℕ → List ℕ → ℕ → Option ℕ
test_bit bit array size_bytes =
    let idx = bit / 64 in
    let off = bit % 64 in
    if leb (size_bytes / 8) idx then some 0 else bit_of off (get_elem? array idx)

-- newest first
pub data DetectCall : Type 0 where
  node_opened node_closed : ℤ → DetectCall
  asked_bits : ℤ → ℕ → DetectCall

abbrev pub DetectTrace : Type 0
DetectTrace = List DetectCall

-- The kernel: `open`, and what the array holds after `ioctl` with EVIOCGBIT of an event type, which may
-- leave its zeros. And the numbers of linux/input-event-codes.h.
pub record DetectEnv : Type 0 where
  pub open_node : DetectTrace → List ℕ → ℤ
  pub bits : DetectTrace → ℤ → ℕ → List ℕ
  pub ev_key : ℕ
  pub ev_rel : ℕ
  pub rel_x : ℕ
  pub rel_y : ℕ
  pub btn_left : ℕ
  pub btn_right : ℕ
  pub btn_middle : ℕ
  pub btn_side : ℕ
  pub btn_extra : ℕ

-- `a || b` of two tests, the second asked when the first is 0
abbrev pub or_else : Option ℕ → Option ℕ → Option ℕ
or_else none b = none
or_else (some zero) b = b
or_else (some (suc n)) b = some 1

-- some of the bits
abbrev pub any_bit : List ℕ → List ℕ → ℕ → Option ℕ
any_bit [] array size = some 0
any_bit (b ∷ bs) array size = or_else (test_bit b array size) (any_bit bs array size)

abbrev pub both_set : Option ℕ → Option ℕ → Option ℕ
both_set (some (suc a)) (some (suc b)) = some 1
both_set (some a) (some b) = some 0
both_set _ _ = none

-- the mouse buttons, in the order of the tests
abbrev pub mouse_buttons : DetectEnv → List ℕ
mouse_buttons e = e.btn_left ∷ e.btn_right ∷ e.btn_middle ∷ e.btn_side ∷ e.btn_extra ∷ []

-- A device with EV_REL: the two further questions.
unfoldable pub ask_more : DetectEnv → ℤ → DetectTrace → Option ℕ × DetectTrace
ask_more e fd t =
    let t1 = asked_bits fd e.ev_rel ∷ t in
    let t2 = asked_bits fd e.ev_key ∷ t1 in
    let has_rel = any_bit (e.rel_x ∷ e.rel_y ∷ []) (e.bits t fd e.ev_rel) 64 in
    let has_btn = any_bit (mouse_buttons e) (e.bits t1 fd e.ev_key) 512 in
    (both_set has_rel has_btn, node_closed fd ∷ t2)

abbrev pub ask_if : DetectEnv → ℤ → Option ℕ → DetectTrace → Option ℕ × DetectTrace
ask_if e fd none t = (none, t)
ask_if e fd (some zero) t = (some 0, node_closed fd ∷ t)
ask_if e fd (some (suc n)) t = ask_more e fd t

unfoldable pub is_mouse_like :
    DetectEnv → Option NiDeviceInfo → DetectTrace → Option ℕ × DetectTrace
unfolding test_bit ask_more
is_mouse_like e none t = (some 0, t)
is_mouse_like e (some info) t =
    let fd = e.open_node t info.path in
    let t1 = node_opened fd ∷ t in
    if is_neg fd
    then (some 0, t1)
    else ask_if e fd (test_bit e.ev_rel (e.bits t1 fd 0) 64) (asked_bits fd 0 ∷ t1)
