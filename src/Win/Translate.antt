-- ===== src/Win/Translate.antt =====
-- What `handle_rawinput` of src/libasyncinput_win.c makes of a mouse report.
use Prim.Native.Nat.{digits, bit_and, bit_and-bitwise}
use asyncinput.Prelude.{
  ℕ, zero, suc, ◌≡◌, refl, ap, ◌∙◌, [], ◌++◌, not, ◌==◌, ◌/◌, arith, min, if_false, if◌then◌else◌,
  eq→==,
}
use asyncinput.Prelude.Int.{ℤ}
use asyncinput.Win.{WinEnv, mouse, raw_events, move_events, button_events, has}

digits-zero : (n a : ℕ) → digits (λ b. zero) min n a 0 ≡ 0
digits-zero zero a = refl
digits-zero (suc n) zero = refl
digits-zero (suc n) (suc a) = omega (arith, digits-zero n (suc a / 2))

bit_and-zero : (a : ℕ) → bit_and a 0 ≡ 0
bit_and-zero a = (λ i. bit_and-bitwise a 0 i) ∙ digits-zero a a

-- If the mask MOUSE_MOVE_RELATIVE is 0, as it is in <windows.h>, a mouse report gives the events
-- of its buttons and of its wheel only: the movement is never reported, whatever the flags.
pub raw_events-motionless :
    (e : WinEnv) (ts device x y : ℤ) (flags buttons amount : ℕ)
    → e.move_relative ≡ 0
    → raw_events e ts (mouse device flags x y buttons amount)
      ≡ (if not (buttons == 0) then button_events e device ts buttons amount else [])
unfolding raw_events move_events
raw_events-motionless e ts device x y flags buttons amount zero_mask =
    ap
      (λ moves.
        moves ++ (if not (buttons == 0) then button_events e device ts buttons amount else []))
      (if_false (has flags e.move_relative) _ _
        (ap (λ b. not b) (eq→== _ 0 (ap (bit_and flags) zero_mask ∙ bit_and-zero flags))))
