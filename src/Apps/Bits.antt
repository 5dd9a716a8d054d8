-- ===== src/Apps/Bits.antt =====
-- Bits of an unsigned number, as the programs of examples set, clear and test them.
use asyncinput.Prelude.{ℕ, zero, suc, ◌+◌, ◌*◌, ◌/◌, ◌%◌, ◌≡◌, ◌≢◌, refl, ap, ◌∙◌, arith}

-- (m >> b) & 1
unfoldable pub bit_at : ℕ → ℕ → ℕ
bit_at m zero = m % 2
bit_at m (suc b) = bit_at (m / 2) b

-- m | (1u << b)
unfoldable pub or_bit : ℕ → ℕ → ℕ
or_bit m zero = m / 2 * 2 + 1
or_bit m (suc b) = or_bit (m / 2) b * 2 + m % 2

-- m & ~(1u << b)
unfoldable pub clear_bit : ℕ → ℕ → ℕ
clear_bit m zero = m / 2 * 2
clear_bit m (suc b) = clear_bit (m / 2) b * 2 + m % 2

pub bit_at-or_bit : (m b : ℕ) → bit_at (or_bit m b) b ≡ 1
unfolding bit_at or_bit
bit_at-or_bit m zero = omega arith
bit_at-or_bit m (suc b) = ap (λ n. bit_at n b) (omega arith) ∙ bit_at-or_bit (m / 2) b

pub bit_at-clear_bit : (m b : ℕ) → bit_at (clear_bit m b) b ≡ 0
unfolding bit_at clear_bit
bit_at-clear_bit m zero = omega arith
bit_at-clear_bit m (suc b) = ap (λ n. bit_at n b) (omega arith) ∙ bit_at-clear_bit (m / 2) b

-- The other bits stay.
pub bit_at-or_bit_other : (m b c : ℕ) → b ≢ c → bit_at (or_bit m b) c ≡ bit_at m c
unfolding bit_at or_bit
bit_at-or_bit_other m zero zero h = absurd (h refl)
bit_at-or_bit_other m zero (suc c) h = ap (λ n. bit_at n c) (omega arith)
bit_at-or_bit_other m (suc b) zero h = omega arith
bit_at-or_bit_other m (suc b) (suc c) h =
    ap (λ n. bit_at n c) (omega arith) ∙ bit_at-or_bit_other (m / 2) b c (λ q. h (ap suc q))

pub bit_at-clear_bit_other : (m b c : ℕ) → b ≢ c → bit_at (clear_bit m b) c ≡ bit_at m c
unfolding bit_at clear_bit
bit_at-clear_bit_other m zero zero h = absurd (h refl)
bit_at-clear_bit_other m zero (suc c) h = ap (λ n. bit_at n c) (omega arith)
bit_at-clear_bit_other m (suc b) zero h = omega arith
bit_at-clear_bit_other m (suc b) (suc c) h =
    ap (λ n. bit_at n c) (omega arith) ∙ bit_at-clear_bit_other (m / 2) b c (λ q. h (ap suc q))

pub zero-bit_at : (i : ℕ) → bit_at 0 i ≡ 0
unfolding bit_at
zero-bit_at zero = omega arith
zero-bit_at (suc i) = ap (λ n. bit_at n i) (omega arith) ∙ zero-bit_at i
