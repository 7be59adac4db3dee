-- ===== src/Base/Bits.antt =====
-- Masks and shifts of one byte as arithmetic: each is a table checked by evaluation.
use Prim.Native.Nat.{ℕ, zero, suc, ◌+◌, ◌*◌, ◌/◌, ◌%◌, ◌<◌, bit_and, bit_or, bit_xor, ◌^◌}
use mathlib.Core.Path.{◌≡◌, refl}
use mathlib.Core.Bool.{Bool, true, false, ◌&&◌}
use mathlib.Core.Logic.{ite}
use native.Mathlib.Decide.{ℕ_discrete}
use mathlib.Core.Logic.{◌⊎◌, inl, inr}
use native.Mathlib.Omega.{arith}
use file_system_forensics.Base.Tests.{◌==◌, if◌then◌else◌}

module _ (f g : ℕ → ℕ) where
  agree_below : ℕ → Bool
  unfolding ℕ_discrete
  agree_below zero = true
  agree_below (suc n) = ite (ℕ_discrete (f n) (g n)) (agree_below n) false

  agree_below→eq : (n : ℕ) → agree_below n ≡ true → (i : ℕ) → i < n → f i ≡ g i
  unfolding agree_below
  agree_below→eq zero e i h = absurd (omega arith)
  agree_below→eq (suc n) e i h = ground (arith, agree_below→eq n (ground arith) i)

pub low_nibble : (b : ℕ) → b < 256 → bit_and b 0x0f ≡ b % 16
unfolding agree_below
low_nibble = agree_below→eq _ _ 256 refl

pub high_nibble : (b : ℕ) → b < 256 → bit_and b 0xf0 ≡ b / 16 * 16
unfolding agree_below
high_nibble = agree_below→eq _ _ 256 refl

pub top_bit : (b : ℕ) → b < 256 → bit_and b 0x80 ≡ b / 128 * 128
unfolding agree_below
top_bit = agree_below→eq _ _ 256 refl

-- `(v << 1) | carry`, wrapped to a byte, for a carry of one bit.
pub shift_in_zero : (b : ℕ) → b < 256 → bit_or (b * 2 % 256) 0 ≡ b * 2 % 256
unfolding agree_below
shift_in_zero = agree_below→eq _ _ 256 refl

pub shift_in_one : (b : ℕ) → b < 256 → bit_or (b * 2 % 256) 1 ≡ b * 2 % 256 + 1
unfolding agree_below
shift_in_one = agree_below→eq _ _ 256 refl

agree_square : (ℕ → ℕ → ℕ) → (ℕ → ℕ → ℕ) → ℕ → ℕ → Bool
unfolding agree_below
agree_square f g m zero = true
agree_square f g m (suc n) = agree_below (f n) (g n) m && agree_square f g m n

agree_square→eq :
    (f g : ℕ → ℕ → ℕ) (m n : ℕ)
    → agree_square f g m n ≡ true
    → (j i : ℕ) → j < n
    → i < m
    → f j i ≡ g j i
unfolding agree_square
agree_square→eq f g m zero e j i h k = absurd (omega arith)
agree_square→eq f g m (suc n) e j i h k =
    let (row, rest) = both (agree_below (f n) (g n) m) (agree_square f g m n) e in
    elim (last j n h) [
      | inl below ↦ agree_square→eq f g m n rest j i below k
      | inr here ↦ rw here (agree_below→eq (f n) (g n) m row i k)
    ]
  where
    both : (a b : Bool) → (a && b) ≡ true → (a ≡ true) × (b ≡ true)
    both true b e = (refl, e)
    both false b e = absurd cc

    last : (j n : ℕ) → j < suc n → (j < n) ⊎ (j ≡ n)
    last j n h = ground arith

pub xor_twice : (b a : ℕ) → b < 256 → a < 256 → bit_xor (bit_xor a b) b ≡ a
unfolding agree_square agree_below
xor_twice b a h k = agree_square→eq (λ b a. bit_xor (bit_xor a b) b) (λ b a. a) 256 256 refl b a h k

pub xor_lt : (b a : ℕ) → b < 256 → a < 256 → bit_xor a b < 256
unfolding agree_square agree_below
xor_lt b a h k =
    let kept =
      agree_square→eq (λ b a. bit_xor a b) (λ b a. bit_xor a b % 256) 256 256 refl b a h k in
    omega (arith, kept)

pub bit_test :
    (k b : ℕ) → k < 8 → b < 256 → (if bit_and b (2 ^ k) == 0 then 0 else 1) ≡ b / 2 ^ k % 2
unfolding agree_square agree_below
bit_test k b h l =
    agree_square→eq (λ k b. if bit_and b (2 ^ k) == 0 then 0 else 1) (λ k b. b / 2 ^ k % 2) 256 8
      refl k b h l
