-- ===== src/Bitlocker/Xts/Tweak.antt =====
-- The tweak of disk/Bitlocker/decryption/aes-xts.go: `xtsMulByX` is the multiplication by x of IEEE 1619.
use file_system_forensics.Base.{
  All, Bytes, [], ap, arith, bit_or, bit_xor, if◌then◌else◌, lt→ltb, ◌-◌, drop, false, inl, inr,
  length, ltb, ltb-false, ltb_cases, refl, suc, sym, take, true, zero, ℕ, ◌%◌, ◌*◌, ◌+◌, ◌/◌, ◌<◌,
  ◌^◌, ◌∙◌, ◌∷◌, ◌≡◌,
}
use file_system_forensics.Base.Bits.{shift_in_one, shift_in_zero, xor_lt, xor_twice}
use file_system_forensics.Bitlocker.Xts.{mul_by_x, reduce, shift_left, xor_block}
use file_system_forensics.Utils.Endian.{IsByte, le, le-lt_within}
use native.Mathlib.Nat.{mul_assoc, mul_comm, pow-suc}

shift_in : (b carry : ℕ) → b < 256 → carry < 2 → bit_or (b * 2 % 256) carry ≡ b * 2 % 256 + carry
shift_in b zero h c = rw (shift_in_zero b h) (omega arith)
shift_in b (suc zero) h c = shift_in_one b h
shift_in b (suc (suc c')) h c = absurd (omega arith)

-- The bytes after the loop of `xtsMulByX`, with the last carry behind them, are twice the number
-- that they were, plus the first carry.
shift_left-doubles :
    (carry : ℕ) (bs : Bytes)
    → carry < 2
    → All IsByte bs
    → le (shift_left carry bs).0 + 256 ^ length bs * (shift_left carry bs).1 ≡ 2 * le bs + carry
unfolding shift_left
shift_left-doubles carry [] c h = omega arith
shift_left-doubles carry (b ∷ bs) c (hb, h) =
    let out : ℕ = (shift_left (b / 128) bs).1 in
    let power : 256 ^ suc (length bs) * out ≡ 256 * (256 ^ length bs * out) =
      rw (pow-suc 256 (length bs))
        (rw (mul_comm (256 ^ length bs) 256) (mul_assoc 256 (256 ^ length bs) out)) in
    rw (shift_in b carry hb c, power)
      (omega (arith, shift_left-doubles (b / 128) bs (omega arith) h))

shift_left-IsByte :
    (carry : ℕ) (bs : Bytes) → carry < 2 → All IsByte bs → All IsByte (shift_left carry bs).0
unfolding shift_left
shift_left-IsByte carry [] c h = tt
shift_left-IsByte carry (b ∷ bs) c (hb, h) =
    (rw (shift_in b carry hb c) (omega arith), shift_left-IsByte (b / 128) bs (omega arith) h)

length-shift_left : (carry : ℕ) (bs : Bytes) → length (shift_left carry bs).0 ≡ length bs
unfolding shift_left
length-shift_left carry [] = refl
length-shift_left carry (b ∷ bs) = ap suc (length-shift_left (b / 128) bs)

pub take-All : (n : ℕ) (bs : Bytes) → All IsByte bs → All IsByte (take n bs)
take-All zero bs h = tt
take-All (suc n) [] h = tt
take-All (suc n) (b ∷ bs) (hb, h) = (hb, take-All n bs h)

pub drop-All : (n : ℕ) (bs : Bytes) → All IsByte bs → All IsByte (drop n bs)
drop-All zero bs h = h
drop-All (suc n) [] h = tt
drop-All (suc n) (b ∷ bs) (hb, h) = drop-All n bs h

-- Sixteen bytes.
abbrev pub IsBlock : Bytes → Type 0
IsBlock bs = (length bs ≡ 16) × All IsByte bs

reduce-IsBlock : (bs : Bytes) → IsBlock bs → IsBlock (reduce bs)
unfolding reduce
reduce-IsBlock [] h = h
reduce-IsBlock (b ∷ bs) (n, (hb, h)) = (n, (xor_lt 0x87 b (omega arith) hb, h))

pub mul_by_x-IsBlock : (t : Bytes) → IsBlock t → IsBlock (mul_by_x t)
unfolding mul_by_x
mul_by_x-IsBlock t (n, h) =
    let shifted : IsBlock (shift_left 0 t).0 =
      (omega (arith, length-shift_left 0 t), shift_left-IsByte 0 t (omega arith) h) in
    elim (ltb_cases 0 (shift_left 0 t).1) [
      | inl (carries, _) ↦ rw carries (reduce-IsBlock (shift_left 0 t).0 shifted)
      | inr (clear, _) ↦ rw clear shifted
    ]

length-reduce : (bs : Bytes) → length (reduce bs) ≡ length bs
unfolding reduce
length-reduce [] = refl
length-reduce (b ∷ bs) = refl

pub length-mul_by_x : (t : Bytes) → length (mul_by_x t) ≡ length t
unfolding mul_by_x
length-mul_by_x t = elim (ltb_cases 0 (shift_left 0 t).1) [
  | inl (carries, _) ↦ rw carries (length-reduce (shift_left 0 t).0 ∙ length-shift_left 0 t)
  | inr (clear, _) ↦ rw clear (length-shift_left 0 t)
]

pub xor_block-IsByte : (a b : Bytes) → All IsByte a → All IsByte b → All IsByte (xor_block a b)
unfolding xor_block
xor_block-IsByte [] b h k = tt
xor_block-IsByte (x ∷ a) [] h k = tt
xor_block-IsByte (x ∷ a) (y ∷ b) (hx, h) (hy, k) = (xor_lt y x hy hx, xor_block-IsByte a b h k)

pub length-xor_block : (a b : Bytes) → length a ≡ length b → length (xor_block a b) ≡ length a
unfolding xor_block
length-xor_block [] b e = refl
length-xor_block (x ∷ a) [] e = absurd (omega arith)
length-xor_block (x ∷ a) (y ∷ b) e = ap suc (length-xor_block a b (omega arith))

pub xor_block_twice :
    (a b : Bytes)
    → length a ≡ length b
    → All IsByte a
    → All IsByte b
    → xor_block (xor_block a b) b ≡ a
unfolding xor_block
xor_block_twice [] b e h k = refl
xor_block_twice (x ∷ a) [] e h k = absurd (omega arith)
xor_block_twice (x ∷ a) (y ∷ b) e (hx, h) (hy, k) =
    rw (xor_twice y x hy hx, xor_block_twice a b (omega arith) h k) refl

pub xor_block-IsBlock : (a b : Bytes) → IsBlock a → IsBlock b → IsBlock (xor_block a b)
xor_block-IsBlock a b (n, h) (m, k) =
    (omega (arith, length-xor_block a b (omega arith)), xor_block-IsByte a b h k)

-- The number of a string of n bytes, least significant first.
abbrev pub bytes_of : ℕ → ℕ → Bytes
bytes_of zero v = []
bytes_of (suc n) v = v % 256 ∷ bytes_of n (v / 256)

-- Multiplication by x in the field of 2 ^ 128 elements that IEEE 1619 takes, on numbers: twice the
-- number, where that has 128 bits; else without its bit 128, and with x ^ 7 + x ^ 2 + x + 1, which is
-- 0x87, added to its low byte without carries.
abbrev pub times_x : ℕ → ℕ
times_x v =
    if ltb (2 * v) (2 ^ 128)
    then 2 * v
    else (2 * v - 2 ^ 128) / 256 * 256 + bit_xor ((2 * v - 2 ^ 128) % 256) 0x87

-- The next tweak.
unfoldable pub next_tweak : Bytes → Bytes
next_tweak t = bytes_of 16 (times_x (le t))

bytes_of-le :
    (n : ℕ) (bs : Bytes) (v : ℕ) → length bs ≡ n → All IsByte bs → v ≡ le bs → bytes_of n v ≡ bs
bytes_of-le zero [] v l h e = refl
bytes_of-le zero (b ∷ bs) v l h e = absurd (omega arith)
bytes_of-le (suc n) [] v l h e = absurd (omega arith)
bytes_of-le (suc n) (b ∷ bs) v l (hb, h) e =
    let low : v % 256 ≡ b = omega arith in
    rw (low, bytes_of-le n bs (v / 256) (omega arith) h (omega arith)) refl

reduced :
    (bs : Bytes) (v : ℕ)
    → IsBlock bs
    → v ≡ le bs
    → v / 256 * 256 + bit_xor (v % 256) 0x87 ≡ le (reduce bs)
unfolding reduce
reduced [] v (n, h) e = absurd (omega arith)
reduced (b ∷ bs) v (n, (hb, h)) e =
    let low : v % 256 ≡ b = omega arith in
    let high : v / 256 ≡ le bs = omega arith in rw (low, high) (omega arith)

-- `xtsMulByX` is the multiplication by x.
pub mul_by_x-next_tweak : (t : Bytes) → IsBlock t → mul_by_x t ≡ next_tweak t
unfolding mul_by_x next_tweak
mul_by_x-next_tweak t (n, h) =
    let moved : Bytes = (shift_left 0 t).0 in
    let out : ℕ = (shift_left 0 t).1 in
    let block : IsBlock moved =
      (omega (arith, length-shift_left 0 t), shift_left-IsByte 0 t (omega arith) h) in
    let doubled = rw n at (shift_left-doubles 0 t (omega arith) h) in
    let twice : le moved + 2 ^ 128 * out ≡ 2 * le t = omega (arith, doubled) in
    let both : IsBlock (reduce moved) = reduce-IsBlock moved block in
    let small : le moved < 2 ^ 128 = le-lt_within 16 moved block.1 (omega (arith, block.0)) in
    let whole : le t < 2 ^ 128 = le-lt_within 16 t h (omega arith) in
    elim (ltb_cases 0 out) [
      | inr (clear, z) ↦
          let room : ltb (2 * le t) (2 ^ 128) ≡ true = lt→ltb (2 * le t) (2 ^ 128) (omega arith) in
          rw (clear, room) (sym (bytes_of-le 16 moved (2 * le t) block.0 block.1 (omega arith)))
      | inl (carries, z) ↦
          let over : ltb (2 * le t) (2 ^ 128) ≡ false =
            ltb-false (2 * le t) (2 ^ 128) (omega arith) in
          let rest : 2 * le t - 2 ^ 128 ≡ le moved = omega arith in
          rw (carries, over)
            (sym (
              bytes_of-le 16 (reduce moved) _ both.0 both.1
                (reduced moved (2 * le t - 2 ^ 128) block rest)))
    ]

-- The exclusive or of two strings, bit by bit.
abbrev pub xored : Bytes → Bytes → Bytes
xored (a ∷ as') (b ∷ bs) = bit_xor a b ∷ xored as' bs
xored _ _ = []

pub xor_block-xored : (a b : Bytes) → xor_block a b ≡ xored a b
unfolding xor_block
xor_block-xored [] b = refl
xor_block-xored (x ∷ a) [] = refl
xor_block-xored (x ∷ a) (y ∷ b) = ap (◌∷◌ (bit_xor x y)) (xor_block-xored a b)
