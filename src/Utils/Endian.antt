-- ===== src/Utils/Endian.antt =====
-- The byte-order helpers of utils/utils.go: ToUint16, ToUint32, ReadEndianInt, ReadEndianUInt,
-- RemoveNulls, Bytereverse and Filter. A signed value is an integer; unsigned words are numbers.
use file_system_forensics.Base.{
  All, Bool, Bytes, List, [], ap, arith, bit_and, false, get_or, if◌then◌else◌, leb, length, not,
  refl, replicate, set, suc, take, zero, ℕ, ◌%◌, ◌*◌, ◌+◌, ◌-◌, ◌/◌, ◌<◌, ◌==◌, ◌^◌, ◌∷◌, ◌≡◌, ◌≤◌,
}
use file_system_forensics.Base.Bits.{top_bit}
use file_system_forensics.Base.Int.{pos, signed, sub_ℕ, ℤ}
use file_system_forensics.Bitlocker.Ccm.{rounds}
use file_system_forensics.Go.{Result, copy, crash, ok}
use native.Mathlib.Nat.{pow-suc}
use native.Mathlib.Numerals.{towards_suc}

-- The number that little-endian bytes stand for.
abbrev pub le : Bytes → ℕ
le [] = 0
le (b ∷ bs) = b + 256 * le bs

abbrev pub IsByte : ℕ → Type 0
IsByte b = b < 256

-- `binary.LittleEndian.UintN`: the first n bytes, with a panic where there are fewer.
unfoldable pub uint : ℕ → Bytes → Result ℕ
uint n bs = if leb n (length bs) then ok (le (take n bs)) else crash

unfoldable pub to_uint16 : Bytes → Result ℕ
unfolding uint
to_uint16 bs = uint 2 bs

unfoldable pub to_uint32 : Bytes → Result ℕ
unfolding uint
to_uint32 bs = uint 4 bs

-- `uint64(val) << uint(index*8)`, added up in a uint64.
read_endian_uint_from : ℕ → ℕ → Bytes → ℕ
read_endian_uint_from index sum [] = sum
read_endian_uint_from index sum (v ∷ rest) =
    read_endian_uint_from (index + 1) ((sum + v * 2 ^ (index * 8) % 2 ^ 64) % 2 ^ 64) rest

unfoldable pub read_endian_uint : Bytes → ℕ
unfolding read_endian_uint_from
read_endian_uint = read_endian_uint_from 0 0

-- `barray[len(barray)-1]&0x80 != 0`, false for no bytes.
abbrev pub last_sign : Bytes → Bool
last_sign [] = false
last_sign (b ∷ []) = not (bit_and b 0x80 == 0)
last_sign (b ∷ c ∷ bs) = last_sign (c ∷ bs)

-- Four fill bytes, overwritten by the first bytes of the input, and read as an int32.
unfoldable pub read_endian_int : Bytes → ℤ
unfolding copy
read_endian_int barray =
    signed 32 (le (copy (replicate 4 (if last_sign barray then 0xff else 0x00)) barray))

unfoldable pub remove_nulls : Bytes → Bytes
remove_nulls [] = []
remove_nulls (v ∷ rest) = if v == 0 then remove_nulls rest else v ∷ remove_nulls rest

-- The code units that `DecodeUTF16` decodes: a last odd byte stands for the replacement character.
unfoldable pub code_units : Bytes → List ℕ
code_units [] = []
code_units (b ∷ []) = 0xfffd ∷ []
code_units (b ∷ c ∷ rest) = le (b ∷ c ∷ []) ∷ code_units rest

-- `Filter` and `FilterClone`.
unfoldable pub filter_by {ℓ} : {A : Type ℓ} → (A → Bool) → List A → List A
filter_by f [] = []
filter_by f (v ∷ rest) = if f v then v ∷ filter_by f rest else filter_by f rest

-- `Bytereverse` swaps the ends inwards, on the slice itself; `rounds` is half the length.
swap_ends : ℕ → ℕ → ℕ → Bytes → Bytes
swap_ends zero i j barray = barray
swap_ends (suc rounds) i j barray =
    swap_ends rounds (i + 1) (j - 1) (set (set barray i (get_or barray j 0)) j (get_or barray i 0))

unfoldable pub bytereverse : Bytes → Bytes
unfolding swap_ends
bytereverse barray = swap_ends (length barray / 2) 0 (length barray - 1) barray

-- The two's complement value of little-endian bytes, of any width.
abbrev pub twos : Bytes → ℤ
twos bs = if last_sign bs then sub_ℕ (le bs) (256 ^ length bs) else pos (le bs)

pub le-lt : (bs : Bytes) → All IsByte bs → le bs < 256 ^ length bs
le-lt [] h = omega arith
le-lt (b ∷ bs) h = rw pow-suc (omega (arith, le-lt bs h.1, h.0))

pub le-lt_within : (n : ℕ) (bs : Bytes) → All IsByte bs → length bs ≤ n → le bs < 256 ^ n
le-lt_within zero [] h l = omega arith
le-lt_within zero (b ∷ bs) h l = absurd (omega arith)
le-lt_within (suc n) [] h l = rw pow-suc (omega (arith, le-lt_within n [] tt (omega arith)))
le-lt_within (suc n) (b ∷ bs) h l =
    rw pow-suc (omega (arith, le-lt_within n bs h.1 (omega arith), h.0))

shift_eight : (s : ℕ) → 2 ^ (s + 8) ≡ 256 * 2 ^ s
shift_eight s = simp towards_suc (omega arith)

pow_shift : (i : ℕ) → 2 ^ ((i + 1) * 8) ≡ 256 * 2 ^ (i * 8)
pow_shift i = let e : (i + 1) * 8 ≡ i * 8 + 8 = omega arith in rw e (shift_eight (i * 8))

read_endian_uint_from-le :
    (bs : Bytes) (index sum : ℕ)
    → sum < 2 ^ 64
    → read_endian_uint_from index sum bs ≡ (sum + le bs * 2 ^ (index * 8)) % 2 ^ 64
unfolding read_endian_uint_from
read_endian_uint_from-le [] index sum h = omega arith
read_endian_uint_from-le (v ∷ rest) index sum h = omega (
  arith,
  read_endian_uint_from-le rest (index + 1) ((sum + v * 2 ^ (index * 8) % 2 ^ 64) % 2 ^ 64),
  ap (λ (t : ℕ). le rest * t) (pow_shift index),
)

-- The unsigned reader gives the little-endian value of the bytes, wrapped to 64 bits.
pub read_endian_uint-le : (bs : Bytes) → read_endian_uint bs ≡ le bs % 2 ^ 64
unfolding read_endian_uint
read_endian_uint-le bs = omega (arith, read_endian_uint_from-le bs 0 0)

-- On at most four bytes the signed reader gives the two's complement value.
pub read_endian_int-twos :
    (bs : Bytes) → All IsByte bs → length bs ≤ 4 → read_endian_int bs ≡ twos bs
unfolding read_endian_int
read_endian_int-twos [] h l = refl
read_endian_int-twos (a ∷ []) h l = ground (arith, top_bit a)
read_endian_int-twos (a ∷ b ∷ []) h l = ground (arith, top_bit b)
read_endian_int-twos (a ∷ b ∷ c ∷ []) h l = ground (arith, top_bit c)
read_endian_int-twos (a ∷ b ∷ c ∷ d ∷ []) h l = ground (arith, top_bit d)
read_endian_int-twos (a ∷ b ∷ c ∷ d ∷ e ∷ bs) h l = absurd (omega arith)
