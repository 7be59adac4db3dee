-- ===== src/Ntfs/Bitmap/Bits.antt =====
-- `GetClustersStatus` of FS/NTFS/MFT/MFT.go against the bits of the bytes.
use file_system_forensics.Base.{
  All, Bool, Bool-cases, Bytes, List, Option, [], ap, arith, bit_and, get_elem?, inl, inr, none,
  not, refl, some, suc, sym, zero, ℕ, ◌%◌, ◌*◌, ◌++◌, ◌+◌, ◌/◌, ◌<◌, ◌==◌, ◌^◌, ◌∙◌, ◌∷◌, ◌≡◌,
}
use file_system_forensics.Base.Bits.{bit_test}
use file_system_forensics.Ntfs.Bitmap.{byte_status, clusters_status}
use file_system_forensics.Utils.Endian.{IsByte}

-- Bit k of a byte.
abbrev pub bit : ℕ → ℕ → Bool
bit value k = value / 2 ^ k % 2 == 1

masked-bit : (value k : ℕ) → value < 256 → k < 8 → not (bit_and value (2 ^ k) == 0) ≡ bit value k
masked-bit value k h l = elim (Bool-cases (bit_and value (2 ^ k) == 0)) [
  | inl clear ↦
      let zero_bit : 0 ≡ value / 2 ^ k % 2 = rw clear at (bit_test k value l h) in
      rw (clear, sym zero_bit) refl
  | inr set_bit ↦
      let one_bit : 1 ≡ value / 2 ^ k % 2 = rw set_bit at (bit_test k value l h) in
      rw (set_bit, sym one_bit) refl
]

abbrev pub bits_of : ℕ → List Bool
bits_of value =
    bit value 0
    ∷ bit value 1
    ∷ bit value 2
    ∷ bit value 3
    ∷ bit value 4
    ∷ bit value 5
    ∷ bit value 6
    ∷ bit value 7
    ∷ []

byte_status-bits_of : (value : ℕ) → value < 256 → byte_status 9 1 0 value ≡ bits_of value
unfolding byte_status
byte_status-bits_of value h =
    rw
      (
        masked-bit value 0 h (omega arith),
        masked-bit value 1 h (omega arith),
        masked-bit value 2 h (omega arith),
        masked-bit value 3 h (omega arith),
        masked-bit value 4 h (omega arith),
        masked-bit value 5 h (omega arith),
        masked-bit value 6 h (omega arith),
        masked-bit value 7 h (omega arith),
      )
      refl

bits_of_at :
    (value k : ℕ) (rest : List Bool)
    → k < 8
    → get_elem? (bits_of value ++ rest) k ≡ some (bit value k)
bits_of_at value zero rest h = refl
bits_of_at value (suc zero) rest h = refl
bits_of_at value (suc (suc zero)) rest h = refl
bits_of_at value (suc (suc (suc zero))) rest h = refl
bits_of_at value (suc (suc (suc (suc zero)))) rest h = refl
bits_of_at value (suc (suc (suc (suc (suc zero))))) rest h = refl
bits_of_at value (suc (suc (suc (suc (suc (suc zero)))))) rest h = refl
bits_of_at value (suc (suc (suc (suc (suc (suc (suc zero))))))) rest h = refl
bits_of_at value (suc (suc (suc (suc (suc (suc (suc (suc k)))))))) rest h = absurd (omega arith)

-- `GetClustersStatus` gives cluster 8 * i + k the bit k of byte i of the bitmap.
pub clusters_status-bit :
    (bs : Bytes) (i k value : ℕ)
    → All IsByte bs
    → k < 8
    → get_elem? bs i ≡ some value
    → get_elem? (clusters_status bs) (i * 8 + k) ≡ some (bit value k)
unfolding clusters_status
clusters_status-bit [] i k value h l e = absurd cc
clusters_status-bit (b ∷ bs) zero k value (hb, h) l e =
    let at_k : 0 * 8 + k ≡ k = omega arith in
    let same : b ≡ value = ap (get_value b) e in
    rw (at_k, byte_status-bits_of b hb)
      (bits_of_at b k (clusters_status bs) l ∙ ap (λ (v : ℕ). some (bit v k)) same)
  where
    get_value : ℕ → Option ℕ → ℕ
    get_value d none = d
    get_value d (some v) = v
clusters_status-bit (b ∷ bs) (suc i) k value (hb, h) l e =
    let at_k : suc i * 8 + k ≡ suc (suc (suc (suc (suc (suc (suc (suc (i * 8 + k)))))))) =
      omega arith in
    rw (at_k, byte_status-bits_of b hb) (clusters_status-bit bs i k value h l e)
