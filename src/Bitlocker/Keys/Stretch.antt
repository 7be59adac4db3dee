-- ===== src/Bitlocker/Keys/Stretch.antt =====
-- `StretchKey` (disk/Bitlocker/bitlocker.go) against the chain of hashes that it computes.
use file_system_forensics.Base.{
  Bytes, [], ap, arith, drop, drop-append, length, length-append, refl, replicate, suc, take,
  take-all, take-append, zero, ℕ, ◌++◌, ◌+◌, ◌/◌, ◌∷◌, ◌≡◌,
}
use file_system_forensics.Bitlocker.Keys.{le_bytes, stretch_key, stretch_rounds}
use file_system_forensics.Go.{copy}
use mathlib.Core.List.{append_assoc}

module _ (sha256 : Bytes → Bytes) where
  -- Each hash is taken of the one before, the initial hash, the salt and the number of the round.
  unfoldable pub hash_chain : Bytes → Bytes → ℕ → ℕ → Bytes → Bytes
  hash_chain initial salt zero i h = h
  hash_chain initial salt (suc n) i h =
      let next : Bytes = sha256 (h ++ (initial ++ (salt ++ le_bytes 8 i))) in
      hash_chain initial salt n (i + 1) next

copy-same_length : (dst src : Bytes) → length dst ≡ length src → copy dst src ≡ src
unfolding copy
copy-same_length [] [] h = refl
copy-same_length [] (s ∷ src) h = absurd (omega arith)
copy-same_length (d ∷ dst) [] h = absurd (omega arith)
copy-same_length (d ∷ dst) (s ∷ src) h = ap (◌∷◌ s) (copy-same_length dst src (omega arith))

pub length-le_bytes : (n v : ℕ) → length (le_bytes n v) ≡ n
unfolding le_bytes
length-le_bytes zero v = refl
length-le_bytes (suc n) v = ap suc (length-le_bytes n (v / 256))

-- The first 80 bytes of the buffer, and what stands behind its first 32.
front_of_buffer :
    (h initial salt c : Bytes)
    → length h ≡ 32
    → length initial ≡ 32
    → length salt ≡ 16
    → take 80 (h ++ (initial ++ (salt ++ c))) ≡ h ++ (initial ++ salt)
front_of_buffer h initial salt c a b d =
    let regroup : h ++ (initial ++ (salt ++ c)) ≡ (h ++ (initial ++ salt)) ++ c =
      rw (append_assoc h (initial ++ salt) c, append_assoc initial salt c) refl in
    rw regroup (
      take-append (h ++ (initial ++ salt)) c 80
        (omega (arith, length-append h (initial ++ salt), length-append initial salt)))

module _ (sha256 : Bytes → Bytes) (initial salt : Bytes)
    (out : (bs : Bytes) → length (sha256 bs) ≡ 32) (initial_length : length initial ≡ 32)
    (salt_length : length salt ≡ 16) where
  stretch_rounds-hash_chain :
      (todo i : ℕ) (h c : Bytes)
      → length h ≡ 32
      → stretch_rounds sha256 todo i (h ++ (initial ++ (salt ++ c))) h
        ≡ hash_chain sha256 initial salt todo i h
  unfolding stretch_rounds hash_chain
  stretch_rounds-hash_chain zero i h c l = refl
  stretch_rounds-hash_chain (suc todo) i h c l =
      let counter = le_bytes 8 i in
      let rest = initial ++ (salt ++ counter) in
      let next = sha256 (h ++ rest) in
      let joined : take 80 (h ++ (initial ++ (salt ++ c))) ++ counter ≡ h ++ rest =
        rw
          (
            front_of_buffer h initial salt c l initial_length salt_length,
            append_assoc h (initial ++ salt) counter,
            append_assoc initial salt counter,
          )
          refl in
      let first : take 32 (h ++ rest) ≡ h = take-append h rest 32 (omega arith) in
      let behind : drop 32 (h ++ rest) ≡ rest = drop-append h rest 32 (omega arith) in
      let whole : take 32 next ≡ next = take-all 32 next (omega (arith, out (h ++ rest))) in
      let copied : copy h next ≡ next =
        copy-same_length h next (omega (arith, l, out (h ++ rest))) in
      rw (joined, first, behind, whole, copied)
        (stretch_rounds-hash_chain todo (i + 1) next counter (out (h ++ rest)))

  -- With a hash of 32 bytes, an initial hash of 32 and a salt of 16, `StretchKey` gives the last hash of
  -- the chain, for any number of rounds: what a round leaves in its buffer does not leak into the next.
  pub stretch_key-hash_chain :
      (iterations : ℕ)
      → stretch_key sha256 initial salt iterations
        ≡ hash_chain sha256 initial salt iterations 0 (replicate 32 0)
  unfolding stretch_key
  stretch_key-hash_chain iterations =
      rw
        (
          copy-same_length (replicate 32 0) initial (omega (arith, initial_length)),
          copy-same_length (replicate 16 0) salt (omega (arith, salt_length)),
        )
        (stretch_rounds-hash_chain iterations 0 (replicate 32 0) (replicate 8 0) refl)
