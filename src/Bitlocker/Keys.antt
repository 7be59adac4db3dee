-- ===== src/Bitlocker/Keys.antt =====
-- Keys from passwords and recovery keys, and the decryption of the key chain:
-- disk/Bitlocker/bitlocker.go. SHA-256, AES and its counter mode are parameters.
pub mod Stretch
pub mod Recovery
use file_system_forensics.Base.{
  Bytes, List, Option, [], drop, if◌then◌else◌, length, ltb, none, not, replicate, some, suc, take,
  zero, ℕ, ◌%◌, ◌*◌, ◌++◌, ◌+◌, ◌-◌, ◌/◌, ◌==◌, ◌^◌, ◌||◌, ◌∷◌,
}
use file_system_forensics.Base.Int.{negsuc, pos, signed, ℤ}
use file_system_forensics.Go.{Result, bad_digit, copy, crash, err, ok, ◌>>=◌}

-- The little-endian bytes of a number: `PutUint16` and `PutUint64`.
unfoldable pub le_bytes : ℕ → ℕ → Bytes
le_bytes zero v = []
le_bytes (suc n) v = v % 256 ∷ le_bytes n (v / 256)

-- `int(cu - '0')` after the test of the digit, and the accumulation in an int64 as its bit pattern.
unfoldable pub digits_value : List ℕ → ℕ → Result ℕ
digits_value [] value = ok value
digits_value (cu ∷ rest) value =
    if ltb cu 48 || ltb 57 cu
    then err bad_digit
    else digits_value rest ((value * 10 + (cu - 48)) % 2 ^ 64)

-- The tests and the division behind the digits of a group: `none` is the `break`; a negative
-- value, of too many digits, passes them with its quotient cut to 16 bits.
unfoldable pub group_word : ℕ → Option ℕ
group_word value = of_int (signed 64 value)
  where
    of_int : ℤ → Option ℕ
    of_int (pos n) =
        if not (n % 11 == 0) then none else if ltb 65535 (n / 11) then none else some (n / 11)
    of_int (negsuc n) =
        if not ((n + 1) % 11 == 0) then none else some ((2 ^ 16 - (n + 1) / 11 % 2 ^ 16) % 2 ^ 16)

-- `PutUint16(derivedKey[groupId*2:groupId*2+2], ...)`: a panic beyond the sixteenth byte.
unfoldable pub put_word : Bytes → ℕ → ℕ → Result Bytes
unfolding le_bytes
put_word key group_id v =
    if ltb (length key) (group_id * 2 + 2)
    then crash
    else ok (take (group_id * 2) key ++ (le_bytes 2 v ++ drop (group_id * 2 + 2) key))

-- The loop of `DeriveKeyFromRecoveryKey` over the groups between the dashes, each as its code
-- units.
unfoldable pub derive_from : List (List ℕ) → ℕ → Bytes → Result Bytes
unfolding digits_value
derive_from [] group_id key = ok key
derive_from (group ∷ rest) group_id key = digits_value group 0 >>= λ value.
    elim (group_word value) [
      | none ↦ ok key
      | some v ↦ put_word key group_id v >>= λ key'. derive_from rest (group_id + 1) key'
    ]

unfoldable pub derive_key_from_recovery_key : List (List ℕ) → Result Bytes
unfolding derive_from
derive_key_from_recovery_key groups = derive_from groups 0 (replicate 16 0)

module _ (sha256 : Bytes → Bytes) where
  -- The loop of `StretchKey`: `todo` rounds are left, `i` are done; `copy` overwrites the front of
  -- the buffer.
  unfoldable pub stretch_rounds : ℕ → ℕ → Bytes → Bytes → Bytes
  unfolding le_bytes copy
  stretch_rounds zero i buf last_hash = last_hash
  stretch_rounds (suc todo) i buf last_hash =
      let buf' : Bytes = take 80 buf ++ le_bytes 8 i in
      let hash : Bytes = sha256 buf' in
      stretch_rounds todo (i + 1) (copy (take 32 buf') (take 32 hash) ++ drop 32 buf') hash

  -- `StretchKey`: the buffer holds the last hash, the initial hash, the salt and the counter.
  unfoldable pub stretch_key : Bytes → Bytes → ℕ → Bytes
  unfolding stretch_rounds copy
  stretch_key initial_hash salt iterations =
      stretch_rounds iterations 0
        (replicate 32 0
          ++ (copy (replicate 32 0) initial_hash ++ (copy (replicate 16 0) salt ++ replicate 8 0)))
        (replicate 32 0)
