-- ===== src/Bitlocker/Ccm.antt =====
-- AES-CCM of disk/Bitlocker/decryption/aes-ccm.go. Parameters: `aes.NewCipher`, as the block
-- encryption under a key or its error, and Go's counter mode.
pub mod Blocks
pub mod Mac
use file_system_forensics.Base.{
  Bytes, [], bit_or, drop, if◌then◌else◌, length, ltb, not, replicate, suc, take, zero, ℕ, ◌%◌,
  ◌++◌, ◌+◌, ◌-◌, ◌/◌, ◌==◌, ◌^◌, ◌∷◌,
}
use file_system_forensics.Bitlocker.Xts.{xor_block}
use file_system_forensics.Go.{
  Result, bad_key_length, bad_nonce_length, bad_tag_length, copy, crash, err, ok, ◌>>=◌,
}

-- `xor16`, on two blocks.
unfoldable pub xor16 : Bytes → Bytes → Bytes
xor16 a b = xor_block (take 16 a) (take 16 b)

-- The last n bytes of a number, most significant first.
abbrev pub be_bytes : ℕ → ℕ → Bytes
be_bytes zero v = []
be_bytes (suc n) v = v / 256 ^ n % 256 ∷ be_bytes n v

-- `B0`, for a nonce of 12 bytes: the flags of a 16-byte tag and a 3-byte length.
unfoldable pub first_block : Bytes → Bytes → Bytes → Bytes
first_block nonce aad message =
    (if ltb 0 (length aad) then bit_or 58 64 else 58) ∷ (nonce ++ be_bytes 3 (length message))

-- The loop that appends zeros up to a whole block; it takes at most 15 rounds.
unfoldable pub pad_from : ℕ → Bytes → Bytes
pad_from zero bs = bs
pad_from (suc n) bs = if length bs % 16 == 0 then bs else pad_from n (bs ++ (0 ∷ []))

-- The additional data behind its length, padded.
unfoldable pub encode_aad : Bytes → Bytes
encode_aad aad = pad_from 16 (be_bytes 2 (length aad) ++ aad)

-- The number of rounds of a loop over blocks.
abbrev pub rounds : Bytes → ℕ
rounds bs = (length bs + 15) / 16

module _ (encrypt : Bytes → Bytes) where
  -- One of the two loops over blocks: a short last block is filled up with zeros.
  unfoldable pub absorb : ℕ → Bytes → Bytes → Bytes
  absorb zero x bs = x
  absorb (suc n) x bs =
      absorb n (encrypt (xor16 x (copy (replicate 16 0) (take 16 bs)))) (drop 16 bs)

  unfoldable pub cbc_mac : Bytes → Bytes → Bytes → Result Bytes
  cbc_mac nonce aad message =
      if not (length nonce == 12)
      then err bad_nonce_length
      else (let x = encrypt (xor16 (replicate 16 0) (first_block nonce aad message)) in
          let b1 = encode_aad aad in
          let x' = if ltb 0 (length aad) then absorb (rounds b1) x b1 else x in
          ok (take 16 (absorb (rounds message) x' message)))

-- `GetExpectedTag`.
unfoldable pub get_expected_tag :
    (Bytes → Result (Bytes → Bytes)) → Bytes → Bytes → Bytes → Bytes → Bytes → Result Bytes
get_expected_tag new_cipher key nonce aad message tag =
    if not (length tag == 16)
    then err bad_tag_length
    else (new_cipher key >>= λ encrypt.
        if ltb 15 (length nonce)
        then crash
        else (let a0 =
              (256 + 14 - length nonce) % 256 ∷ (nonce ++ replicate (15 - length nonce) 0) in
            cbc_mac encrypt nonce aad message >>= λ x. ok (xor16 x (encrypt a0))))

-- `newCTR` with a nonce of 12 bytes, and `OpenCCM`.
unfoldable pub open_ccm :
    (Bytes → Result (Bytes → Bytes))
    → ((Bytes → Bytes) → Bytes → Bytes → Bytes)
    → Bytes
    → Bytes
    → Bytes
    → Result Bytes
open_ccm new_cipher counter_mode key ciphertext nonce =
    if not (length key == 32)
    then err bad_key_length
    else if not (length nonce == 12)
    then err bad_nonce_length
    else (new_cipher key >>= λ encrypt.
        ok (counter_mode encrypt (2 ∷ (nonce ++ be_bytes 3 0)) ciphertext))
