-- ===== src/Bitlocker/Xts.antt =====
-- AES-XTS of disk/Bitlocker/decryption/aes-xts.go, and `xorBlock`. `aes.NewCipher` takes every key
-- of 16 and 32 bytes, the only ones that it gets here; `decrypt` and `encrypt` are its block cipher.
pub mod Tweak
pub mod RoundTrip
use file_system_forensics.Base.{
  Bytes, [], bit_or, bit_xor, drop, if◌then◌else◌, length, ltb, not, suc, take, zero, ℕ, ◌%◌, ◌&&◌,
  ◌*◌, ◌++◌, ◌-◌, ◌/◌, ◌==◌, ◌∷◌,
}
use file_system_forensics.Go.{Result, bad_key_length, bad_tweak_length, ciphertext_short, err, ok}

-- `xorBlock` on blocks of one length.
unfoldable pub xor_block : Bytes → Bytes → Bytes
xor_block [] bs = []
xor_block (a ∷ as') [] = []
xor_block (a ∷ as') (b ∷ bs) = bit_xor a b ∷ xor_block as' bs

-- The loop of `xtsMulByX`: the shifted bytes and the last carry.
unfoldable pub shift_left : ℕ → Bytes → Bytes × ℕ
shift_left carry [] = ([], carry)
shift_left carry (b ∷ bs) =
    let (rest, out) = shift_left (b / 128) bs in (bit_or (b * 2 % 256) carry ∷ rest, out)

unfoldable pub reduce : Bytes → Bytes
reduce [] = []
reduce (b ∷ bs) = bit_xor b 0x87 ∷ bs

unfoldable pub mul_by_x : Bytes → Bytes
mul_by_x tweak =
    let (shifted, carry) = shift_left 0 tweak in if ltb 0 carry then reduce shifted else shifted

module _ (decrypt encrypt : Bytes → Bytes → Bytes) where
  -- `decryptXTSBlock`.
  unfoldable pub decrypt_block : Bytes → Bytes → Bytes → Bytes
  decrypt_block key tweak ciphertext = xor_block (decrypt key (xor_block ciphertext tweak)) tweak

  -- The loop over the full blocks: the plaintext and the tweak after them.
  unfoldable pub decrypt_blocks : Bytes → ℕ → Bytes → Bytes → Bytes × Bytes
  decrypt_blocks key zero t ciphertext = ([], t)
  decrypt_blocks key (suc n) t ciphertext =
      let (later, t') = decrypt_blocks key n (mul_by_x t) (drop 16 ciphertext) in
      (decrypt_block key t (take 16 ciphertext) ++ later, t')

  -- The end of a ciphertext that is no whole number of blocks.
  unfoldable pub steal : Bytes → Bytes → Bytes → Bytes → ℕ → ℕ → Bytes
  steal key plaintext t ciphertext full_blocks remainder =
      let pre_final = take 16 (drop ((full_blocks - 1) * 16) ciphertext) in
      let c_last = drop (full_blocks * 16) ciphertext ++ drop remainder pre_final in
      plaintext ++ take remainder (decrypt_block key t c_last)

  -- `OpenXTS`.
  unfoldable pub open_xts : Bytes → Bytes → Bytes → Result Bytes
  open_xts key tweak ciphertext =
      if not (length key == 32) && not (length key == 64)
      then err bad_key_length
      else if not (length tweak == 16)
      then err bad_tweak_length
      else if ltb (length ciphertext) 16
      then err ciphertext_short
      else (let data_key = take (length key / 2) key in
          let tweak_key = drop (length key / 2) key in
          let full_blocks = length ciphertext / 16 in
          let (plaintext, t) =
            decrypt_blocks data_key full_blocks (encrypt tweak_key tweak) ciphertext in
          if length ciphertext % 16 == 0
          then ok plaintext
          else ok (steal data_key plaintext t ciphertext full_blocks (length ciphertext % 16)))

  -- `OpenXTS128`.
  unfoldable pub open_xts128 : Bytes → Bytes → Bytes → Result Bytes
  open_xts128 key tweak ciphertext =
      if not (length key == 32) then err bad_key_length else open_xts key tweak ciphertext
