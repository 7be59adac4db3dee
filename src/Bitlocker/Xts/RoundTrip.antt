-- ===== src/Bitlocker/Xts/RoundTrip.antt =====
-- `OpenXTS` of disk/Bitlocker/decryption/aes-xts.go against the encryption of AES-XTS.
use file_system_forensics.Base.{
  All, Bytes, [], arith, drop, drop-append, false, inl, inr, length, length-append, length-drop,
  length-take, ltb, ltb-false, not, refl, suc, sym, take, take-append, take-append-drop, true, zero,
  ℕ, ◌%◌, ◌&&◌, ◌*◌, ◌++◌, ◌/◌, ◌==◌, ◌∷◌, ◌≡◌, ◌⊎◌,
}
use file_system_forensics.Bitlocker.Xts.{decrypt_block, decrypt_blocks, open_xts, xor_block}
use file_system_forensics.Go.{ok}
use file_system_forensics.Utils.Endian.{IsByte}
use file_system_forensics.Bitlocker.Xts.Tweak.{
  IsBlock, drop-All, mul_by_x-IsBlock, mul_by_x-next_tweak, next_tweak, take-All, xor_block-IsBlock,
  xor_block-xored, xor_block_twice, xored,
}

next_tweak-IsBlock : (t : Bytes) → IsBlock t → IsBlock (next_tweak t)
next_tweak-IsBlock t h = rw (sym (mul_by_x-next_tweak t h)) (mul_by_x-IsBlock t h)

xored-IsBlock : (a b : Bytes) → IsBlock a → IsBlock b → IsBlock (xored a b)
xored-IsBlock a b h k = rw (sym (xor_block-xored a b)) (xor_block-IsBlock a b h k)

module _ (decrypt encrypt : Bytes → Bytes → Bytes)
    (encrypt-IsBlock : (key b : Bytes) → IsBlock b → IsBlock (encrypt key b))
    (decrypt-encrypt : (key b : Bytes) → IsBlock b → decrypt key (encrypt key b) ≡ b) where
  -- The encryption of whole blocks in AES-XTS, IEEE 1619: block j is combined with the encrypted tweak
  -- times x ^ j before and after its own encryption.
  abbrev pub encrypt_block : Bytes → Bytes → Bytes → Bytes
  encrypt_block key t text = xored (encrypt key (xored text t)) t

  abbrev pub encrypt_blocks : Bytes → ℕ → Bytes → Bytes → Bytes
  encrypt_blocks key zero t text = []
  encrypt_blocks key (suc n) t text =
      encrypt_block key t (take 16 text) ++ encrypt_blocks key n (next_tweak t) (drop 16 text)

  abbrev pub encrypt_xts : Bytes → Bytes → Bytes → Bytes
  encrypt_xts key tweak text =
      encrypt_blocks (take (length key / 2) key) (length text / 16)
        (encrypt (drop (length key / 2) key) tweak) text

  block_back :
      (key t b : Bytes)
      → IsBlock t
      → IsBlock b
      → decrypt_block decrypt encrypt key t (encrypt_block key t b) ≡ b
  unfolding decrypt_block
  block_back key t b ht hb =
      let inner : Bytes = xor_block b t in
      let hi : IsBlock inner = xor_block-IsBlock b t hb ht in
      let he : IsBlock (encrypt key inner) = encrypt-IsBlock key inner hi in
      rw
        (
          sym (xor_block-xored b t),
          sym (xor_block-xored (encrypt key inner) t),
          xor_block_twice (encrypt key inner) t (omega (arith, he.0, ht.0)) he.1 ht.1,
          decrypt-encrypt key inner hi,
          xor_block_twice b t (omega (arith, hb.0, ht.0)) hb.1 ht.1,
        )
        refl

  encrypt_block-IsBlock :
      (key t b : Bytes) → IsBlock t → IsBlock b → IsBlock (encrypt_block key t b)
  encrypt_block-IsBlock key t b ht hb =
      xored-IsBlock _ t (encrypt-IsBlock key _ (xored-IsBlock b t hb ht)) ht

  length-encrypt_blocks :
      (key : Bytes) (n : ℕ) (t text : Bytes)
      → IsBlock t
      → length text ≡ n * 16
      → All IsByte text
      → length (encrypt_blocks key n t text) ≡ n * 16
  length-encrypt_blocks key zero t text ht l h = omega arith
  length-encrypt_blocks key (suc n) t text ht l h =
      let first : IsBlock (take 16 text) =
        (omega (arith, length-take 16 text), take-All 16 text h) in
      omega (
        arith,
        length-append (encrypt_block key t (take 16 text))
            (encrypt_blocks key n (next_tweak t) (drop 16 text)),
        (encrypt_block-IsBlock key t (take 16 text) ht first).0,
        length-encrypt_blocks key n (next_tweak t) (drop 16 text) (next_tweak-IsBlock t ht)
            (omega (arith, length-drop 16 text)) (drop-All 16 text h),
      )

  blocks_back :
      (key : Bytes) (n : ℕ) (t text : Bytes)
      → IsBlock t
      → length text ≡ n * 16
      → All IsByte text
      → (decrypt_blocks decrypt encrypt key n t (encrypt_blocks key n t text)).0 ≡ text
  unfolding decrypt_blocks
  blocks_back key zero t [] ht l h = refl
  blocks_back key zero t (b ∷ bs) ht l h = absurd (omega arith)
  blocks_back key (suc n) t text ht l h =
      let first : IsBlock (take 16 text) =
        (omega (arith, length-take 16 text), take-All 16 text h) in
      let one : Bytes = encrypt_block key t (take 16 text) in
      let rest : Bytes = encrypt_blocks key n (next_tweak t) (drop 16 text) in
      let width : 16 ≡ length one = sym (encrypt_block-IsBlock key t (take 16 text) ht first).0 in
      let later =
        blocks_back key n (next_tweak t) (drop 16 text) (next_tweak-IsBlock t ht)
          (omega (arith, length-drop 16 text)) (drop-All 16 text h) in
      rw
        (
          mul_by_x-next_tweak t ht,
          take-append one rest 16 width,
          drop-append one rest 16 width,
          block_back key t (take 16 text) ht first,
          later,
        )
        (take-append-drop 16 text)

  -- `OpenXTS` gives back every plaintext of whole blocks that AES-XTS of IEEE 1619 encrypted under the
  -- same key, of 32 or 64 bytes, and the same tweak, if AES decryption undoes AES encryption.
  pub open_xts-encrypt_xts :
      (key tweak text : Bytes) (n : ℕ)
      → (length key ≡ 32) ⊎ (length key ≡ 64)
      → IsBlock tweak
      → length text ≡ suc n * 16
      → All IsByte text
      → open_xts decrypt encrypt key tweak (encrypt_xts key tweak text) ≡ ok text
  unfolding open_xts
  open_xts-encrypt_xts key tweak text n k ht l h =
      let data_key : Bytes = take (length key / 2) key in
      let t : Bytes = encrypt (drop (length key / 2) key) tweak in
      let first : IsBlock t = encrypt-IsBlock (drop (length key / 2) key) tweak ht in
      let blocks : length text / 16 ≡ suc n = omega arith in
      let width : length (encrypt_blocks data_key (suc n) t text) ≡ suc n * 16 =
        length-encrypt_blocks data_key (suc n) t text first l h in
      let key_ok : (not (length key == 32) && not (length key == 64)) ≡ false = elim k [
        | inl e ↦ rw e refl
        | inr e ↦ rw e refl
      ] in
      let tweak_ok : (length tweak == 16) ≡ true = rw (ht.0) refl in
      let long : ltb (suc n * 16) 16 ≡ false = ltb-false (suc n * 16) 16 (omega arith) in
      let count : suc n * 16 / 16 ≡ suc n = omega arith in
      let whole : suc n * 16 % 16 ≡ 0 = omega arith in
      rw
        (
          key_ok,
          tweak_ok,
          blocks,
          width,
          long,
          whole,
          count,
          blocks_back data_key (suc n) t text first l h,
        )
        refl
