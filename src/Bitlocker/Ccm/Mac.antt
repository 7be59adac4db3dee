-- ===== src/Bitlocker/Ccm/Mac.antt =====
-- `cbcMac` of disk/Bitlocker/decryption/aes-ccm.go against the CBC-MAC of RFC 3610.
use file_system_forensics.Base.{
  Bool-cases, Bytes, ap, arith, drop, if◌then◌else◌, inl, inr, length, length-append, length-drop,
  length-take, ltb, refl, suc, sym, take, take-all, true, zero, ℕ, ◌%◌, ◌*◌, ◌++◌, ◌+◌, ◌/◌, ◌<◌,
  ◌==◌, ◌^◌, ◌∙◌, ◌∷◌, ◌≡◌, ◌≤◌,
}
use file_system_forensics.Bitlocker.Ccm.{absorb, cbc_mac, encode_aad, first_block, rounds, xor16}
use file_system_forensics.Bitlocker.Xts.Tweak.{xored}
use file_system_forensics.Go.{copy, ok}
use file_system_forensics.Bitlocker.Ccm.Blocks.{
  aad_blocks, authenticated, b_0, chain, zero_fill, zeros, length-zero_fill, length-xored,
  xor16-xored, next_block, rest_filled, chain-append, filled, first_block-b_0, encode_aad-filled,
  length-b_0, length-aad_blocks,
}

module _ (encrypt : Bytes → Bytes)
    (encrypts_blocks : (b : Bytes) → length b ≡ 16 → length (encrypt b) ≡ 16) where
  length-round : (x b : Bytes) → length x ≡ 16 → length b ≡ 16 → length (encrypt (xored x b)) ≡ 16
  length-round x b l m = encrypts_blocks (xored x b) (length-xored x b (omega (arith, l, m)) ∙ l)

  length-chain :
      (n : ℕ) (x bs : Bytes)
      → length x ≡ 16
      → n * 16 ≤ length bs
      → length (chain encrypt n x bs) ≡ 16
  unfolding chain
  length-chain zero x bs l h = l
  length-chain (suc n) x bs l h =
      length-chain n (encrypt (xored x (take 16 bs))) (drop 16 bs)
        (length-round x (take 16 bs) l (omega (arith, length-take 16 bs)))
        (omega (arith, length-drop 16 bs))

  -- One round of the loops.
  same_round :
      (x bs : Bytes)
      → length x ≡ 16
      → 0 < length bs
      → encrypt (xor16 x (copy (zeros 16) (take 16 bs)))
        ≡ encrypt (xored x (take 16 (zero_fill bs)))
  same_round x bs l some_ =
      let block : Bytes = take 16 (zero_fill bs) in
      let wide : length block ≡ 16 =
        omega (arith, length-take 16 (zero_fill bs), length-zero_fill bs) in
      ap (λ (t : Bytes). encrypt (xor16 x t)) (next_block bs some_)
      ∙ ap encrypt (xor16-xored x block l wide)

  -- The loops of `cbcMac` over blocks.
  absorb-chain :
      (n : ℕ) (x bs : Bytes)
      → length x ≡ 16
      → rounds bs ≡ n
      → absorb encrypt n x bs ≡ chain encrypt n x (zero_fill bs)
  unfolding absorb chain
  absorb-chain zero x bs l r = refl
  absorb-chain (suc zero) x bs l r = same_round x bs l (omega arith)
  absorb-chain (suc (suc n)) x bs l r =
      let block : Bytes = take 16 (zero_fill bs) in
      let wide : length block ≡ 16 =
        omega (arith, length-take 16 (zero_fill bs), length-zero_fill bs) in
      let x' : Bytes = encrypt (xored x block) in
      ap (λ (t : Bytes). absorb encrypt (suc n) t (drop 16 bs)) (same_round x bs l (omega arith))
      ∙ absorb-chain (suc n) x' (drop 16 bs) (length-round x block l wide)
          (omega (arith, length-drop 16 bs))
      ∙ ap (chain encrypt (suc n) x') (sym (rest_filled bs (omega arith)))

  chain_one : (x b : Bytes) → length b ≡ 16 → chain encrypt 1 x b ≡ encrypt (xored x b)
  unfolding chain
  chain_one x b l = ap (λ (t : Bytes). encrypt (xored x t)) (take-all 16 b (omega arith))

  -- The additional data, where there is any.
  with_aad :
      (aad x : Bytes)
      → length x ≡ 16
      → length aad < 65280
      → (if ltb 0 (length aad)
          then absorb encrypt (rounds (encode_aad aad)) x (encode_aad aad)
          else x)
        ≡ chain encrypt (rounds (aad_blocks aad)) x (aad_blocks aad)
  unfolding chain
  with_aad aad x l small = elim (Bool-cases (ltb 0 (length aad))) [
    | inr none_ ↦ rw none_ refl
    | inl some_ ↦
        let text : Bytes = zero_fill (length aad / 256 ∷ length aad % 256 ∷ aad) in
        let same : encode_aad aad ≡ text = encode_aad-filled aad small in
        let whole : length text % 16 ≡ 0 =
          omega (arith, length-zero_fill (length aad / 256 ∷ length aad % 256 ∷ aad)) in
        rw (some_, same)
          (absorb-chain (rounds text) x text l refl
            ∙ ap (chain encrypt (rounds text) x) (filled text whole))
  ]

  -- For a nonce of 12 bytes, and a message and additional data whose lengths fit their fields, the tag
  -- is the CBC-MAC of RFC 3610: the chain of CBC, from a zero block, over the bytes that it
  -- authenticates, if the cipher gives blocks of 16 bytes.
  pub cbc_mac-authenticated :
      (nonce aad message : Bytes)
      → length nonce ≡ 12
      → length aad < 65280
      → length message < 2 ^ 24
      → cbc_mac encrypt nonce aad message
        ≡ ok (
            chain encrypt
              (length (authenticated nonce aad message) / 16)
              (zeros 16)
              (authenticated nonce aad message))
  unfolding cbc_mac
  cbc_mac-authenticated nonce aad message l small fits =
      let zero_block : Bytes = zeros 16 in
      let b0 : Bytes = b_0 nonce aad message in
      let middle : Bytes = aad_blocks aad in
      let filled_message : Bytes = zero_fill message in
      let w0 : length b0 ≡ 16 = length-b_0 nonce aad message l in
      let wm : length middle ≡ rounds middle * 16 = length-aad_blocks aad in
      let wt : length filled_message ≡ rounds message * 16 = length-zero_fill message in
      let first : Bytes = encrypt (xored zero_block b0) in
      let second : Bytes = chain encrypt (rounds middle) first middle in
      let lf : length first ≡ 16 = length-round zero_block b0 refl w0 in
      let ls : length second ≡ 16 = length-chain (rounds middle) first middle lf (omega arith) in
      let third : Bytes = chain encrypt (rounds message) second filled_message in
      let lt : length third ≡ 16 =
        length-chain (rounds message) second filled_message ls (omega arith) in
      let count : length (b0 ++ (middle ++ filled_message)) / 16
          ≡ 1 + (rounds middle + rounds message) =
        omega (
          arith,
          length-append b0 (middle ++ filled_message),
          length-append middle filled_message,
        ) in
      let spec : chain encrypt (length (b0 ++ (middle ++ filled_message)) / 16) zero_block
            (b0 ++ (middle ++ filled_message))
          ≡ third =
        ap (λ (k : ℕ). chain encrypt k zero_block (b0 ++ (middle ++ filled_message))) count
        ∙ chain-append encrypt 1 (rounds middle + rounds message) zero_block b0
            (middle ++ filled_message) (omega (arith, w0))
        ∙ ap
            (λ (t : Bytes).
              chain encrypt (rounds middle + rounds message) t (middle ++ filled_message))
            (chain_one zero_block b0 w0)
        ∙ chain-append encrypt (rounds middle) (rounds message) first middle filled_message wm in
      let twelve : (length nonce == 12) ≡ true = rw l refl in
      let started : encrypt (xor16 zero_block (first_block nonce aad message)) ≡ first =
        ap (λ (t : Bytes). encrypt (xor16 zero_block t)) (first_block-b_0 nonce aad message fits)
        ∙ ap encrypt (xor16-xored zero_block b0 refl w0) in
      let ended : absorb encrypt (rounds message) second message ≡ third =
        absorb-chain (rounds message) second message ls refl in
      let whole : take 16 third ≡ third = take-all 16 third (omega (arith, lt)) in
      let last : ok (take 16 (absorb encrypt (rounds message) second message))
          ≡ ok (
              chain encrypt (length (authenticated nonce aad message) / 16) zero_block
                (authenticated nonce aad message)) =
        ap (λ (t : Bytes). ok (take 16 t)) ended ∙ ap ok whole ∙ sym (ap ok spec) in
      rw (twelve, started, with_aad aad first lf small) last
