-- ===== src/Bitlocker/Ccm/Blocks.antt =====
-- The blocks that RFC 3610 authenticates, and those of disk/Bitlocker/decryption/aes-ccm.go.
use file_system_forensics.Base.{
  ==_cases, Bool-cases, Bytes, [], ap, arith, drop, drop-append_le, if◌then◌else◌, inl, inr, length,
  length-append, length-drop, length-replicate, length-take, ltb, ltb_cases, refl, replicate, suc,
  sym, take, take-all, take-append_le, zero, ℕ, ◌%◌, ◌*◌, ◌++◌, ◌+◌, ◌-◌, ◌/◌, ◌<◌, ◌^◌, ◌∙◌, ◌∷◌,
  ◌≡◌, ◌≤◌,
}
use file_system_forensics.Bitlocker.Ccm.{be_bytes, encode_aad, first_block, pad_from, rounds, xor16}
use file_system_forensics.Bitlocker.Xts.Tweak.{xor_block-xored, xored}
use file_system_forensics.Go.{copy, copy_front}
use mathlib.Core.List.{append-nil, append_assoc}

abbrev pub zeros : ℕ → Bytes
zeros n = replicate n 0

-- A string of bytes filled up with zeros to whole blocks.
abbrev pub zero_fill : Bytes → Bytes
zero_fill bs = bs ++ zeros ((16 - length bs % 16) % 16)

-- The first block B_0 of RFC 3610 for a tag of 16 bytes and a length of the message in 3 bytes: the
-- flags, the nonce, and the length, most significant byte first.
abbrev pub b_0 : Bytes → Bytes → Bytes → Bytes
b_0 nonce aad message =
    ((if ltb 0 (length aad) then 64 else 0) + 8 * ((16 - 2) / 2) + (3 - 1))
    ∷ (nonce ++ (length message / 65536 ∷ length message / 256 % 256 ∷ length message % 256 ∷ []))

-- The additional data, if there is any, behind its length in 2 bytes, and filled up.
abbrev pub aad_blocks : Bytes → Bytes
aad_blocks aad =
    if ltb 0 (length aad) then zero_fill (length aad / 256 ∷ length aad % 256 ∷ aad) else []

-- The bytes that RFC 3610 authenticates, in whole blocks.
abbrev pub authenticated : Bytes → Bytes → Bytes → Bytes
authenticated nonce aad message = b_0 nonce aad message ++ (aad_blocks aad ++ zero_fill message)

-- The chain of CBC over n blocks: each is combined with what is there and encrypted.
unfoldable pub chain : (Bytes → Bytes) → ℕ → Bytes → Bytes → Bytes
chain encrypt zero x bs = x
chain encrypt (suc n) x bs = chain encrypt n (encrypt (xored x (take 16 bs))) (drop 16 bs)

pad_from-zeros :
    (n : ℕ) (bs : Bytes) → (16 - length bs % 16) % 16 ≤ n → pad_from n bs ≡ zero_fill bs
unfolding pad_from
pad_from-zeros zero bs h =
    let none_ : (16 - length bs % 16) % 16 ≡ 0 = omega arith in rw none_ (sym (append-nil bs))
pad_from-zeros (suc n) bs h = elim (==_cases (length bs % 16) 0) [
  | inl (whole, z) ↦
      let none_ : (16 - length bs % 16) % 16 ≡ 0 = omega arith in
      rw (whole, none_) (sym (append-nil bs))
  | inr (part, z) ↦
      let size : length (bs ++ (0 ∷ [])) ≡ length bs + 1 = length-append bs (0 ∷ []) in
      let left : (16 - length bs % 16) % 16 ≡ suc ((16 - length (bs ++ (0 ∷ [])) % 16) % 16) =
        omega (arith, z, size) in
      rw (part, left)
        (pad_from-zeros n (bs ++ (0 ∷ [])) (omega (arith, left))
          ∙ append_assoc bs (0 ∷ []) (zeros ((16 - length (bs ++ (0 ∷ [])) % 16) % 16)))
]

length-zeros : (n : ℕ) → length (zeros n) ≡ n
length-zeros n = let zero_byte : ℕ = 0 in length-replicate n zero_byte

pub length-zero_fill : (bs : Bytes) → length (zero_fill bs) ≡ rounds bs * 16
length-zero_fill bs = omega (
  arith,
  length-append bs (zeros ((16 - length bs % 16) % 16)),
  length-zeros ((16 - length bs % 16) % 16),
)

drop-zeros : (m n : ℕ) → drop m (zeros n) ≡ zeros (n - m)
drop-zeros zero n = ap zeros (omega arith)
drop-zeros (suc m) zero = let none_ : 0 ≡ 0 - suc m = omega arith in ap zeros none_
drop-zeros (suc m) (suc n) =
    let less : n - m ≡ suc n - suc m = omega arith in drop-zeros m n ∙ ap zeros less

pub length-xored : (a b : Bytes) → length a ≡ length b → length (xored a b) ≡ length a
length-xored [] [] e = refl
length-xored [] (y ∷ b) e = refl
length-xored (x ∷ a) [] e = absurd (omega arith)
length-xored (x ∷ a) (y ∷ b) e = ap suc (length-xored a b (omega arith))

pub xor16-xored : (a b : Bytes) → length a ≡ 16 → length b ≡ 16 → xor16 a b ≡ xored a b
unfolding xor16
xor16-xored a b l m =
    rw (take-all 16 a (omega arith), take-all 16 b (omega arith)) (xor_block-xored a b)

-- The block that one round takes: the bytes that are left, filled up.
pub next_block :
    (bs : Bytes) → 0 < length bs → (copy (zeros 16) (take 16 bs) ≡ take 16 (zero_fill bs))
next_block bs some_ =
    let front : copy (zeros 16) (take 16 bs) ≡ take 16 bs ++ zeros (16 - length (take 16 bs)) =
      copy_front (zeros 16) (take 16 bs) (omega (arith, length-take 16 bs))
      ∙ ap (λ (t : Bytes). take 16 bs ++ t) (drop-zeros (length (take 16 bs)) 16) in
    elim (ltb_cases (length bs) 16) [
      | inl (_, short) ↦
          let all : take 16 bs ≡ bs = take-all 16 bs (omega arith) in
          let pad : (16 - length bs % 16) % 16 ≡ 16 - length bs = omega arith in
          let size : length (bs ++ zeros (16 - length bs)) ≡ 16 =
            omega
              (arith, length-append bs (zeros (16 - length bs)), length-zeros (16 - length bs)) in
          rw pad (
            front
            ∙ ap (λ (t : Bytes). t ++ zeros (16 - length t)) all
            ∙ sym (take-all 16 (bs ++ zeros (16 - length bs)) (omega arith)))
      | inr (_, whole) ↦
          let none_ : 16 - length (take 16 bs) ≡ 0 = omega (arith, length-take 16 bs) in
          front
          ∙ ap (λ (k : ℕ). take 16 bs ++ zeros k) none_
          ∙ append-nil (take 16 bs)
          ∙ sym (take-append_le 16 bs (zeros ((16 - length bs % 16) % 16)) whole)
    ]

pub rest_filled : (bs : Bytes) → 16 ≤ length bs → drop 16 (zero_fill bs) ≡ zero_fill (drop 16 bs)
rest_filled bs h =
    let same : (16 - length bs % 16) % 16 ≡ (16 - length (drop 16 bs) % 16) % 16 =
      omega (arith, length-drop 16 bs) in
    rw (sym same) (drop-append_le 16 bs (zeros ((16 - length bs % 16) % 16)) h)

pub chain-append :
    (encrypt : Bytes → Bytes) (m n : ℕ) (x xs ys : Bytes)
    → length xs ≡ m * 16
    → chain encrypt (m + n) x (xs ++ ys) ≡ chain encrypt n (chain encrypt m x xs) ys
unfolding chain
chain-append encrypt zero n x [] ys l =
    let count : zero + n ≡ n = omega arith in ap (λ (k : ℕ). chain encrypt k x ys) count
chain-append encrypt zero n x (b ∷ xs) ys l = absurd (omega arith)
chain-append encrypt (suc m) n x xs ys l =
    let count : suc m + n ≡ suc (m + n) = omega arith in
    let round : Bytes → Bytes = λ b. encrypt (xored x b) in
    let head : take 16 (xs ++ ys) ≡ take 16 xs = take-append_le 16 xs ys (omega arith) in
    let tail : drop 16 (xs ++ ys) ≡ drop 16 xs ++ ys = drop-append_le 16 xs ys (omega arith) in
    ap (λ (k : ℕ). chain encrypt k x (xs ++ ys)) count
    ∙ ap (λ (b : Bytes). chain encrypt (m + n) (round b) (drop 16 (xs ++ ys))) head
    ∙ ap (λ (b : Bytes). chain encrypt (m + n) (round (take 16 xs)) b) tail
    ∙ chain-append encrypt m n (round (take 16 xs)) (drop 16 xs) ys
        (omega (arith, length-drop 16 xs))

-- A whole number of blocks is filled already.
pub filled : (bs : Bytes) → length bs % 16 ≡ 0 → zero_fill bs ≡ bs
filled bs h = let none_ : (16 - length bs % 16) % 16 ≡ 0 = omega arith in rw none_ (append-nil bs)

pub first_block-b_0 :
    (nonce aad message : Bytes)
    → length message < 2 ^ 24
    → first_block nonce aad message ≡ b_0 nonce aad message
unfolding first_block
first_block-b_0 nonce aad message fits =
    let high : length message / 65536 % 256 ≡ length message / 65536 = omega arith in
    let low : length message / 1 % 256 ≡ length message % 256 = omega arith in
    elim (Bool-cases (ltb 0 (length aad))) [
      | inl some_ ↦ rw (some_, high, low) refl
      | inr none_ ↦ rw (none_, high, low) refl
    ]

pub encode_aad-filled :
    (aad : Bytes)
    → length aad < 65280
    → encode_aad aad ≡ zero_fill (length aad / 256 ∷ length aad % 256 ∷ aad)
unfolding encode_aad
encode_aad-filled aad small =
    let high : length aad / 256 % 256 ≡ length aad / 256 = omega arith in
    let low : length aad / 1 % 256 ≡ length aad % 256 = omega arith in
    pad_from-zeros 16 (be_bytes 2 (length aad) ++ aad) (omega arith)
    ∙ ap (λ (h : ℕ). zero_fill (h ∷ length aad / 1 % 256 ∷ aad)) high
    ∙ ap (λ (h : ℕ). zero_fill (length aad / 256 ∷ h ∷ aad)) low

pub length-b_0 :
    (nonce aad message : Bytes) → length nonce ≡ 12 → length (b_0 nonce aad message) ≡ 16
length-b_0 nonce aad message l = omega (
  arith,
  length-append nonce
      (length message / 65536 ∷ length message / 256 % 256 ∷ length message % 256 ∷ []),
)

pub length-aad_blocks : (aad : Bytes) → length (aad_blocks aad) ≡ rounds (aad_blocks aad) * 16
length-aad_blocks aad = elim (Bool-cases (ltb 0 (length aad))) [
  | inl some_ ↦
      rw some_ (omega (arith, length-zero_fill (length aad / 256 ∷ length aad % 256 ∷ aad)))
  | inr none_ ↦ rw none_ refl
]
