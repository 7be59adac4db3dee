-- ===== src/Bitlocker/Keys/Recovery.antt =====
-- `DeriveKeyFromRecoveryKey` (disk/Bitlocker/bitlocker.go) against the recovery key that a key of
-- 16 bytes is printed as: eight groups of six digits, each eleven times a 16-bit word.
use file_system_forensics.Base.{
  All, Bytes, List, [], ap, arith, drop, drop-append, drop-drop, false, length, length-append,
  length-replicate, ltb, ltb-false, map, refl, replicate, some, suc, sym, take, take-append, true,
  ℕ, ◌%◌, ◌*◌, ◌++◌, ◌+◌, ◌-◌, ◌/◌, ◌<◌, ◌==◌, ◌^◌, ◌∙◌, ◌∷◌, ◌≡◌, ◌≤◌,
}
use file_system_forensics.Base.Int.{pos, signed}
use file_system_forensics.Bitlocker.Keys.{
  derive_from, derive_key_from_recovery_key, digits_value, group_word, le_bytes, put_word,
}
use file_system_forensics.Bitlocker.Keys.Stretch.{length-le_bytes}
use file_system_forensics.Go.{ok}
use mathlib.Core.List.{append-nil, append_assoc, flatten}

abbrev digit : ℕ → ℕ
digit n = 48 + n % 10

-- The six decimal digits of a number, as code units.
unfoldable pub six_digits : ℕ → List ℕ
six_digits n =
    digit (n / 100000)
    ∷ digit (n / 10000)
    ∷ digit (n / 1000)
    ∷ digit (n / 100)
    ∷ digit (n / 10)
    ∷ digit n
    ∷ []

abbrev pub group_of : ℕ → List ℕ
group_of w = six_digits (11 * w)

abbrev pub IsWord : ℕ → Type 0
IsWord w = w < 65536

digits_value_step :
    (n value value' : ℕ) (rest : List ℕ)
    → value < 100000
    → value * 10 + n % 10 ≡ value'
    → digits_value (digit n ∷ rest) value ≡ digits_value rest value'
unfolding digits_value
digits_value_step n value value' rest k e =
    let a : ltb (digit n) 48 ≡ false = ltb-false _ _ (omega arith) in
    let b : ltb 57 (digit n) ≡ false = ltb-false _ _ (omega arith) in
    let c : (value * 10 + (digit n - 48)) % 2 ^ 64 ≡ value' = omega arith in rw (a, b, c) refl

digits_value-six_digits : (n : ℕ) → n < 1000000 → digits_value (six_digits n) 0 ≡ ok n
unfolding six_digits digits_value
digits_value-six_digits n h =
    let t5 : List ℕ = digit n ∷ [] in
    let t4 : List ℕ = digit (n / 10) ∷ t5 in
    let t3 : List ℕ = digit (n / 100) ∷ t4 in
    let t2 : List ℕ = digit (n / 1000) ∷ t3 in
    let t1 : List ℕ = digit (n / 10000) ∷ t2 in
    digits_value_step (n / 100000) 0 (n / 100000) t1 (omega arith) (omega arith)
    ∙ digits_value_step (n / 10000) (n / 100000) (n / 10000) t2 (omega arith) (omega arith)
    ∙ digits_value_step (n / 1000) (n / 10000) (n / 1000) t3 (omega arith) (omega arith)
    ∙ digits_value_step (n / 100) (n / 1000) (n / 100) t4 (omega arith) (omega arith)
    ∙ digits_value_step (n / 10) (n / 100) (n / 10) t5 (omega arith) (omega arith)
    ∙ digits_value_step n (n / 10) n [] (omega arith) (omega arith)

group_word-multiple : (w : ℕ) → IsWord w → group_word (11 * w) ≡ some w
unfolding group_word
group_word-multiple w h =
    let z : (11 * w % 11 == 0) ≡ true = ground arith in
    let q : 11 * w / 11 ≡ w = omega arith in
    let s : signed 64 (11 * w) ≡ pos (11 * w) = ground arith in
    let c : ltb 65535 w ≡ false = ltb-false _ _ (omega arith) in rw (s, z, q, c) refl

abbrev pub zeros : ℕ → Bytes
zeros n = replicate n 0

put_word-zeros :
    (key : Bytes) (id v k : ℕ)
    → length key ≡ id * 2
    → put_word (key ++ zeros (suc (suc k))) id v ≡ ok ((key ++ le_bytes 2 v) ++ zeros k)
unfolding put_word
put_word-zeros key id v k e =
    let all = key ++ zeros (suc (suc k)) in
    let l : length all ≡ id * 2 + (2 + k) =
      omega (
        arith,
        length-append key (zeros (suc (suc k))),
        length-replicate {A = ℕ} (suc (suc k)) 0,
      ) in
    let a : ltb (length all) (id * 2 + 2) ≡ false = ltb-false _ _ (omega arith) in
    let t : take (id * 2) all ≡ key =
      take-append key (zeros (suc (suc k))) (id * 2) (omega arith) in
    let d : drop (id * 2 + 2) all ≡ zeros k =
      sym (drop-drop (id * 2) 2 (id * 2 + 2) all refl)
      ∙ ap (drop 2) (drop-append key (zeros (suc (suc k))) (id * 2) (omega arith)) in
    rw (a, t, d, append_assoc key (le_bytes 2 v) (zeros k)) refl

derive_from-groups :
    (words : List ℕ) (id k m : ℕ) (key : Bytes)
    → length key ≡ id * 2
    → m ≡ 2 * length words + k
    → All IsWord words
    → derive_from (map group_of words) id (key ++ zeros m)
      ≡ ok ((key ++ flatten (map (le_bytes 2) words)) ++ zeros k)
unfolding derive_from flatten
derive_from-groups [] id k m key e n all =
    let z : m ≡ k = omega arith in rw (z, append-nil key) refl
derive_from-groups (w ∷ words) id k m key e n (i, all) =
    let more = 2 * length words + k in
    let n' : m ≡ suc (suc more) = omega arith in
    let key' : Bytes = key ++ le_bytes 2 w in
    let l : length key' ≡ (id + 1) * 2 =
      omega (arith, length-append key (le_bytes 2 w), length-le_bytes 2 w) in
    let value : digits_value (group_of w) 0 ≡ ok (11 * w) =
      digits_value-six_digits (11 * w) (omega (arith, i)) in
    let one : put_word (key ++ zeros m) id w ≡ ok (key' ++ zeros more) =
      rw n' (put_word-zeros key id w more e) in
    ground (
      arith,
      value,
      group_word-multiple w i,
      one,
      derive_from-groups words (id + 1) k more key' l refl all,
      append_assoc key (le_bytes 2 w) (flatten (map (le_bytes 2) words)),
    )

-- The groups of a recovery key, each six digits that spell eleven times a 16-bit word, give back the
-- little-endian bytes of the words, at most eight of them, and zeros for those that are missing.
pub derive_key-groups :
    (words : List ℕ)
    → length words ≤ 8
    → All IsWord words
    → derive_key_from_recovery_key (map group_of words)
      ≡ ok (flatten (map (le_bytes 2) words) ++ zeros (16 - 2 * length words))
unfolding derive_key_from_recovery_key
derive_key-groups words few all =
    let k = 16 - 2 * length words in derive_from-groups words 0 k 16 [] refl (omega arith) all
