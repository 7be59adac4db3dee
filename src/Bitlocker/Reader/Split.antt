-- ===== src/Bitlocker/Reader/Split.antt =====
-- readers/reader_decrypting.go: what a read decrypts does not depend on how it is cut into sectors.
use file_system_forensics.Base.{
  ==_cases, Bytes, [], ap, arith, drop, drop-append, false, inl, inr, length, length-append,
  length-drop, length-take, refl, suc, sym, take, take-append, zero, ℕ, ◌%◌, ◌*◌, ◌++◌, ◌+◌, ◌-◌,
  ◌/◌, ◌<◌, ◌==◌, ◌∙◌, ◌∷◌, ◌≡◌, ◌≤◌,
}
use file_system_forensics.Bitlocker.Reader.{
  DecryptingReader, decrypt_sectors, decrypt_xts, sector_at, sector_count, tweak_of,
}
use file_system_forensics.Bitlocker.Xts.{
  decrypt_block, decrypt_blocks, mul_by_x, open_xts, xor_block,
}
use file_system_forensics.Bitlocker.Xts.Tweak.{length-mul_by_x, length-xor_block}
use file_system_forensics.Go.{Result, Result-cases, copy, crash, err, ok, stuck, ◌>>=◌}
use mathlib.Core.List.{append-nil}
use native.Mathlib.Nat.{add-div_left, add-mod_left, zero-div, zero-mod}

module _ (decrypt encrypt : Bytes → Bytes → Bytes)
    (length-decrypt : (key b : Bytes) → length b ≡ 16 → length (decrypt key b) ≡ 16)
    (length-encrypt : (key b : Bytes) → length b ≡ 16 → length (encrypt key b) ≡ 16) where
  length-decrypt_blocks :
      (key : Bytes) (n : ℕ) (t text : Bytes)
      → length t ≡ 16
      → n * 16 ≤ length text
      → (length (decrypt_blocks decrypt encrypt key n t text).0 ≡ n * 16)
        × (length (decrypt_blocks decrypt encrypt key n t text).1 ≡ 16)
  unfolding decrypt_blocks decrypt_block
  length-decrypt_blocks key zero t text ht h = (omega arith, ht)
  length-decrypt_blocks key (suc n) t text ht h =
      let first : length (take 16 text) ≡ 16 = omega (arith, length-take 16 text) in
      let inner : length (xor_block (take 16 text) t) ≡ 16 =
        length-xor_block (take 16 text) t (omega arith) ∙ first in
      let mid = length-decrypt key (xor_block (take 16 text) t) inner in
      let one : length (xor_block (decrypt key (xor_block (take 16 text) t)) t) ≡ 16 =
        length-xor_block (decrypt key (xor_block (take 16 text) t)) t (omega (arith, mid, ht))
        ∙ mid in
      let (l, tl) =
        length-decrypt_blocks key n (mul_by_x t) (drop 16 text) (length-mul_by_x t ∙ ht)
          (omega (arith, length-drop 16 text)) in
      (
        omega (
          arith,
          one,
          l,
          length-append (xor_block (decrypt key (xor_block (take 16 text) t)) t)
              (decrypt_blocks decrypt encrypt key n (mul_by_x t) (drop 16 text)).0,
        ),
        tl,
      )

  -- A decrypted sector of whole blocks has the length of the ciphertext.
  length-open_xts :
      (key tweak text out : Bytes)
      → length text % 16 ≡ 0
      → open_xts decrypt encrypt key tweak text ≡ ok out
      → length out ≡ length text
  unfolding open_xts
  length-open_xts key tweak text out w e = elim (==_cases (length tweak) 16) [
    | inl (_, tw) ↦
        let data_key : Bytes = take (length key / 2) key in
        let tweak_key : Bytes = drop (length key / 2) key in
        let blocks =
          length-decrypt_blocks data_key (length text / 16) (encrypt tweak_key tweak) text
            (length-encrypt tweak_key tweak tw) (omega arith) in
        ground (arith, blocks)
    | inr (f, _) ↦ ground (arith, f)
  ]

  copy_prefix : (xs ys zs : Bytes) → length zs ≡ length xs → copy (xs ++ ys) zs ≡ zs ++ ys
  unfolding copy
  copy_prefix [] [] [] h = refl
  copy_prefix [] (y ∷ ys) [] h = refl
  copy_prefix [] ys (z ∷ zs) h = absurd (omega arith)
  copy_prefix (x ∷ xs) ys [] h = absurd (omega arith)
  copy_prefix (x ∷ xs) ys (z ∷ zs) h =
      ap (λ (t : Bytes). z ∷ t) (copy_prefix xs ys zs (omega arith))

  module _ (dr : DecryptingReader) (whole : dr.sector_size % 16 ≡ 0)
      (positive : 0 < dr.sector_size) where
    -- One sector first, then the others.
    sectors_first :
        (n sector : ℕ) (a b : Bytes)
        → length a ≡ dr.sector_size
        → decrypt_sectors decrypt encrypt dr (suc n) sector (a ++ b) ≡ (
            open_xts decrypt encrypt dr.fvek (tweak_of sector) a >>= λ x.
            decrypt_sectors decrypt encrypt dr n (sector + 1) b >>= λ y. ok (x ++ y))
    unfolding decrypt_sectors
    sectors_first n sector a b l =
        let cut : take dr.sector_size (a ++ b) ≡ a = take-append a b dr.sector_size (sym l) in
        rw cut (elim (Result-cases (open_xts decrypt encrypt dr.fvek (tweak_of sector) a)) [
          | inl (x, e) ↦
              let lx : length x ≡ length a =
                length-open_xts dr.fvek (tweak_of sector) a x (rw l whole) e in
              let width : dr.sector_size ≡ length x = omega arith in
              rw
                (
                  e,
                  copy_prefix a b x lx,
                  take-append x b dr.sector_size width,
                  drop-append x b dr.sector_size width,
                )
                refl
          | inr (inl e) ↦ rw e refl
          | inr (inr (inl e)) ↦ rw e refl
          | inr (inr (inr (_, e))) ↦ rw e refl
        ])

    count_first :
        (n : ℕ)
        → sector_count (dr.sector_size + n) dr.sector_size ≡ suc (sector_count n dr.sector_size)
    unfolding sector_count
    count_first n =
        ground (arith, add-div_left n {k = dr.sector_size} positive, add-mod_left dr.sector_size n)

    sector_at_first :
        (offset : ℕ)
        → dr.partition_offset ≤ offset
        → sector_at dr offset ≡ ok ((offset - dr.partition_offset) / dr.sector_size)
    unfolding sector_at
    sector_at_first offset h = ground arith

    sector_at_next :
        (offset : ℕ)
        → dr.partition_offset ≤ offset
        → sector_at dr (offset + dr.sector_size)
          ≡ ok ((offset - dr.partition_offset) / dr.sector_size + 1)
    sector_at_next offset h =
        let e : offset + dr.sector_size - dr.partition_offset
            ≡ dr.sector_size + (offset - dr.partition_offset) =
          omega arith in
        rw
          (
            sector_at_first (offset + dr.sector_size) (omega arith),
            e,
            add-div_left (offset - dr.partition_offset) {k = dr.sector_size} positive,
          )
          refl

    none_left : sector_count 0 dr.sector_size ≡ 0
    unfolding sector_count
    none_left = ground (arith, zero-div dr.sector_size, zero-mod dr.sector_size)

    several :
        (offset : ℕ) (a b : Bytes)
        → dr.partition_offset ≤ offset
        → length a ≡ dr.sector_size
        → decrypt_xts decrypt encrypt dr offset (a ++ b) ≡ (
            open_xts decrypt encrypt dr.fvek
              (tweak_of ((offset - dr.partition_offset) / dr.sector_size))
              a
            >>= λ x.
                decrypt_sectors decrypt encrypt dr
                  (sector_count (length b) dr.sector_size)
                  ((offset - dr.partition_offset) / dr.sector_size + 1)
                  b
                >>= λ y. ok (x ++ y))
    unfolding decrypt_xts
    several offset a b h l =
        let some_bytes : (length (a ++ b) == 0) ≡ false = ground (arith, length-append a b) in
        let size : length (a ++ b) ≡ dr.sector_size + length b = omega (arith, length-append a b) in
        rw (some_bytes, sector_at_first offset h, size, count_first (length b))
          (sectors_first (sector_count (length b) dr.sector_size)
            ((offset - dr.partition_offset) / dr.sector_size) a b l)

    first_sector :
        (offset : ℕ) (a : Bytes)
        → dr.partition_offset ≤ offset
        → length a ≡ dr.sector_size
        → decrypt_xts decrypt encrypt dr offset a
          ≡ open_xts decrypt encrypt dr.fvek
              (tweak_of ((offset - dr.partition_offset) / dr.sector_size))
              a
    unfolding decrypt_sectors
    first_sector offset a h l =
        let opened =
          open_xts decrypt encrypt dr.fvek
            (tweak_of ((offset - dr.partition_offset) / dr.sector_size)) a in
        let alone = several offset a [] h l in
        (rw (append-nil a, none_left) at alone) ∙ nothing_behind opened
      where
        nothing_behind : (r : Result Bytes) → (r >>= λ x. ok (x ++ [])) ≡ r
        nothing_behind (ok x) = ap (λ (t : Bytes). ok t) (append-nil x)
        nothing_behind (err e) = refl
        nothing_behind crash = refl
        nothing_behind stuck = refl

    later_sectors :
        (offset : ℕ) (b : Bytes)
        → dr.partition_offset ≤ offset
        → decrypt_xts decrypt encrypt dr (offset + dr.sector_size) b
          ≡ decrypt_sectors decrypt encrypt dr
              (sector_count (length b) dr.sector_size)
              ((offset - dr.partition_offset) / dr.sector_size + 1)
              b
    unfolding decrypt_xts
    later_sectors offset [] h = unfold decrypt_sectors in (rw none_left refl)
    later_sectors offset (x ∷ b) h =
        let some_bytes : (length (x ∷ b) == 0) ≡ false = ground arith in
        rw (some_bytes, sector_at_next offset h) refl

    -- Decrypting a read of several sectors is decrypting its first sector and the others by themselves,
    -- from their own place, and putting them together; an error of a part is the error of the whole.
    pub decrypt_xts_split :
        (offset : ℕ) (a b : Bytes)
        → dr.partition_offset ≤ offset
        → length a ≡ dr.sector_size
        → decrypt_xts decrypt encrypt dr offset (a ++ b) ≡ (
            decrypt_xts decrypt encrypt dr offset a >>= λ x.
            decrypt_xts decrypt encrypt dr (offset + dr.sector_size) b >>= λ y. ok (x ++ y))
    decrypt_xts_split offset a b h l =
        rw (first_sector offset a h l, later_sectors offset b h) (several offset a b h l)
