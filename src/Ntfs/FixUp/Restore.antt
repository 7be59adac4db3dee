-- ===== src/Ntfs/FixUp/Restore.antt =====
-- What the fixup of an MFT record restores.
use file_system_forensics.Base.{
  Bool, Bool-cases, Bytes, [], zero, suc, drop, take, length, length-take, length-drop, inl, inr,
  if◌then◌else◌, ltb, ltb-false, get_or, refl, true, ◌&&◌, ◌==◌, ◌*◌, ◌/◌, ◌-◌, ◌%◌, ◌^◌, List,
  arith, false, get_elem?, get_elem?-append_le, get_elem?-set_ne, length-set, lt→ltb, set, some, ℕ,
  ◌+◌, ◌<◌, ◌∙◌, ◌∷◌, ◌≡◌, ◌≤◌,
}
use file_system_forensics.Go.{Slice, at, len, ok, put, subslice_width, ◌>>=◌}
use file_system_forensics.Ntfs.FixUp.{
  original_offsets, peek, process_fix_up_arrays, put_original, restore,
}

at_get : (s : Slice) (i v : ℕ) → get_elem? s.bytes i ≡ some v → at s i ≡ ok v
unfolding at
at_get s i v e = rw e

peek_get : (s : Slice) (i v : ℕ) → i < len s → get_elem? s.bytes i ≡ some v → peek s i ≡ ok v
unfolding peek
peek_get s i v h e = rw (get_elem?-append_le s.bytes s.spare i h, e)

put_within :
    (s : Slice) (i v : ℕ) → i < len s → put s i v ≡ ok (record s { bytes = set s.bytes i v })
unfolding put
put_within s i v h = rw (lt→ltb i (len s) h)

get_elem?-get_or : (bs : Bytes) (i : ℕ) → i < length bs → get_elem? bs i ≡ some (get_or bs i 0)
get_elem?-get_or [] i h = absurd (omega arith)
get_elem?-get_or (b ∷ bs) zero h = refl
get_elem?-get_or (b ∷ bs) (suc i) h = get_elem?-get_or bs i (omega arith)

-- The bytes of a record.
abbrev byte_at : Slice → ℕ → ℕ
byte_at s i = get_or s.bytes i 0

peek_byte : (s : Slice) (i : ℕ) → i < len s → peek s i ≡ ok (byte_at s i)
peek_byte s i h = peek_get s i (byte_at s i) h (get_elem?-get_or s.bytes i h)

at_byte : (s : Slice) (i : ℕ) → i < len s → at s i ≡ ok (byte_at s i)
at_byte s i h = at_get s i (byte_at s i) (get_elem?-get_or s.bytes i h)

-- The record after the fixup, and whether its first sector is marked as a mismatch: `offset` is where
-- the update sequence number stands, with the first original value behind it.
abbrev pub fixed : ℕ → Slice → Slice × Bool
fixed offset s =
    if byte_at s offset == byte_at s 510 && byte_at s (offset + 1) == byte_at s 511
    then (
      record s {
        bytes = set (set s.bytes 510 (byte_at s (offset + 2))) 511 (byte_at s (offset + 3));
      },
      false,
    )
    else (s, true)

module _ (s : Slice) (offset : ℕ) (before : offset + 4 ≤ 510) (sector : 512 ≤ len s)
    (more : List ℕ) where
  put_original_lem :
      put_original (record { signature = offset; original_values = (offset + 2) ∷ more }) s
      ≡ ok (
        record s {
          bytes = set (set s.bytes 510 (byte_at s (offset + 2))) 511 (byte_at s (offset + 3));
        },
        false,
      )
  unfolding put_original
  put_original_lem =
      let orig : ℕ = byte_at s (offset + 2) in
      let mid : Slice = record s { bytes = set s.bytes 510 orig } in
      let same : len mid ≡ len s = length-set s.bytes 510 orig in
      let there : offset + 2 + 1 ≡ offset + 3 = omega arith in
      let kept : get_elem? mid.bytes (offset + 2 + 1) ≡ some (byte_at s (offset + 3)) = rw there (
        get_elem?-set_ne s.bytes 510 (offset + 3) orig (omega arith)
        ∙ get_elem?-get_or s.bytes (offset + 3) (omega arith)) in
      rw
        (
          peek_byte s (offset + 2) (omega arith),
          put_within s 510 orig (omega arith),
          peek_get mid (offset + 2 + 1) (byte_at s (offset + 3)) (omega arith) kept,
          put_within mid 511 (byte_at s (offset + 3)) (omega arith),
        )
        refl

  restore-fixed :
      restore (record { signature = offset; original_values = (offset + 2) ∷ more }) s
      ≡ ok (fixed offset s)
  unfolding restore
  restore-fixed =
      let sig0 = peek_byte s offset (omega arith) in
      let sig1 = peek_byte s (offset + 1) (omega arith) in
      let b0 = at_byte s 510 (omega arith) in
      let b1 = at_byte s 511 (omega arith) in
      elim (Bool-cases (byte_at s offset == byte_at s 510)) [
        | inr other ↦ ground (arith, sig0, b0, other)
        | inl first ↦ elim (Bool-cases (byte_at s (offset + 1) == byte_at s 511)) [
          | inr other ↦ ground (arith, sig0, b0, first, sig1, b1, other)
          | inl second ↦ ground (arith, sig0, b0, first, sig1, b1, second, put_original_lem)
        ]
      ]

-- The fixup array of a record, of `m + 2` entries that lie before the end of the first sector, is
-- found without an error, and the check with it restores the last two bytes of the first sector from
-- the first original value where they carry the update sequence number, and else marks the record as
-- a mismatch. No other byte of the record changes: not the two bytes that end the second sector.
pub process_fix_up_arrays-fixed :
    (s : Slice) (offset m : ℕ)
    → offset + 2 * (m + 2) ≤ 510
    → 512 ≤ len s
    → (process_fix_up_arrays offset (m + 2) s >>= λ f. restore f s) ≡ ok (fixed offset s)
unfolding process_fix_up_arrays original_offsets
process_fix_up_arrays-fixed s offset m before sector =
    let n : ℕ = 2 * (m + 2) in
    let array : Bytes = take n (drop offset s.bytes) in
    let wide : length array ≡ n =
      omega (arith, length-take n (drop offset s.bytes), length-drop offset s.bytes) in
    let enough : ltb (len s) (n % 2 ^ 16) ≡ false = ltb-false (len s) (n % 2 ^ 16) (omega arith) in
    let end : (offset + n) % 2 ^ 16 ≡ offset + n = omega arith in
    let some_ : ltb 2 (length array) ≡ true = lt→ltb 2 (length array) (omega arith) in
    let count : length array / 2 - 1 ≡ suc m = omega arith in
    rw (enough, end, subslice_width s offset n (omega arith), some_, count)
      (restore-fixed s offset (omega arith) sector (original_offsets m (offset + 2 + 2)))
