-- ===== src/Ntfs/Table/Lookup.antt =====
-- `GetRecord` and `FindParentRecords` of FS/NTFS/MFT/Table.go.
use file_system_forensics.Base.{
  ==_cases, Bool-cases, List, Option-cases, arith, false, get_elem?, inl, inr, ltb, ltb_cases,
  ltb-false, refl, some, true, ℕ, ◌%◌, ◌+◌, ◌-◌, ◌<◌, ◌==◌, ◌^◌, ◌↔◌, ◌≡◌, ◌≤◌, ◌⊎◌,
}
use file_system_forensics.Go.{ok}
use file_system_forensics.Ntfs.Table.{TableRecord, get_record, judge}

-- The sequence number of a reference, or the one after it: the record may have been deleted since.
abbrev pub SeqMatches : ℕ → ℕ → Type 0
SeqMatches seq ref_seq = (seq % 2 ^ 16 ≡ ref_seq) ⊎ (seq % 2 ^ 16 ≡ (ref_seq + 1) % 2 ^ 16)

seq_difference :
    (seq ref_seq : ℕ)
    → ref_seq < 2 ^ 16
    → ltb 1 ((seq + 2 ^ 16 - ref_seq) % 2 ^ 16) ≡ false
    → SeqMatches seq ref_seq
seq_difference seq ref_seq h e =
    let d : (seq + 2 ^ 16 - ref_seq) % 2 ^ 16 ≤ 1 = ground (arith, e) in
    elim (ltb_cases 0 ((seq + 2 ^ 16 - ref_seq) % 2 ^ 16)) [
      | inl (_, one) ↦ inr (omega arith)
      | inr (_, none_) ↦ inl (omega arith)
    ]

seq_close :
    (seq ref_seq : ℕ)
    → ref_seq < 2 ^ 16
    → SeqMatches seq ref_seq
    → ltb 1 ((seq + 2 ^ 16 - ref_seq) % 2 ^ 16) ≡ false
seq_close seq ref_seq h (inl e) = ltb-false 1 ((seq + 2 ^ 16 - ref_seq) % 2 ^ 16) (omega arith)
seq_close seq ref_seq h (inr e) = ltb-false 1 ((seq + 2 ^ 16 - ref_seq) % 2 ^ 16) (omega arith)

module _ (records : List TableRecord) (ref_entry ref_seq : ℕ) (small : ref_seq < 2 ^ 16) where
  get_record_found :
      get_record records ref_entry ref_seq ≡ ok ref_entry
      → (r : TableRecord) × (get_elem? records ref_entry ≡ some r)
        × (r.entry ≡ ref_entry)
        × SeqMatches r.seq ref_seq
  unfolding get_record judge
  get_record_found e = elim (Option-cases (get_elem? records ref_entry)) [
    | inl missing ↦ absurd (ground (arith, missing))
    | inr (r, there) ↦ elim (==_cases r.entry ref_entry) [
      | inl (same, p) ↦ elim (Bool-cases (ltb 1 ((r.seq + 2 ^ 16 - ref_seq) % 2 ^ 16))) [
        | inl far ↦ absurd (ground (arith, there, same, far))
        | inr near ↦ (r, there, p, seq_difference r.seq ref_seq small near)
      ]
      | inr (other, p) ↦ absurd (ground (arith, there, other))
    ]
  ]

  get_record_back :
      (r : TableRecord)
      → get_elem? records ref_entry ≡ some r
      → r.entry ≡ ref_entry
      → SeqMatches r.seq ref_seq
      → get_record records ref_entry ref_seq ≡ ok ref_entry
  unfolding get_record judge
  get_record_back r there same seq =
      let equal : (r.entry == ref_entry) ≡ true = ground (arith, same) in
      rw (there, equal, seq_close r.seq ref_seq small seq) refl

  -- `GetRecord` gives the record asked for exactly where the table has that number at its own place,
  -- with the sequence number asked for or the one after it, as 16-bit numbers.
  pub get_record_iff : (get_record records ref_entry ref_seq ≡ ok ref_entry) ↔ (
      (r : TableRecord) × (get_elem? records ref_entry ≡ some r)
      × (r.entry ≡ ref_entry)
      × SeqMatches r.seq ref_seq)
  get_record_iff = (get_record_found, λ (r, there, same, seq). get_record_back r there same seq)
