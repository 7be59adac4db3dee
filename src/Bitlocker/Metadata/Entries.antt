-- ===== src/Bitlocker/Metadata/Entries.antt =====
-- The entries of a metadata block (`ParseEntries` of disk/Bitlocker/metadata.go): the parse ends.
use file_system_forensics.Base.{
  Option-cases, arith, false, inl, inr, ltb_cases, suc, zero, ℕ, ◌+◌, ◌-◌, ◌<◌, ◌==◌, ◌≡◌, ◌≢◌,
}
use file_system_forensics.Bitlocker.Datums.{
  Datums, append_datum, create_datum, no_datums, process_datum_header,
}
use file_system_forensics.Bitlocker.Datums.Nesting.{
  create_datum-ends, process_datum_header-ne-stuck, process_datum_header-size, subslice-length,
}
use file_system_forensics.Bitlocker.Metadata.{
  block_entries, choose_header, metadata_version, parse_entries,
}
use file_system_forensics.Go.{
  Result-cases, Slice, bind-ne-stuck, err-ne-stuck, ite_ne_stuck, len, ok-ne-stuck, stuck,
  subslice-ne-stuck, subslice_inside, suffix,
}
use file_system_forensics.Structures.Bitlocker.{fve_metadata_header}
use file_system_forensics.Utils.Layout.Ends.{unmarshal-ne-stuck}
use file_system_forensics.Utils.Unmarshal.{Parsed, Struct, get_num}

block_entries-ne-stuck :
    (depth fuel : ℕ) (raw : Slice) (off : ℕ) (found : Datums)
    → len raw < depth
    → len raw - off < fuel
    → block_entries depth fuel raw off found ≢ stuck
unfolding block_entries
block_entries-ne-stuck depth zero raw off found deep h e = absurd (omega arith)
block_entries-ne-stuck depth (suc fuel) raw off found deep h e = elim (ltb_cases off (len raw)) [
  | inr (c, _) ↦ ground (arith, c, e)
  | inl (c, below) ↦ elim (Result-cases (suffix raw off)) [
    | inr ends ↦ ground (arith, c, ends, subslice-ne-stuck raw off (len raw))
    | inl (rest, r) ↦ elim (Result-cases (process_datum_header rest)) [
      | inr ends ↦ ground (arith, c, r, ends, process_datum_header-ne-stuck rest)
      | inl (header, d) ↦
          let size = get_num "EntrySize" header in
          let (least, most) = process_datum_header-size rest header d in
          let left = subslice-length raw rest off (len raw) r (omega arith) (omega arith) in
          let z : (size == 0) ≡ false = ground (arith, least) in
          let (part, t) = subslice_inside raw (off + 8) (off + size) (omega arith) (omega arith) in
          let shorter =
            subslice-length raw part (off + 8) (off + size) t (omega arith) (omega arith) in
          elim (Result-cases (create_datum depth header part)) [
            | inr ends ↦
                ground
                  (arith, c, r, d, z, t, ends, create_datum-ends depth header part (omega arith))
            | inl (made, m) ↦ ground (
              arith,
              c,
              r,
              d,
              z,
              t,
              m,
              e,
              block_entries-ne-stuck depth fuel raw (off + size) (append_datum found made) deep
                  (omega arith),
            )
          ]
    ]
  ]
]

choose_header-ne-stuck : (version : ℕ) (p : Parsed) → choose_header version p ≢ stuck
unfolding choose_header
choose_header-ne-stuck version p h = elim (Option-cases p.error) [
  | inl e ↦ ground (arith, e, h)
  | inr (x, e) ↦ ground (arith, e, h)
]

-- Whatever a metadata block says, its parse ends: the loop over its entries takes at most a round
-- for each byte, and so does the loop over the entries nested in each master key, however deep.
pub parse_entries-ends : (header : Struct) (raw : Slice) → parse_entries header raw ≢ stuck
unfolding parse_entries
parse_entries-ends header raw = ite_ne_stuck _ _ _ (err-ne-stuck _) (
    ite_ne_stuck _ _ _ (ok-ne-stuck _) (
      bind-ne-stuck _ _ (subslice-ne-stuck raw 64 (len raw)) (λ rest _.
        bind-ne-stuck _ _ (unmarshal-ne-stuck rest fve_metadata_header) (λ p _.
          bind-ne-stuck _ _ (choose_header-ne-stuck (metadata_version rest.bytes) p)
            (λ (v1, v3, off) _.
              bind-ne-stuck _ _
                (block_entries-ne-stuck (suc (len raw)) (suc (len raw)) raw off no_datums
                  (omega arith) (omega arith))
                (λ ds _. ok-ne-stuck _))))))
