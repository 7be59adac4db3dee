-- ===== src/Ntfs/Table/Placed.antt =====
-- `ProcessRecordsAsync` of FS/NTFS/MFT/Table.go: every record stands at its own number.
use file_system_forensics.Base.{
  ==_cases, Bool-cases, Bytes, List, Option, [], ap, arith, get_elem?, get_elem?-set_ne,
  get_elem?-set_self, inl, inr, leb, length, length-set, none, refl, set, some, sym, ℕ, ◌∙◌, ◌∷◌,
  ◌≡◌, ◌⊎◌,
}
use file_system_forensics.Go.{Error}
use file_system_forensics.Ntfs.Table.{MftTable, TableRecord, mft_worker, process_records_async}
use file_system_forensics.Ntfs.Table.Workers.{mft_worker-cases, store}
use file_system_forensics.Utils.Layout.{size}

-- A place holds the record of its number, or what `AllocateRecordsTable` put there.
abbrev pub WellPlaced : TableRecord → MftTable → Type 0
WellPlaced blank t =
    (i : ℕ) (r : TableRecord) → get_elem? t.records i ≡ some r → (r.entry ≡ i) ⊎ (r ≡ blank)

same_entry : (q r : TableRecord) (i : ℕ) → q.entry ≡ i → some q ≡ some r → r.entry ≡ i
same_entry q r i here e =
    let entries : q.entry ≡ r.entry = ap (λ (o : Option TableRecord). entry_of o) e in
    sym entries ∙ here
  where
    entry_of : Option TableRecord → ℕ
    entry_of none = 0
    entry_of (some x) = x.entry

store-WellPlaced :
    (blank : TableRecord) (t : MftTable) (q : TableRecord)
    → WellPlaced blank t
    → WellPlaced blank (store t q)
store-WellPlaced blank t q h i r e = elim (Bool-cases (leb (length t.records) q.entry)) [
  | inl out ↦ h i r (rw out at e)
  | inr fits ↦ elim (==_cases q.entry i) [
    | inl (_, here) ↦
        let kept : get_elem? (set t.records q.entry q) i ≡ some r = rw fits at e in
        let found : get_elem? (set t.records q.entry q) i ≡ some q =
          rw (sym here) (get_elem?-set_self t.records q.entry q (ground (arith, fits))) in
        inl (same_entry q r i here (sym found ∙ kept))
    | inr (_, elsewhere) ↦
        let kept : get_elem? (set t.records q.entry q) i ≡ some r = rw fits at e in
        h i r (sym (get_elem?-set_ne t.records q.entry i q elsewhere) ∙ kept)
  ]
]

length-store : (t : MftTable) (q : TableRecord) → length (store t q).records ≡ length t.records
length-store t q = elim (Bool-cases (leb (length t.records) q.entry)) [
  | inl out ↦ rw out refl
  | inr fits ↦ rw fits (length-set t.records q.entry q)
]

module _ (process_data : Bytes → TableRecord × Option Error) (blank : TableRecord) where
  mft_worker-WellPlaced :
      (t : MftTable) (chunk : Bytes)
      → WellPlaced blank t
      → WellPlaced blank (mft_worker process_data t chunk)
        × (length (mft_worker process_data t chunk).records ≡ length t.records)
  mft_worker-WellPlaced t chunk h = elim (mft_worker-cases process_data chunk) [
    | inl x ↦ rw (x t) (h, refl)
    | inr (inl x) ↦ rw (x t) (h, refl)
    | inr (inr x) ↦
        rw (x t)
          (store-WellPlaced blank t (process_data chunk).0 h, length-store t (process_data chunk).0)
  ]

  -- Whatever the chunks and their order, `ProcessRecordsAsync` keeps the size of the table, and every
  -- place still holds a record of its own number or what was allocated there.
  pub process_records_async-WellPlaced :
      (chunks : List Bytes) (t : MftTable)
      → WellPlaced blank t
      → WellPlaced blank (process_records_async process_data t chunks)
        × (length (process_records_async process_data t chunks).records ≡ length t.records)
  unfolding process_records_async
  process_records_async-WellPlaced [] t h = (h, refl)
  process_records_async-WellPlaced (chunk ∷ rest) t h =
      let (placed, size) = mft_worker-WellPlaced t chunk h in
      let (all, whole) =
        process_records_async-WellPlaced rest (mft_worker process_data t chunk) placed in
      (all, whole ∙ size)
