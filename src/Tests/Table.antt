-- ===== src/Tests/Table.antt =====
-- Inputs for FS/NTFS/MFT/Table.go.
use file_system_forensics.Base.{
  Bytes, List, Option, [], ap, arith, get_elem?, inl, length, map, none, some, suc, sym, zero, ℕ,
  ◌↔◌, ◌∷◌, ◌≡◌,
}
use file_system_forensics.Go.{Error, ok, record_is_zero}
use file_system_forensics.Ntfs.Table.{
  MftTable, TableRecord, find_parent_records, get_record, mft_worker, process_records_async,
}
use file_system_forensics.Ntfs.Table.Lookup.{SeqMatches, get_record_iff}
use file_system_forensics.Ntfs.Table.Parents.{find_parent_records-map, with_parent}
use file_system_forensics.Ntfs.Table.Placed.{WellPlaced, process_records_async-WellPlaced}
use file_system_forensics.Ntfs.Table.Workers.{mft_worker_comm}

abbrev plain_record : ℕ → ℕ → TableRecord
plain_record entry seq = record {
  entry = entry;
  seq = seq;
  file_name_ref = some (0, 1);
  linked_records_info = [];
  parent = none;
  linked_records = [];
  origin_linked_record = none;
}

abbrev two_records : List TableRecord
two_records = plain_record 0 1 ∷ plain_record 1 9 ∷ []

get_record_iff_example :
    (get_record two_records 1 8 ≡ ok 1)
    ↔ ((r : TableRecord) × (get_elem? two_records 1 ≡ some r) × (r.entry ≡ 1) × SeqMatches r.seq 8)
get_record_iff_example = get_record_iff two_records 1 8 (omega arith)

find_parent_records-map_example :
    find_parent_records two_records ≡ map (with_parent two_records) two_records
find_parent_records-map_example = find_parent_records-map two_records

-- A parser that takes the record's number from its first byte.
abbrev parse_entry : Bytes → TableRecord × Option Error
parse_entry [] = (plain_record 0 0, some record_is_zero)
parse_entry (b ∷ bs) = (plain_record b 1, none)

abbrev two_places : MftTable
two_places = record { records = two_records; non_valid_records = 0 }

mft_worker_comm_example :
    mft_worker parse_entry (mft_worker parse_entry two_places (0 ∷ [])) (1 ∷ [])
    ≡ mft_worker parse_entry (mft_worker parse_entry two_places (1 ∷ [])) (0 ∷ [])
mft_worker_comm_example =
    mft_worker_comm parse_entry two_places (0 ∷ []) (1 ∷ []) (λ e. absurd (omega (arith, e)))

abbrev entry_or_zero : Option TableRecord → ℕ
entry_or_zero none = 0
entry_or_zero (some r) = r.entry

two_places-WellPlaced : WellPlaced (plain_record 0 0) two_places
two_places-WellPlaced zero r e = inl (ap entry_or_zero (sym e))
two_places-WellPlaced (suc zero) r e = inl (ap entry_or_zero (sym e))
two_places-WellPlaced (suc (suc i)) r e = absurd cc

process_records_async-WellPlaced_example :
    WellPlaced
      (plain_record 0 0)
      (process_records_async parse_entry two_places ((1 ∷ []) ∷ (0 ∷ []) ∷ []))
    × (length (process_records_async parse_entry two_places ((1 ∷ []) ∷ (0 ∷ []) ∷ [])).records
        ≡ length two_places.records)
process_records_async-WellPlaced_example =
    process_records_async-WellPlaced parse_entry (plain_record 0 0) ((1 ∷ []) ∷ (0 ∷ []) ∷ [])
      two_places two_places-WellPlaced
