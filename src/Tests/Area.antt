-- ===== src/Tests/Area.antt =====
-- Inputs for the area of the $MFT in disk/volume/ntfs.go.
use file_system_forensics.Base.{
  Bytes, List, Option, [], arith, inl, inr, none, refl, replicate, true, ℕ, ◌∷◌, ◌≡◌, ◌↔◌,
}
use file_system_forensics.Base.Int.{negsuc, pos, ℤ, ◌+ℤ◌}
use file_system_forensics.Go.{Error, full, ok}
use file_system_forensics.Ntfs.Area.{
  collect_mft_area, found, get_run_list, is_selected, max_uint32, process_mft,
}
use file_system_forensics.Ntfs.Area.Collected.{collect_mft_area-content_of}
use file_system_forensics.Ntfs.Area.Selected.{joined, process_mft-selected, selected_records}
use file_system_forensics.Ntfs.Area.Wanted.{IsWanted}
use file_system_forensics.Ntfs.Attribute.{Attribute, Header, non_resident}
use file_system_forensics.Ntfs.Content.Runwise.{OnDisk, stretch}
use file_system_forensics.Ntfs.Runs.{Run}
use file_system_forensics.Ntfs.Table.{MftTable, TableRecord, process_records_async}

abbrev numbered : ℕ → TableRecord
numbered entry = record {
  entry = entry;
  seq = 1;
  file_name_ref = none;
  linked_records_info = [];
  parent = none;
  linked_records = [];
  origin_linked_record = none;
}

-- The first byte is the number of the record.
abbrev parse_number : Bytes → TableRecord × Option Error
parse_number [] = (numbered 0, none)
parse_number (b ∷ bs) = (numbered b, none)

abbrev blank_table : MftTable
blank_table = record { records = numbered 0 ∷ numbered 0 ∷ []; non_valid_records = 0 }

abbrev raw_record : ℕ → Bytes
raw_record entry = entry ∷ replicate 1023 7

abbrev raw_records : List Bytes
raw_records = raw_record 0 ∷ raw_record 1 ∷ []

-- Only record 1 is asked for.
process_mft-selected_example :
    (process_mft parse_number blank_table
        (full (joined raw_records))
        (pos 1 ∷ [])
        (pos 0)
        max_uint32
      ≡ ok (process_records_async parse_number blank_table (raw_record 1 ∷ [])))
    × ((i : ℕ)
        → (is_selected (pos 1 ∷ []) (pos 0) max_uint32 i ≡ true)
          ↔ IsWanted (pos 1 ∷ []) (pos 0) max_uint32 (pos i))
unfolding selected_records is_selected found
process_mft-selected_example =
    process_mft-selected parse_number blank_table (full (joined raw_records)) raw_records
      (pos 1 ∷ []) (pos 0) max_uint32 refl (refl, (refl, tt)) refl (inl refl)

-- A disk of ten bytes, two of them before the partition, with clusters of two bytes.
abbrev small_disk : Bytes
small_disk = 90 ∷ 91 ∷ 10 ∷ 11 ∷ 20 ∷ 21 ∷ 30 ∷ 31 ∷ 40 ∷ 41 ∷ []

abbrev read_small : ℤ → ℕ → Bytes
read_small (pos o) n = stretch small_disk o n
read_small (negsuc o) n = []

-- The second run lies before the first.
abbrev mft_runs : List Run
mft_runs =
    record { offset = pos 2; length_cl = 2 } ∷ record { offset = negsuc 0; length_cl = 1 } ∷ []

abbrev header : ℕ → Header
header code = record { type_code = code; attr_len = 72; non_resident = 1; nlen = 0; name_off = 0 }

abbrev mft_attributes : List (Attribute Bytes)
mft_attributes =
    non_resident (header 0x80) (record {
      start_vcn = 0;
      last_vcn = 2;
      run_off = 64;
      actual_length = 6;
      run_list = mft_runs;
      run_list_total_len_cl = 3;
    })
    ∷ []

mft_attributes-runs : get_run_list mft_attributes ≡ ok mft_runs
unfolding get_run_list
mft_attributes-runs = refl

mft_runs-OnDisk : OnDisk small_disk 2 2 (pos 0) mft_runs
unfolding ◌+ℤ◌
mft_runs-OnDisk = (refl, inr (omega arith), (refl, inr (omega arith), tt))

-- Three clusters of a table of four.
collect_mft_area-content_of_example :
    collect_mft_area read_small (pos 2) 2 mft_attributes 4
    ≡ ok (30 ∷ 31 ∷ 40 ∷ 41 ∷ 20 ∷ 21 ∷ 0 ∷ 0 ∷ [])
unfolding ◌+ℤ◌
collect_mft_area-content_of_example =
    collect_mft_area-content_of small_disk 2 2 read_small (λ o n h. refl) mft_attributes mft_runs 4
      mft_attributes-runs mft_runs-OnDisk (refl, (refl, tt)) (omega arith)
