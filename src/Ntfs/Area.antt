-- ===== src/Ntfs/Area.antt =====
-- The area of the $MFT in disk/volume/ntfs.go: `CollectMFTArea` with `GetRunList` of MFT.go, and
-- `ProcessMFT`. The disk's `ReadFile` is a parameter, whose error the code drops, and sizes are
-- unbounded numbers.
pub mod Wanted
pub mod Selected
pub mod Collected
use file_system_forensics.Base.{
  Bool, Bytes, List, Option, [], drop, false, if◌then◌else◌, leb, length, ltb, not, replicate, set,
  suc, take, true, zero, ℕ, ◌&&◌, ◌*◌, ◌++◌, ◌+◌, ◌-◌, ◌/◌, ◌==◌, ◌^◌, ◌||◌, ◌∷◌,
}
use file_system_forensics.Base.Int.{ltb_ℤ, pos, ℤ, ◌*ℤ◌, ◌+ℤ◌, ◌==ℤ◌}
use file_system_forensics.Go.{
  Error, Result, Slice, copy, crash, err, len, no_attribute, no_runlist, ok, stuck, subslice, ◌>>=◌,
}
use file_system_forensics.Ntfs.Attribute.{Attribute, non_resident, resident}
use file_system_forensics.Ntfs.Runs.{Run}
use file_system_forensics.Ntfs.Table.{MftTable, TableRecord, process_records_async}

-- `GetRunList("DATA")`: the first attribute of that type has to be non-resident.
unfoldable pub get_run_list : {Body : Type 0} → List (Attribute Body) → Result (List Run)
get_run_list [] = err no_attribute
get_run_list (resident h r body ∷ rest) =
    let later = get_run_list rest in if h.type_code == 0x80 then err no_runlist else later
get_run_list (non_resident h n ∷ rest) =
    let later = get_run_list rest in if h.type_code == 0x80 then ok n.run_list else later

module _ (read_file : ℤ → ℕ → Bytes) (partition_offset : ℤ) (cluster_size : ℕ) where
  -- The loop of `CollectMFTArea`: run offsets add up, and each run is copied behind the one before.
  unfoldable pub collect_from : List Run → ℤ → ℕ → Bytes → Result Bytes
  collect_from [] offset read_data data_to_read = ok data_to_read
  collect_from (run ∷ runs) offset read_data data_to_read =
      let offset' = offset +ℤ run.offset in
      let to_read = run.length_cl * cluster_size in
      let got = read_file (partition_offset +ℤ (offset' *ℤ cluster_size)) to_read in
      elim (leb read_data (length data_to_read)) [
        | false ↦ crash
        | true ↦
            collect_from runs offset' (read_data + to_read)
              (take read_data data_to_read ++ copy (drop read_data data_to_read) got)
      ]

  -- `CollectMFTArea`, on the attributes of record 0 and the size of the table in clusters.
  unfoldable pub collect_mft_area : {Body : Type 0} → List (Attribute Body) → ℕ → Result Bytes
  collect_mft_area attributes size_cl = get_run_list attributes >>= λ runs.
      collect_from runs (pos 0) 0 (replicate (size_cl * cluster_size) 0)

abbrev pub record_size : ℕ
record_size = 1024

-- The search of `ProcessMFT` in the list of entries.
unfoldable pub found : ℤ → List ℤ → Bool
found selected_entry [] = false
found selected_entry (v ∷ arr) = v ==ℤ selected_entry || found selected_entry arr

-- The selection of `ProcessMFT`: no list, or in the list, and within the range.
unfoldable pub is_selected : List ℤ → ℤ → ℤ → ℕ → Bool
unfolding found
is_selected entries from_entry to_entry i = not (
    (not (found (pos i) entries) && ltb 0 (length entries))
    || ltb_ℤ to_entry (pos i)
    || ltb_ℤ (pos i) from_entry)

-- The loop of `ProcessMFT`: a part of a record at the end has no place among the records.
unfoldable pub select_from : ℕ → (ℕ → Bool) → Slice → ℕ → List Bytes → Result (List Bytes)
select_from zero selected area i records = stuck
select_from (suc fuel) selected area i records = elim (ltb i (len area)) [
  | false ↦ ok records
  | true ↦ elim (selected (i / record_size)) [
    | false ↦ select_from fuel selected area (i + record_size) records
    | true ↦ subslice area i (i + record_size) >>= λ chunk.
        elim (ltb (i / record_size) (length records)) [
          | false ↦ crash
          | true ↦
              select_from fuel selected area (i + record_size)
                (set records (i / record_size) chunk.bytes)
        ]
  ]
]

abbrev pub max_uint32 : ℤ
max_uint32 = pos (2 ^ 32 - 1)

-- `ProcessMFT`: the chunks go to the workers of the table without what is behind them. A round
-- takes a record, so the length of the data is fuel enough.
module _ (process_data : Bytes → TableRecord × Option Error) where
  unfoldable pub process_mft : MftTable → Slice → List ℤ → ℤ → ℤ → Result MftTable
  process_mft t area entries from_entry to_entry =
      let total = len area / record_size in
      if ltb_ℤ (pos total) from_entry
      then crash
      else if not (to_entry ==ℤ max_uint32) && ltb_ℤ (pos total) to_entry
      then crash
      else (select_from (suc (len area)) (is_selected entries from_entry to_entry) area 0
            (replicate total [])
          >>= λ chunks. ok (process_records_async process_data t chunks))
