-- ===== src/Ntfs/Table.antt =====
-- The table of records of FS/NTFS/MFT/Table.go. A pointer to a record of the table is its index;
-- `Process` of a record is the parameter of the worker, and gives the record as it stands together
-- with its error.
pub mod Lookup
pub mod Parents
pub mod Workers
pub mod Placed
use file_system_forensics.Base.{
  Bool, Bytes, List, Option, [], false, get_elem?, if◌then◌else◌, leb, length, ltb, none, not, set,
  some, suc, true, zero, ℕ, ◌%◌, ◌++◌, ◌+◌, ◌-◌, ◌==◌, ◌^◌, ◌∷◌,
}
use file_system_forensics.Go.{
  Error, Result, corrupt_record, err, not_valid_record, ok, parent_reallocated, record_not_found,
  ◌>>=◌,
}

-- What the table's operations use of a record: its number and sequence, the parent's number and
-- sequence in its FileName attribute, the records of its attribute list, and the pointers.
pub record TableRecord : Type 0 where
  pub entry : ℕ
  pub seq : ℕ
  pub file_name_ref : Option (ℕ × ℕ)
  pub linked_records_info : List (ℕ × ℕ)
  pub parent : Option ℕ
  pub linked_records : List ℕ
  pub origin_linked_record : Option ℕ

pub record MftTable : Type 0 where
  pub records : List TableRecord
  pub non_valid_records : ℕ

abbrev pub or_not_found : Option TableRecord → Result TableRecord
or_not_found none = err record_not_found
or_not_found (some r) = ok r

-- The tests of `GetRecord` on the record at the place: the sequence numbers are uint16, so their
-- difference wraps.
unfoldable pub judge : ℕ → ℕ → TableRecord → Result ℕ
judge referenced_entry referenced_seq r =
    if not (r.entry == referenced_entry)
    then err record_not_found
    else if ltb 1 ((r.seq + 2 ^ 16 - referenced_seq) % 2 ^ 16)
    then err parent_reallocated
    else ok referenced_entry

-- `GetRecord`.
unfoldable pub get_record : List TableRecord → ℕ → ℕ → Result ℕ
get_record records referenced_entry referenced_seq =
    or_not_found (get_elem? records referenced_entry) >>= judge referenced_entry referenced_seq

abbrev pub update : List TableRecord → ℕ → (TableRecord → TableRecord) → List TableRecord
update [] i f = []
update (r ∷ rs) zero f = f r ∷ rs
update (r ∷ rs) (suc i) f = r ∷ update rs i f

abbrev pub set_parent : TableRecord → Result ℕ → TableRecord
set_parent r (ok i) = record r { parent = some i }
set_parent r _ = r

abbrev pub parent_by : List TableRecord → TableRecord → Option (ℕ × ℕ) → TableRecord
parent_by records r none = r
parent_by records r (some (par_ref, par_seq)) =
    set_parent r (get_record records (par_ref % 2 ^ 32) par_seq)

-- One round of `FindParentRecords`: `uint32(fnattr.ParRef)` drops the upper bits.
unfoldable pub find_parent : List TableRecord → TableRecord → TableRecord
find_parent records r = parent_by records r r.file_name_ref

-- The loop of `FindParentRecords`: `idx` counts up, `n` rounds are left.
unfoldable pub find_parents_from : ℕ → ℕ → List TableRecord → List TableRecord
find_parents_from zero idx records = records
find_parents_from (suc n) idx records =
    find_parents_from n (idx + 1) (update records idx (find_parent records))

unfoldable pub find_parent_records : List TableRecord → List TableRecord
find_parent_records records = find_parents_from (length records) 0 records

-- One round of `CreateLinkedRecords`, for one entry of the attribute list of record `idx`.
unfoldable pub link_record : ℕ → ℕ → List TableRecord → ℕ × ℕ → List TableRecord
link_record idx entry records (ref_entry, ref_seq) =
    if entry == ref_entry then records else elim (get_record records ref_entry ref_seq) [
      | ok i ↦
          update (update records i (λ r. record r { origin_linked_record = some idx })) idx
            (λ r. record r { linked_records = r.linked_records ++ (i ∷ []) })
      | _ ↦ records
    ]

-- The links of one record, in the order of its attribute list.
unfoldable pub link_records_of : ℕ → ℕ → List (ℕ × ℕ) → List TableRecord → List TableRecord
link_records_of idx entry [] records = records
link_records_of idx entry (info ∷ infos) records =
    link_records_of idx entry infos (link_record idx entry records info)

-- The loop of `CreateLinkedRecords`: `idx` counts up, `n` rounds are left.
unfoldable pub create_linked_from : ℕ → ℕ → List TableRecord → List TableRecord
create_linked_from zero idx records = records
create_linked_from (suc n) idx records = elim (get_elem? records idx) [
  | none ↦ records
  | some r ↦
      create_linked_from n (idx + 1) (link_records_of idx r.entry r.linked_records_info records)
]

unfoldable pub create_linked_records : List TableRecord → List TableRecord
create_linked_records records = create_linked_from (length records) 0 records

abbrev pub is_not_valid : Option Error → Bool
is_not_valid (some corrupt_record) = true
is_not_valid (some not_valid_record) = true
is_not_valid _ = false

-- `MFTWorker`: two errors count as records that are not valid, any other goes on with the record.
-- `process_data` stands for `Process` where it returns: a panic in a worker ends the program. The
-- counter is added to by one worker at a time, while in the program two may lose an addition.
module _ (process_data : Bytes → TableRecord × Option Error) where
  unfoldable pub mft_worker : MftTable → Bytes → MftTable
  mft_worker t chunk =
      let (r, error) = process_data chunk in
      if length chunk == 0
      then t
      else if is_not_valid error
      then record t { non_valid_records = t.non_valid_records + 1 }
      else if leb (length t.records) r.entry
      then t
      else record t { records = set t.records r.entry r }

  -- `ProcessRecordsAsync`: the workers in the order in which they come to run.
  unfoldable pub process_records_async : MftTable → List Bytes → MftTable
  process_records_async t [] = t
  process_records_async t (chunk ∷ rest) = process_records_async (mft_worker t chunk) rest
