-- ===== src/Ntfs/AttrList.antt =====
-- The attribute list of FS/NTFS/MFT/attributes/attrlist.go: `AttributeListEntries.Parse` and
-- `GetLinkedRecordsInfo`. All offsets are uint16.
pub mod Entries
use file_system_forensics.Base.{
  Bool, Bytes, List, Option, [], false, if◌then◌else◌, ltb, none, some, suc, true, zero, ℕ, ◌%◌,
  ◌&&◌, ◌*◌, ◌++◌, ◌+◌, ◌==◌, ◌^◌, ◌||◌, ◌∷◌,
}
use file_system_forensics.Go.{Result, Slice, len, ok, stuck, subslice, ◌>>=◌}
use file_system_forensics.Structures.Ntfs.{attribute_list}
use file_system_forensics.Utils.Endian.{remove_nulls}
use file_system_forensics.Utils.Unmarshal.{Struct, get_num, unmarshal}

-- AttributeList.
pub record ListEntry : Type 0 where
  pub fields : Struct
  pub name : Bytes

-- One round up to the append: `none` is the `break` on a name that exceeds the s.
unfoldable pub list_entry_at : Slice → ℕ → Result (Option ListEntry)
list_entry_at s attr_len = subslice s attr_len ((attr_len + 24) % 2 ^ 16) >>= λ head.
    unmarshal head attribute_list >>= λ p.
    let start = (attr_len + get_num "Nameoffset" p.members) % 2 ^ 16 in
    let end = (start + 2 * get_num "Namelen" p.members) % 2 ^ 16 in
    if ltb (len s % 2 ^ 16) end
    then ok none
    else (subslice s start end >>= λ raw.
        ok (some (record { fields = p.members; name = remove_nulls raw.bytes })))

abbrev pub entry_len : ListEntry → ℕ
entry_len e = get_num "Len" e.fields

-- The two tests behind the append, on the length of the entry and the offset after it.
unfoldable pub ends_list : ℕ → ℕ → Bool
ends_list next l = next == 0 || l == 0 || ltb l 24 || ltb 4096 l

-- The test of the loop; the second part keeps the sum below 2 ^ 16.
unfoldable pub has_more : Slice → ℕ → Bool
has_more s attr_len = ltb ((24 + attr_len) % 2 ^ 16) (len s % 2 ^ 16) && ltb attr_len 65511

-- `AttributeListEntries.Parse`, its loop with fuel.
unfoldable pub parse_list : ℕ → Slice → ℕ → List ListEntry → Result (List ListEntry)
parse_list zero s attr_len entries = stuck
parse_list (suc fuel) s attr_len entries = elim (has_more s attr_len) [
  | false ↦ ok entries
  | true ↦ list_entry_at s attr_len >>= elim [
    | none ↦ ok entries
    | some e ↦ elim (ends_list ((attr_len + entry_len e) % 2 ^ 16) (entry_len e)) [
      | true ↦ ok (entries ++ (e ∷ []))
      | false ↦ parse_list fuel s ((attr_len + entry_len e) % 2 ^ 16) (entries ++ (e ∷ []))
    ]
  ]
]

-- LinkedRecordInfo.
pub record LinkedRecord : Type 0 where
  pub ref_entry : ℕ
  pub ref_seq : ℕ
  pub start_vcn : ℕ

-- `GetLinkedRecordsInfo`: the entries that stand in another record, the reference cut to 32 bits.
unfoldable pub get_linked_records_info : ℕ → List ListEntry → List LinkedRecord
get_linked_records_info entry_id [] = []
get_linked_records_info entry_id (e ∷ rest) =
    if get_num "ParRef" e.fields == entry_id
    then get_linked_records_info entry_id rest
    else record {
      ref_entry = get_num "ParRef" e.fields % 2 ^ 32;
      ref_seq = get_num "ParSeq" e.fields;
      start_vcn = get_num "StartVcn" e.fields;
    }
      ∷ get_linked_records_info entry_id rest
