-- ===== src/Ntfs/Index.antt =====
-- Index entries and their containers: FS/NTFS/MFT/attributes/indexroot.go and indexallocation.go.
-- A name is kept as its UTF-16 code units, which a library call decodes.
pub mod Sectors
pub mod Loops
use file_system_forensics.Base.{
  Bool, Bytes, List, Option, [], drop, false, if◌then◌else◌, leb, ltb, none, some, suc, take, true,
  zero, ℕ, ◌%◌, ◌&&◌, ◌*◌, ◌++◌, ◌+◌, ◌/◌, ◌==◌, ◌^◌, ◌||◌, ◌∷◌,
}
use file_system_forensics.Go.{
  Result, Slice, at, bad_fixup_count, bad_fixup_offset, crash, err, fixup_data_short, full,
  index_data_exceeded, len, no_indx_signature, ok, put, stuck, subslice, suffix, ◌>>=◌,
}
use file_system_forensics.Ntfs.Table.Workers.{count}
use file_system_forensics.Structures.Ntfs.{
  fn_attribute, index_allocation, index_entry, index_root, node_header,
}
use file_system_forensics.Utils.Endian.{code_units, le}
use file_system_forensics.Utils.Unmarshal.{Struct, get_num, get_nums, unmarshal}

-- FNAttribute with its name, as an entry holds it.
pub record FileName : Type 0 where
  pub fields : Struct
  pub fname : List ℕ

pub record IndexEntry : Type 0 where
  pub fields : Struct
  pub fnattr : Option FileName

-- `IndexEntry.Parse`: the errors of `Unmarshal` are dropped.
unfoldable pub parse_index_entry : Slice → Result IndexEntry
parse_index_entry s = unmarshal s index_entry >>= λ p.
    let content_len = get_num "ContentLen" p.members in
    let bare : IndexEntry = record { fields = p.members; fnattr = none } in
    if ltb 0 content_len && leb (16 + content_len) (len s % 2 ^ 32)
    then (subslice s 16 (16 + content_len) >>= λ content. unmarshal content fn_attribute >>= λ q.
        let name_end = 16 + 66 + 2 * get_num "Nlen" q.members in
        if ltb (len s % 2 ^ 32) name_end
        then ok bare
        else (subslice s (16 + 66) name_end >>= λ name. ok (record bare {
          fnattr = some (record { fields = q.members; fname = code_units name.bytes });
        })))
    else ok bare

abbrev pub index_len : IndexEntry → ℕ
index_len e = get_num "Len" e.fields

-- `Parse` of indexroot.go, its loop with fuel; the offset is a uint16.
unfoldable pub parse_index : ℕ → Slice → ℕ → List IndexEntry → Result (List IndexEntry)
parse_index zero s off entries = stuck
parse_index (suc fuel) s off entries = elim (ltb off (len s % 2 ^ 16)) [
  | false ↦ ok entries
  | true ↦ suffix s off >>= λ rest. parse_index_entry rest >>= λ e. elim (index_len e == 0) [
    | true ↦ ok entries
    | false ↦ parse_index fuel s ((off + index_len e) % 2 ^ 16) (entries ++ (e ∷ []))
  ]
]

-- `NodeHeader.Parse`: the error on an empty list is `none`.
unfoldable pub parse_node_header : Slice → Result (Option Struct)
parse_node_header s = unmarshal s node_header >>= λ p.
    ok (if get_num "OffsetEndUsedEntryList" p.members == 0 then none else some p.members)

pub record IndexRoot : Type 0 where
  pub fields : Struct
  pub nodeheader : Option Struct
  pub entries : List IndexEntry

-- `IndexRoot.Parse`.
unfoldable pub parse_index_root : ℕ → Slice → Result IndexRoot
parse_index_root fuel s = subslice s 0 12 >>= λ head. unmarshal head index_root >>= λ p.
    subslice s 16 32 >>= λ node. parse_node_header node >>= elim [
      | none ↦ ok (record { fields = p.members; nodeheader = none; entries = [] })
      | some nh ↦
          let start = (16 + get_num "OffsetEntryList" nh % 2 ^ 16) % 2 ^ 16 in
          let end = get_num "OffsetEndUsedEntryList" nh in
          if ltb (len s) end
          then ok (record { fields = p.members; nodeheader = some nh; entries = [] })
          else (subslice s start end >>= λ list. parse_index fuel list 0 [] >>= λ entries.
              ok (record { fields = p.members; nodeheader = some nh; entries = entries }))
    ]

-- FixUp of indexallocation.go: copies, not parts of the buffer.
pub record IndexFixUp : Type 0 where
  pub signature : Bytes
  pub original_values : List Bytes

-- `fixuparray[val:val+2]` for val = 2, 4, ...
unfoldable pub pairs : Bytes → List Bytes
pairs [] = []
pairs (a ∷ []) = []
pairs (a ∷ b ∷ rest) = (a ∷ b ∷ []) ∷ pairs rest

-- `IndexAllocation.ProcessFixUpArrays`.
unfoldable pub process_index_fixups : ℕ → ℕ → Slice → Result IndexFixUp
process_index_fixups off count s =
    let end = (off + 2 * count) % 2 ^ 16 in
    if count == 0 || ltb 128 count
    then err bad_fixup_count
    else if ltb (len s) off || ltb (len s) end
    then err fixup_data_short
    else if ltb end off
    then err bad_fixup_offset
    else (subslice s off end >>= λ fixuparray. subslice fixuparray 0 2 >>= λ sig.
        ok (record { signature = sig.bytes; original_values = pairs (drop 2 fixuparray.bytes) }))

-- `FixUp.OriginalValues[i][j]`.
unfoldable pub original_byte : List Bytes → ℕ → ℕ → Result ℕ
original_byte [] i j = crash
original_byte (v ∷ vs) zero j = at (full v) j
original_byte (v ∷ vs) (suc i) j = original_byte vs i j

-- One sector, whose last two bytes are at `last`: `data[sectorNum*512-2]` and the byte after it.
unfoldable pub restore_sector : IndexFixUp → ℕ → ℕ → Slice → Result Slice
restore_sector f i at_end s = at s at_end >>= λ b0. at (full f.signature) 0 >>= λ sig0.
    at s (at_end + 1) >>= λ b1. at (full f.signature) 1 >>= λ sig1.
    if b0 == sig0 && b1 == sig1
    then (original_byte f.original_values i 0 >>= λ v0. put s at_end v0 >>= λ s1.
        original_byte f.original_values i 1 >>= λ v1. put s1 (at_end + 1) v1)
    else ok s

-- The loop over the sectors: `todo` of them are left, `i` are done.
unfoldable pub restore_sectors : IndexFixUp → ℕ → ℕ → Slice → Result Slice
restore_sectors f zero i s = ok s
restore_sectors f (suc todo) i s =
    restore_sector f i (i * 512 + 510) s >>= λ s'. restore_sectors f todo (suc i) s'

pub record IndexAllocation : Type 0 where
  pub fields : Struct
  pub nodeheader : Struct
  pub entries : List IndexEntry

is_indx : List ℕ → Bool
is_indx sig = le sig == 0x58444e49

-- The entries of a record whose sectors are restored; the offsets count from the node header.
unfoldable pub allocation_entries : ℕ → Slice → Struct → Result (List IndexEntry)
allocation_entries fuel s nh =
    let start = (get_num "OffsetEntryList" nh + 24) % 2 ^ 32 in
    let used = get_num "OffsetEndUsedEntryList" nh in
    if ltb start used
    then (if ltb (len s % 2 ^ 32) used
        then err index_data_exceeded
        else (subslice s start ((used + 24) % 2 ^ 32) >>= λ list. parse_index fuel list 0 []))
    else ok []

-- `IndexAllocation.Parse`.
unfoldable pub parse_index_allocation : ℕ → Slice → Result IndexAllocation
unfolding is_indx
parse_index_allocation fuel s = subslice s 0 24 >>= λ head. unmarshal head index_allocation >>= λ p.
    if is_indx (get_nums "Signature" p.members)
    then (process_index_fixups (get_num "FixupArrayOffset" p.members)
          (get_num "NumFixupEntries" p.members) s
        >>= λ f. subslice s 24 (24 + 16) >>= λ node. unmarshal node node_header >>= λ nh.
            restore_sectors f (len s / 512) 0 s >>= λ s'.
            allocation_entries fuel s' nh.members >>= λ entries.
            ok (record { fields = p.members; nodeheader = nh.members; entries = entries }))
    else err no_indx_signature

-- The loop of `IndexAllocationRecords.Parse` over the chunks of 4096 bytes; `todo` of them are left.
unfoldable pub parse_index_records :
    ℕ → ℕ → ℕ → Slice → List IndexAllocation → Result (List IndexAllocation)
unfolding is_indx
parse_index_records fuel zero off s records = ok records
parse_index_records fuel (suc todo) off s records = subslice s off (off + 4096) >>= λ chunk.
    let later =
      λ (r : IndexAllocation). parse_index_records fuel todo (off + 4096) s (records ++ (r ∷ [])) in
    if is_indx (take 4 chunk.bytes)
    then go_on (parse_index_allocation fuel chunk) later
    else ok records
  where
    go_on :
        Result IndexAllocation
        → (IndexAllocation → Result (List IndexAllocation))
        → Result (List IndexAllocation)
    go_on (ok r) later = later r
    go_on (err e) later = ok records
    go_on crash later = crash
    go_on stuck later = stuck

unfoldable pub parse_index_allocation_records : ℕ → Slice → Result (List IndexAllocation)
unfolding parse_index_records
parse_index_allocation_records fuel s = parse_index_records fuel (len s / 4096) 0 s []
