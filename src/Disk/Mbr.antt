-- ===== src/Disk/Mbr.antt =====
-- The partition table of disk/partition/MBR/mbr.go. A partition is the struct that `Unmarshal`
-- fills.
pub mod Entries
use text.Mathlib.Text.{◌==◌ as str_eq}
use Prim.Native.String.{String}
use file_system_forensics.Base.{
  Bool, List, [], false, if◌then◌else◌, ltb, map, suc, true, zero, ℕ, ◌%◌, ◌+◌, ◌==◌, ◌^◌, ◌∷◌,
}
use file_system_forensics.Go.{
  Result, Slice, crash, err, len, no_extended_partition, ok, stuck, subslice, suffix, ◌>>=◌,
}
use file_system_forensics.Structures.Disk.{mbr_partition, mbr_sector}
use file_system_forensics.Utils.Unmarshal.{Struct, get_num, num, unmarshal}

-- `LocatePartitions`, with fuel for its loop.
unfoldable pub locate_from : ℕ → ℕ → Slice → Result (List Struct)
locate_from zero at_byte sector = stuck
locate_from (suc fuel) at_byte sector = elim (ltb at_byte (len sector)) [
  | false ↦ ok []
  | true ↦ subslice sector at_byte (at_byte + 16) >>= λ entry.
      unmarshal entry mbr_partition >>= λ p. elim (get_num "Type" p.members == 0) [
        | true ↦ ok []
        | false ↦ locate_from fuel (at_byte + 16) sector >>= λ rest. ok (p.members ∷ rest)
      ]
]

-- A round takes 16 bytes, so the length is fuel enough.
unfoldable pub locate_partitions : Slice → Result (List Struct)
locate_partitions sector = locate_from (suc (len sector)) 0 sector

-- `GetOffset`.
unfoldable pub get_offset : Struct → ℕ
get_offset partition = get_num "StartLBA" partition

-- `IsProtective` looks at the first partition, a panic where there is none.
unfoldable pub is_protective : List Struct → Result Bool
is_protective [] = crash
is_protective (p ∷ ps) = ok (get_num "Type" p == 0xee)

-- `GetExtendedPartitionOffset`.
unfoldable pub get_extended_partition_offset : List Struct → Result ℕ
get_extended_partition_offset [] = err no_extended_partition
get_extended_partition_offset (p ∷ ps) =
    if get_num "Type" p == 0x0f then ok (get_offset p) else get_extended_partition_offset ps

-- The assignment to a field of the struct.
unfoldable pub set_num : String → ℕ → Struct → Struct
set_num n v [] = []
set_num n v (m ∷ ms) =
    if str_eq m.name n then record m { value = num v } ∷ ms else m ∷ set_num n v ms

-- `UpdateExtendedPartitionsOffsets`: the sum is a uint32.
unfoldable pub update_extended_partitions_offsets : ℕ → List Struct → List Struct
update_extended_partitions_offsets sectors [] = []
update_extended_partitions_offsets sectors (p ∷ ps) =
    (if get_num "Type" p == 0x0f
      then set_num "StartLBA" ((get_num "StartLBA" p + sectors) % 2 ^ 32) p
      else p)
    ∷ update_extended_partitions_offsets sectors ps

-- `DiscoverExtendedPartitions`: the partitions with the offset of their table.
unfoldable pub discover_extended_partitions : Slice → ℕ → Result (List (Struct × ℕ))
discover_extended_partitions buffer offset = subslice buffer 446 510 >>= λ table.
    locate_partitions table >>= λ ps. ok (map (λ p. (p, offset)) ps)

-- `GetOffset` of an extended partition.
unfoldable pub get_extended_offset : Struct × ℕ → ℕ
get_extended_offset (partition, table_offset) = (get_offset partition + table_offset) % 2 ^ 64

pub record MbrTable : Type 0 where
  pub fields : Struct
  pub partitions : List Struct
  pub signature : Slice

-- `Parse`.
unfoldable pub parse_mbr : Slice → Result MbrTable
parse_mbr buffer = unmarshal buffer mbr_sector >>= λ p. subslice buffer 446 510 >>= λ table.
    locate_partitions table >>= λ partitions. suffix buffer 510 >>= λ signature.
    ok (record { fields = p.members; partitions = partitions; signature = signature })
