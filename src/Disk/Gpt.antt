-- ===== src/Disk/Gpt.antt =====
-- The partition array of disk/partition/GPT/gpt.go. The header and a partition are the structs that
-- `Unmarshal` fills; a partition of a RAID carries the data offset of its superblock.
pub mod Entries
use file_system_forensics.Base.{List, Option, [], none, some, suc, zero, ℕ, ◌%◌, ◌*◌, ◌+◌, ◌^◌, ◌∷◌}
use file_system_forensics.Go.{Result, Slice, ok, subslice, ◌>>=◌}
use file_system_forensics.Structures.Disk.{gpt_header, gpt_partition}
use file_system_forensics.Utils.Layout.{size}
use file_system_forensics.Utils.Unmarshal.{Struct, get_num, unmarshal}

-- `ParseHeader`.
unfoldable pub parse_header : Slice → Result Struct
parse_header buffer = unmarshal buffer gpt_header >>= λ p. ok p.members

-- `GetPartitionArraySize`, a product of two uint32.
unfoldable pub get_partition_array_size : Struct → ℕ
get_partition_array_size header =
    get_num "PartitionSize" header * get_num "NofPartitions" header % 2 ^ 32

unfoldable pub parse_from : ℕ → ℕ → ℕ → Slice → Result (List Struct)
parse_from zero idx size array_bytes = ok []
parse_from (suc n) idx size array_bytes =
    subslice array_bytes (idx * size) ((idx + 1) * size) >>= λ entry.
    unmarshal entry gpt_partition >>= λ p.
    parse_from n (idx + 1) size array_bytes >>= λ rest. ok (p.members ∷ rest)

-- `ParsePartitions`.
unfoldable pub parse_partitions : Struct → Slice → Result (List Struct)
parse_partitions header array_bytes =
    parse_from (get_num "NofPartitions" header) 0 (get_num "PartitionSize" header) array_bytes

-- `GetOffset`, in sectors.
unfoldable pub get_gpt_offset : Struct → Option ℕ → ℕ
get_gpt_offset partition none = get_num "StartLBA" partition
get_gpt_offset partition (some data_offset) = (get_num "StartLBA" partition + data_offset) % 2 ^ 64
