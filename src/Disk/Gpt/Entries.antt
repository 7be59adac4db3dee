-- ===== src/Disk/Gpt/Entries.antt =====
-- disk/partition/GPT/gpt.go: the partitions that `ParsePartitions` gives.
use file_system_forensics.Base.{
  Bytes, List, [], arith, drop, drop-drop, length, length-drop, length-take, none, refl, suc, sym,
  take, zero, ℕ, ◌*◌, ◌++◌, ◌+◌, ◌∷◌, ◌≡◌, ◌≤◌,
}
use file_system_forensics.Disk.Gpt.{parse_from, parse_partitions}
use file_system_forensics.Go.{Slice, len, ok, subslice_width}
use file_system_forensics.Structures.Disk.{gpt_partition}
use file_system_forensics.Utils.Layout.{layout, size}
use file_system_forensics.Utils.Layout.Reading.{unmarshal-layout}
use file_system_forensics.Utils.Layout.Room.{Fits-exact}
use file_system_forensics.Utils.Unmarshal.{Struct, classify, get_num, unmarshal}
use native.Mathlib.Nat.{add-mul}

-- Each entry read from its own `size` bytes.
abbrev pub entries_of : ℕ → ℕ → Bytes → List Struct
entries_of zero size bs = []
entries_of (suc n) size bs = layout (take size bs) gpt_partition ∷ entries_of n size (drop size bs)

entry_read :
    (s : Slice)
    → 56 ≤ len s
    → unmarshal s gpt_partition
      ≡ ok (record { members = layout s.bytes gpt_partition; read = 56; error = none })
unfolding gpt_partition classify
entry_read s h =
    unmarshal-layout s gpt_partition (Fits-exact (len s) gpt_partition (omega arith) (omega arith))

parse_from-entries :
    (n idx size : ℕ) (s : Slice)
    → 56 ≤ size
    → idx * size + n * size ≤ len s
    → parse_from n idx size s ≡ ok (entries_of n size (drop (idx * size) s.bytes))
unfolding parse_from
parse_from-entries zero idx size s w h = refl
parse_from-entries (suc n) idx size s w h =
    let next : (idx + 1) * size ≡ idx * size + size = omega (arith, add-mul idx 1 size) in
    let all : suc n * size ≡ size + n * size = omega (arith, add-mul 1 n size) in
    let cut = subslice_width s (idx * size) size (omega arith) in
    let entry : Bytes = take size (drop (idx * size) s.bytes) in
    let width : 56 ≤ length entry =
      omega
        (arith, length-take size (drop (idx * size) s.bytes), length-drop (idx * size) s.bytes) in
    let read =
      entry_read (record { bytes = entry; spare = drop (idx * size + size) s.bytes ++ s.spare })
        width in
    let later = parse_from-entries n (idx + 1) size s w (omega arith) in
    let seam : drop size (drop (idx * size) s.bytes) ≡ drop ((idx + 1) * size) s.bytes =
      drop-drop (idx * size) size ((idx + 1) * size) s.bytes (sym next) in
    rw (next, cut, read, later, seam) refl

-- Where the array has all the entries that the header counts, of 56 bytes at least, `ParsePartitions`
-- gives that many, each read from its own part of the array, whatever the size of an entry.
pub parse_partitions-entries_of :
    (header : Struct) (s : Slice)
    → 56 ≤ get_num "PartitionSize" header
    → get_num "NofPartitions" header * get_num "PartitionSize" header ≤ len s
    → parse_partitions header s
      ≡ ok (entries_of (get_num "NofPartitions" header) (get_num "PartitionSize" header) s.bytes)
unfolding parse_partitions
parse_partitions-entries_of header s w h =
    let start : 0 * get_num "PartitionSize" header ≡ 0 = omega arith in
    rw start at (
      parse_from-entries (get_num "NofPartitions" header) 0 (get_num "PartitionSize" header) s w
        (omega arith))
