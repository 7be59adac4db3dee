-- ===== src/Disk/Mbr/Entries.antt =====
-- disk/partition/MBR/mbr.go: the partitions that `LocatePartitions` gives.
use file_system_forensics.Base.{
  Bytes, List, [], arith, drop, drop-drop, if◌then◌else◌, length, length-drop, length-take, ltb,
  lt→ltb, none, refl, suc, take, true, zero, ℕ, ◌*◌, ◌++◌, ◌+◌, ◌<◌, ◌==◌, ◌∷◌, ◌≡◌,
}
use file_system_forensics.Disk.Mbr.{locate_from, locate_partitions}
use file_system_forensics.Go.{Slice, len, ok, subslice_width}
use file_system_forensics.Structures.Disk.{mbr_partition}
use file_system_forensics.Utils.Layout.{layout}
use file_system_forensics.Utils.Layout.Reading.{unmarshal-layout}
use file_system_forensics.Utils.Layout.Room.{Fits-exact}
use file_system_forensics.Utils.Unmarshal.{Struct, classify, get_num, unmarshal}

-- An entry of 16 bytes is read whole.
entry_read :
    (s : Slice)
    → len s ≡ 16
    → unmarshal s mbr_partition
      ≡ ok (record { members = layout s.bytes mbr_partition; read = 16; error = none })
unfolding mbr_partition classify
entry_read s h =
    unmarshal-layout s mbr_partition (Fits-exact (len s) mbr_partition (omega arith) (omega arith))

-- The entries up to the first whose type is 0.
abbrev pub used_entries : ℕ → Bytes → List Struct
used_entries zero bs = []
used_entries (suc n) bs =
    let entry = layout (take 16 bs) mbr_partition in
    if get_num "Type" entry == 0 then [] else entry ∷ used_entries n (drop 16 bs)

locate_from-used :
    (n fuel at_byte : ℕ) (s : Slice)
    → at_byte + n * 16 ≡ len s
    → n < fuel
    → locate_from fuel at_byte s ≡ ok (used_entries n (drop at_byte s.bytes))
unfolding locate_from
locate_from-used n zero at_byte s l f = absurd (omega arith)
locate_from-used zero (suc fuel) at_byte s l f = ground arith
locate_from-used (suc n) (suc fuel) at_byte s l f =
    let inside : ltb at_byte (len s) ≡ true = lt→ltb at_byte (len s) (omega arith) in
    let cut = subslice_width s at_byte 16 (omega arith) in
    let entry : Bytes = take 16 (drop at_byte s.bytes) in
    let width : length entry ≡ 16 =
      omega (arith, length-take 16 (drop at_byte s.bytes), length-drop at_byte s.bytes) in
    let later = locate_from-used n fuel (at_byte + 16) s (omega arith) (omega arith) in
    let seam : drop 16 (drop at_byte s.bytes) ≡ drop (at_byte + 16) s.bytes =
      drop-drop at_byte 16 (at_byte + 16) s.bytes refl in
    let read =
      entry_read (record { bytes = entry; spare = drop (at_byte + 16) s.bytes ++ s.spare }) width in
    ground (arith, inside, cut, read, later, seam)

-- On a table of whole 16-byte entries `LocatePartitions` always ends, and gives the entries in their
-- order, each read from its own 16 bytes, up to the first whose type is 0.
pub locate_partitions-used_entries :
    (s : Slice) (n : ℕ) → len s ≡ n * 16 → locate_partitions s ≡ ok (used_entries n s.bytes)
unfolding locate_partitions
locate_partitions-used_entries s n l =
    locate_from-used n (suc (len s)) 0 s (omega arith) (omega arith)
