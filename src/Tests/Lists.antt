-- ===== src/Tests/Lists.antt =====
-- Inputs for the attribute lists, the index nodes and the change journal of FS/NTFS.
-- An attribute list entry of 32 bytes with the name "A".
use file_system_forensics.Base.{
  ==_cases, All, Bool, Bytes, List, [], arith, drop, inl, inr, ltb, ltb→lt, map, refl, replicate,
  suc, take, true, zero, ℕ, ◌&&◌, ◌++◌, ◌+◌, ◌/◌, ◌<◌, ◌∷◌, ◌≡◌, ◌≢◌,
}
use file_system_forensics.Bitlocker.Datums.Nesting.{suffix_inside}
use file_system_forensics.Go.{Result, Slice, full, len, ok, stuck, subslice, suffix, ◌>>=◌}
use file_system_forensics.Ntfs.AttrList.{parse_list}
use file_system_forensics.Ntfs.AttrList.Entries.{
  IsImage, entry_of, parse_list-ends, parse_list-images,
}
use file_system_forensics.Ntfs.Index.{
  IndexEntry, index_len, parse_index, parse_index_entry, process_index_fixups, restore_sectors,
}
use file_system_forensics.Ntfs.Index.Loops.{parse_index-ends}
use file_system_forensics.Ntfs.Index.Sectors.{Sector, fixup_array, fixups-protect, image, protect}
use file_system_forensics.Ntfs.Usn.{UsnRecord, process_cluster}
use file_system_forensics.Ntfs.Usn.Records.{IsPlaced, process_cluster-IsPlaced}
use file_system_forensics.Structures.Ntfs.{index_entry}
use file_system_forensics.Tests.Walk.{both_true}
use file_system_forensics.Utils.Unmarshal.{classify, get_num, unmarshal}
use mathlib.Core.List.{flatten}

abbrev list_image : Bytes
list_image =
    0x80 ∷ 0 ∷ 0 ∷ 0 ∷ 32 ∷ 0 ∷ 1 ∷ 26 ∷ 0 ∷ 0 ∷ 0 ∷ 0 ∷ 0 ∷ 0 ∷ 0 ∷ 0 ∷ 5 ∷ 0 ∷ 0 ∷ 0 ∷ 0 ∷ 0 ∷ 1
    ∷ 0 ∷ 2 ∷ 0 ∷ 65 ∷ 0 ∷ 0 ∷ 0 ∷ 0 ∷ 0 ∷ []

abbrev list_images : List Bytes
list_images = list_image ∷ list_image ∷ []

list_image-IsImage : IsImage list_image
unfolding get_num classify
list_image-IsImage = (omega arith, omega arith, refl, omega arith)

parse_list-images_example :
    parse_list 3 (full (flatten list_images)) 0 [] ≡ ok (map entry_of list_images)
unfolding flatten
parse_list-images_example =
    parse_list-images list_images 3 (omega arith) (omega arith)
      (list_image-IsImage, (list_image-IsImage, tt))

parse_list-ends_example : parse_list 33 (full list_image) 0 [] ≢ stuck
parse_list-ends_example = parse_list-ends 33 (full list_image) 0 [] (omega arith) (omega arith)

-- A record of one sector: the mark 7, 8 and the bytes 1, 2, which the writer moved to the array.
abbrev sector : Sector
sector = record { body = 7 ∷ 8 ∷ 1 ∷ 2 ∷ replicate 506 0; first = 1; second = 2 }

abbrev protected : Slice
protected = full (protect 7 8 (sector ∷ []))

protected-length : len protected ≡ 512
unfolding protect
protected-length = refl

array_stored : take 4 (drop 0 protected.bytes) ≡ fixup_array 7 8 (sector ∷ [])
unfolding protect fixup_array flatten
array_stored = refl

fixups-protect_example :
    (process_index_fixups 0 2 protected >>= λ f.
    restore_sectors f (len protected / 512) 0 protected)
    ≡ ok (record { bytes = image (sector ∷ []); spare = [] })
fixups-protect_example =
    fixups-protect protected 7 8 0 (sector ∷ []) (refl, tt) (omega arith) refl
      (omega (arith, protected-length)) array_stored

-- An index entry without content.
abbrev node : Slice
node = full (5 ∷ 0 ∷ 0 ∷ 0 ∷ 0 ∷ 0 ∷ 1 ∷ 0 ∷ 16 ∷ 0 ∷ 0 ∷ 0 ∷ 2 ∷ 0 ∷ 0 ∷ 0 ∷ [])

entry_fits : Result IndexEntry → ℕ → Bool
entry_fits (ok e) p = ltb (p + index_len e) 65536
entry_fits _ p = true

all_entries_fit : ℕ → Bool
unfolding entry_fits
all_entries_fit zero = true
all_entries_fit (suc n) =
    entry_fits (suffix node n >>= λ rest. parse_index_entry rest) n && all_entries_fit n

entries_fit_all : all_entries_fit 17 ≡ true
unfolding all_entries_fit subslice parse_index_entry unmarshal index_entry classify get_num
entries_fit_all = refl

entries_fit_below :
    (n p : ℕ)
    → all_entries_fit n ≡ true
    → p < n
    → entry_fits (suffix node p >>= λ rest. parse_index_entry rest) p ≡ true
unfolding all_entries_fit
entries_fit_below zero p e l = absurd (omega arith)
entries_fit_below (suc n) p e l =
    let first = entry_fits (suffix node n >>= λ rest. parse_index_entry rest) n in
    let (here, rest) = both_true first (all_entries_fit n) e in
    elim (==_cases p n) [
      | inl (_, q) ↦ rw q here
      | inr (_, q) ↦ entries_fit_below n p rest (omega (arith, q))
    ]

node_entries_fit :
    (p : ℕ) (rest : Slice) (e : IndexEntry)
    → suffix node p ≡ ok rest
    → parse_index_entry rest ≡ ok e
    → p + index_len e < 65536
unfolding entry_fits
node_entries_fit p rest e s q =
    let inside = suffix_inside node rest p s in
    let fits = entries_fit_below 17 p entries_fit_all (omega arith) in
    ltb→lt (p + index_len e) 65536 (rw (s, q) at fits)

parse_index-ends_example : parse_index 17 node 0 [] ≢ stuck
parse_index-ends_example =
    parse_index-ends 17 node 0 [] (omega arith) node_entries_fit (omega arith)

-- A record of the change journal, of 64 bytes, with the name "A" at offset 60.
abbrev journal : Slice
journal = full (
    64
    ∷ 0
    ∷ 0
    ∷ 0
    ∷ 2
    ∷ 0
    ∷ 0
    ∷ 0
    ∷ 5
    ∷ 0
    ∷ 0
    ∷ 0
    ∷ 0
    ∷ 0
    ∷ 1
    ∷ 0
    ∷ 5
    ∷ 0
    ∷ 0
    ∷ 0
    ∷ 0
    ∷ 0
    ∷ 1
    ∷ 0
    ∷ (replicate 32 0 ++ (2 ∷ 0 ∷ 60 ∷ 0 ∷ 65 ∷ 0 ∷ 0 ∷ 0 ∷ [])))

process_cluster-IsPlaced_example :
    (rs : List UsnRecord) × (process_cluster 65 4096 journal 0 [] ≡ ok rs)
    × All (IsPlaced 4096 journal) rs
process_cluster-IsPlaced_example =
    process_cluster-IsPlaced 65 4096 journal 0 [] (omega arith) (omega arith) tt
