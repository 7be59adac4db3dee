-- ===== src/Tests/Btrfs.antt =====
-- Inputs for the BTRFS parts: chunk maps, the array of system chunks and a tree of three nodes.
use file_system_forensics.Base.{
  Bytes, List, [], arith, if◌then◌else◌, map, none, refl, replicate, some, ℕ, ◌++◌, ◌==◌, ◌∷◌, ◌≡◌,
  ◌≤◌,
}
use file_system_forensics.Btrfs.Chunks.{ChunkItem, locate, parse_system_chunks}
use file_system_forensics.Btrfs.Chunks.Locate.{covering, locate-rearranged}
use file_system_forensics.Btrfs.Chunks.System.{
  IsPair, pair_of, parse_system_chunks-hangs, parse_system_chunks-pairs,
}
use file_system_forensics.Btrfs.Descent.Leaves.{Forest, inner_at, leaf_at, lost_at, none_left}
use file_system_forensics.Btrfs.Nodes.{BlockPointer, GenericNode, internal_node, leaf_node}
use file_system_forensics.Go.{Result, checksum_failed, err, full, ok, stuck}
use file_system_forensics.Structures.Btrfs.{chunk_item}
use file_system_forensics.Utils.Layout.{size}
use file_system_forensics.Utils.Unmarshal.{classify, get_num, num, uint64}
use mathlib.Core.List.{Permᴰ, flatten}

abbrev chunk_of : ℕ → ℕ → ChunkItem
chunk_of size offset = record {
  fields = record { name = "Size"; kind = uint64; value = num size } ∷ [];
  stripes = (record { name = "Offset"; kind = uint64; value = num offset } ∷ []) ∷ [];
}

abbrev low_chunk : ℕ × ChunkItem
low_chunk = (0, chunk_of 4096 65536)

abbrev high_chunk : ℕ × ChunkItem
high_chunk = (4096, chunk_of 4096 131072)

covered_once : covering 5000 (low_chunk ∷ high_chunk ∷ []) ≤ 1
unfolding covering get_num
covered_once = omega arith

locate-rearranged_example :
    locate (low_chunk ∷ high_chunk ∷ []) 5000 ≡ locate (high_chunk ∷ low_chunk ∷ []) 5000
locate-rearranged_example =
    locate-rearranged 5000 (low_chunk ∷ high_chunk ∷ []) (high_chunk ∷ low_chunk ∷ [])
      (Permᴰ.swap refl refl) covered_once

-- A key of 17 bytes and a chunk of 48 with one stripe of 32.
abbrev pair_image : Bytes
pair_image = replicate 17 1 ++ (replicate 44 2 ++ ((1 ∷ 0 ∷ 1 ∷ 0 ∷ []) ++ replicate 32 3))

pair_image-IsPair : IsPair pair_image
unfolding chunk_item classify get_num
pair_image-IsPair = refl

parse_system_chunks-pairs_example :
    parse_system_chunks 2 (record { bytes = flatten (pair_image ∷ []); spare = 0 ∷ [] }) 0 []
    ≡ ok (map pair_of (pair_image ∷ []))
parse_system_chunks-pairs_example =
    parse_system_chunks-pairs (pair_image ∷ []) (0 ∷ []) 2 (omega arith) (pair_image-IsPair, tt)

parse_system_chunks-hangs_example : parse_system_chunks 9 (full (1 ∷ [])) 0 [] ≡ stuck
parse_system_chunks-hangs_example =
    parse_system_chunks-hangs 9 (full (1 ∷ [])) 0 [] (omega arith) (omega arith)

abbrev pointer_to : ℕ → BlockPointer
pointer_to a = record {
  key = none;
  fields = record { name = "LogicalAddressRefHeader"; kind = uint64; value = num a } ∷ [];
}

abbrev leaf : ℕ → GenericNode Bytes
leaf a = record { header = []; body = leaf_node [] (some (a ∷ []) ∷ []) }

abbrev inner : List BlockPointer → GenericNode Bytes
inner ps = record { header = []; body = internal_node ps }

abbrev root_node : GenericNode Bytes
root_node = inner (pointer_to 2 ∷ pointer_to 3 ∷ pointer_to 4 ∷ [])

-- The root at 1 has an internal node at 2 with the leaf 5, a node at 3 whose checksum fails, and
-- the leaf 4.
abbrev disk : ℕ → Result (GenericNode Bytes)
disk a =
    if a == 1
    then ok root_node
    else if a == 2
    then ok (inner (pointer_to 5 ∷ []))
    else if a == 4
    then ok (leaf 4)
    else if a == 5
    then ok (leaf 5)
    else err checksum_failed

abbrev below_root : Forest Bytes
below_root =
    inner_at 2 (inner (pointer_to 5 ∷ [])) (leaf_at 5 (leaf 5) none_left)
      (lost_at 3 (leaf_at 4 (leaf 4) none_left))
