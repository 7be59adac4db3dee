-- ===== src/Btrfs/Chunks.antt =====
-- The chunks that map logical to physical addresses: FS/BTRFS/attributes/chunkitem.go and key.go,
-- and `ParseSystemChunks`, `UpdateChunkMaps` and `LocatePhysicalOffsetSize` of
-- disk/volume/btrfs.go.
pub mod Locate
pub mod System
use file_system_forensics.Base.{
  List, [], false, if◌then◌else◌, leb, ltb, suc, true, zero, ℕ, ◌%◌, ◌&&◌, ◌++◌, ◌+◌, ◌-◌, ◌==◌,
  ◌^◌, ◌∷◌,
}
use file_system_forensics.Go.{Result, Slice, crash, err, len, not_located, ok, stuck, suffix, ◌>>=◌}
use file_system_forensics.Structures.Btrfs.{chunk_item, chunk_item_stripe, item_key}
use file_system_forensics.Utils.Unmarshal.{Struct, get_num, unmarshal}

pub record ChunkItem : Type 0 where
  pub fields : Struct
  pub stripes : List Struct

-- The loop over the stripes, from the offset after the chunk's own fields.
unfoldable pub parse_stripes : ℕ → Slice → ℕ → List Struct → Result (List Struct × ℕ)
parse_stripes zero s off stripes = ok (stripes, off)
parse_stripes (suc n) s off stripes = suffix s off >>= λ rest.
    unmarshal rest chunk_item_stripe >>= λ p.
    parse_stripes n s (off + p.read) (stripes ++ (p.members ∷ []))

-- `ChunkItem.Parse`, with the offset that it returns.
unfoldable pub parse_chunk : Slice → Result (ChunkItem × ℕ)
unfolding parse_stripes
parse_chunk s = unmarshal s chunk_item >>= λ p.
    parse_stripes (get_num "NofStripes" p.members) s p.read [] >>= λ (stripes, off).
    ok (record { fields = p.members; stripes = stripes }, off)

-- `Key.Parse`.
unfoldable pub parse_key : Slice → Result (Struct × ℕ)
parse_key s = unmarshal s item_key >>= λ p. ok (p.members, p.read)

-- The loop of `ParseSystemChunks` over the array of the superblock, with fuel: a key and a chunk
-- in each round. The code wraps each pair in a leaf node of one item.
unfoldable pub parse_system_chunks :
    ℕ → Slice → ℕ → List (Struct × ChunkItem) → Result (List (Struct × ChunkItem))
parse_system_chunks zero s off found = stuck
parse_system_chunks (suc fuel) s off found = elim (ltb off (len s)) [
  | false ↦ ok found
  | true ↦ suffix s off >>= λ rest. parse_key rest >>= λ (key, n). suffix s (off + n) >>= λ rest'.
      parse_chunk rest' >>= λ (chunk, m).
      parse_system_chunks fuel s (off + n + m) (found ++ ((key, chunk) ∷ []))
]

-- A Go map from logical addresses, as the list of its pairs in the order of an iteration.
abbrev pub ChunkTreeMap : Type 0
ChunkTreeMap = List (ℕ × ChunkItem)

unfoldable pub insert : ℕ → ChunkItem → ChunkTreeMap → ChunkTreeMap
insert k c [] = (k, c) ∷ []
insert k c ((k', c') ∷ m) = if k == k' then (k, c) ∷ m else (k', c') ∷ insert k c m

-- `UpdateChunkMaps` on the pairs of key and chunk.
unfoldable pub update_chunk_maps : List (Struct × ChunkItem) → ChunkTreeMap → ChunkTreeMap
unfolding insert
update_chunk_maps [] m = m
update_chunk_maps ((key, chunk) ∷ rest) m =
    update_chunk_maps rest (insert (get_num "Offset" key) chunk m)

abbrev pub chunk_size : ChunkItem → ℕ
chunk_size c = get_num "Size" c.fields

-- `Stripes[0].Offset`.
unfoldable pub first_stripe : List Struct → Result ℕ
first_stripe [] = crash
first_stripe (stripe ∷ rest) = ok (get_num "Offset" stripe)

-- `LocatePhysicalOffsetSize`: the physical address and the size of the chunk.
unfoldable pub locate : ChunkTreeMap → ℕ → Result (ℕ × ℕ)
unfolding first_stripe
locate [] logical = err not_located
locate ((key_offset, chunk) ∷ m) logical =
    let rest = locate m logical in
    if leb key_offset logical && ltb (logical - key_offset) (chunk_size chunk)
    then (first_stripe chunk.stripes >>= λ offset.
        ok ((offset + (logical - key_offset)) % 2 ^ 64, chunk_size chunk))
    else rest
