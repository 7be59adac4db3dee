-- ===== src/Btrfs/Nodes.antt =====
-- Nodes of a BTRFS tree: FS/BTRFS/genericnode.go, leafnode/structures.go and
-- internalnode/structures.go. The CRC of hash/crc32 and the parsers of the data items are
-- parameters.
-- Item: its key is read apart from its other fields.
use file_system_forensics.Base.{
  Bool, Bytes, List, Option, [], false, if◌then◌else◌, ltb, none, some, suc, true, zero, ℕ, ◌%◌,
  ◌++◌, ◌+◌, ◌==◌, ◌^◌, ◌||◌, ◌∷◌,
}
use file_system_forensics.Go.{Result, Slice, checksum_failed, err, len, ok, subslice, suffix, ◌>>=◌}
use file_system_forensics.Structures.Btrfs.{
  block_pointer, internal_key, item_key, leaf_item, node_head,
}
use file_system_forensics.Utils.Endian.{to_uint32}
use file_system_forensics.Utils.Unmarshal.{Struct, get_num, get_nums, unmarshal}

pub record Item : Type 0 where
  pub key : Struct
  pub fields : Struct

-- `Item.Parse`, with the offset that it returns.
unfoldable pub parse_item : Slice → Result (Item × ℕ)
parse_item s = unmarshal s item_key >>= λ k.
    unmarshal s leaf_item >>= λ p. ok (record { key = k.members; fields = p.members }, p.read)

-- The first loop of `LeafNode.Parse`.
unfoldable pub parse_items : ℕ → Slice → ℕ → List Item → Result (List Item × ℕ)
parse_items zero s off items = ok (items, off)
parse_items (suc n) s off items = suffix s off >>= λ rest.
    parse_item rest >>= λ (item, read). parse_items n s (off + read) (items ++ (item ∷ []))

abbrev one_of : ℕ → List ℕ → Bool
one_of t [] = false
one_of t (k ∷ ks) = t == k || one_of t ks

-- The item types with a case in `LeafNode.Parse`.
unfoldable pub is_known_item : ℕ → Bool
is_known_item t = one_of t (
    0xd8 ∷ 0xe4 ∷ 0x01 ∷ 0xa8 ∷ 0x6c ∷ 0x84 ∷ 0x0c ∷ 0x54 ∷ 0x60 ∷ 0xc0 ∷ 0xa9 ∷ 0xf9 ∷ 0xcc ∷ 0x9c
    ∷ 0x90 ∷ 0x80 ∷ 0x18 ∷ [])

-- A block pointer: its key stays nil where the data is too short.
pub record BlockPointer : Type 0 where
  pub key : Option Struct
  pub fields : Struct

-- `BlockPointer.Parse`: both tests ask for the 24 bytes that a `reflect.Value` takes on a 64-bit
-- machine.
unfoldable pub parse_block_pointer : Slice → Result (BlockPointer × ℕ)
parse_block_pointer s =
    if ltb (len s) 24
    then ok (record { key = none; fields = block_pointer }, 0)
    else unmarshal s internal_key >>= λ k. unmarshal s block_pointer >>= λ p.
        ok (record { key = some k.members; fields = p.members }, p.read)

-- `InternalNode.Parse`.
unfoldable pub parse_internal : ℕ → Slice → ℕ → List BlockPointer → Result (List BlockPointer × ℕ)
parse_internal zero s off items = ok (items, off)
parse_internal (suc n) s off items = suffix s off >>= λ rest.
    parse_block_pointer rest >>= λ (item, read).
    parse_internal n s (off + read) (items ++ (item ∷ []))

-- `LogicalAddressRefHeader`.
abbrev pub address_of : BlockPointer → ℕ
address_of p = get_num "LogicalAddressRefHeader" p.fields

pub data NodeBody (Data : Type 0) : Type 0 where
  leaf_node : List Item → List (Option Data) → NodeBody Data
  internal_node : List BlockPointer → NodeBody Data

pub record GenericNode (Data : Type 0) : Type 0 where
  pub header : Struct
  pub body : NodeBody Data

module _ {Data : Type 0} (crc : Bytes → ℕ) (parse_data : ℕ → Slice → Result Data) where
  -- The second loop of `LeafNode.Parse`: the data of each item, nil for an unknown type.
  unfoldable pub parse_data_items : List Item → Slice → Result (List (Option Data))
  unfolding is_known_item
  parse_data_items [] s = ok []
  parse_data_items (item ∷ items) s =
      let t = get_num "ItemType" item.key in
      let start = get_num "DataOffset" item.fields in
      let end = (start + get_num "DataLen" item.fields) % 2 ^ 32 in
      let rest = parse_data_items items s in
      if is_known_item t
      then (subslice s start end >>= λ part.
          parse_data t part >>= λ found. rest >>= λ more. ok (some found ∷ more))
      else (rest >>= λ more. ok (none ∷ more))

  -- `VerifyChkSum`.
  unfoldable pub verify_chk_sum : Struct → Slice → Result Bool
  verify_chk_sum header s = to_uint32 (get_nums "Chksum" header) >>= λ expected.
      suffix s 32 >>= λ rest. ok (expected == crc rest.bytes)

  -- `GenericNode.Parse`.
  unfoldable pub parse_body : Struct → Slice → Result (NodeBody Data)
  unfolding parse_items parse_internal parse_data_items
  parse_body header s =
      if get_num "Level" header == 0
      then (parse_items (get_num "NofItems" header) s 0 [] >>= λ (items, _).
          parse_data_items items s >>= λ found. ok (leaf_node items found))
      else (parse_internal (get_num "NofItems" header) s 0 [] >>= λ (items, _).
          ok (internal_node items))

  unfoldable pub parse_node : Bool → Slice → Result (GenericNode Data)
  unfolding verify_chk_sum parse_body
  parse_node verify s = unmarshal s node_head >>= λ p.
      (if verify then verify_chk_sum p.members s else ok true) >>= λ good.
      if good
      then (suffix s p.read >>= λ rest.
          parse_body p.members rest >>= λ body. ok (record { header = p.members; body = body }))
      else err checksum_failed
