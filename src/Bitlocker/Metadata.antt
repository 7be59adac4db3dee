-- ===== src/Bitlocker/Metadata.antt =====
-- The metadata blocks of a BitLocker volume: `MetadataBlock.ParseEntries` of
-- disk/Bitlocker/metadata.go and `Volume.Process` of bitlocker.go. The disk reader is a parameter.
pub mod Entries
use file_system_forensics.Base.{
  Bytes, List, Option, [], drop, false, if◌then◌else◌, leb, length, ltb, none, some, suc, take,
  true, zero, ℕ, ◌%◌, ◌*◌, ◌++◌, ◌+◌, ◌==◌, ◌^◌, ◌||◌, ◌∷◌,
}
use file_system_forensics.Bitlocker.Datums.{
  Datums, append_datum, create_datum, no_datums, process_datum_header,
}
use file_system_forensics.Go.{
  Result, Slice, bad_metadata_signature, crash, err, full, len, metadata_too_small, ok, stuck,
  subslice, suffix, ◌>>=◌,
}
use file_system_forensics.Structures.Bitlocker.{fve_metadata_block_header_v2, fve_metadata_header}
use file_system_forensics.Utils.Endian.{le}
use file_system_forensics.Utils.Layout.{size}
use file_system_forensics.Utils.Unmarshal.{Parsed, Struct, get_num, get_nums, unmarshal}

-- MetadataBlock: the headers of version 1 and 3 have the same fields.
pub record MetadataBlock : Type 0 where
  pub header : Struct
  pub metadata_v1 : Option Struct
  pub metadata_v3 : Option Struct
  pub datums : Datums

-- `MetadataVersion`.
unfoldable pub metadata_version : Bytes → ℕ
metadata_version bs = if ltb (length bs) 8 then 0 else le (take 4 (drop 4 bs))

abbrev header_size : Struct → ℕ
header_size h = get_num "MetadataHeaderSize" h

-- The switch on the version: the headers found and the offset of the entries.
unfoldable pub choose_header : ℕ → Parsed → Result (Option Struct × Option Struct × ℕ)
choose_header version p = elim p.error [
  | none ↦
      if version == 1
      then ok (some p.members, none, 64 + header_size p.members)
      else if version == 3
      then ok (none, some p.members, 64 + header_size p.members)
      else if leb 48 (header_size p.members)
      then ok (some p.members, none, 64 + header_size p.members)
      else ok (none, none, 64)
  | some e ↦ if version == 1 || version == 3 then err e else ok (none, none, 64)
]

-- The loop over the entries, with fuel; `depth` is the fuel for the nesting of each.
unfoldable pub block_entries : ℕ → ℕ → Slice → ℕ → Datums → Result Datums
block_entries depth zero raw off found = stuck
block_entries depth (suc fuel) raw off found = elim (ltb off (len raw)) [
  | false ↦ ok found
  | true ↦ suffix raw off >>= λ rest. elim (process_datum_header rest) [
    | err e ↦ ok found
    | crash ↦ crash
    | stuck ↦ stuck
    | ok header ↦
        let size = get_num "EntrySize" header in
        elim (size == 0) [
          | true ↦ ok found
          | false ↦ subslice raw (off + 8) (off + size) >>= λ part.
              elim (create_datum depth header part) [
                | err e ↦ ok found
                | crash ↦ crash
                | stuck ↦ stuck
                | ok d ↦ block_entries depth fuel raw (off + size) (append_datum found d)
              ]
        ]
  ]
]

-- `ParseEntries` on a block whose own header is read.
unfoldable pub parse_entries : Struct → Slice → Result MetadataBlock
unfolding choose_header block_entries metadata_version
parse_entries block_header raw =
    if ltb (len raw) 64
    then err metadata_too_small
    else if leb (len raw) 64
    then ok (record {
      header = block_header;
      metadata_v1 = none;
      metadata_v3 = none;
      datums = no_datums;
    })
    else (suffix raw 64 >>= λ rest. unmarshal rest fve_metadata_header >>= λ p.
        choose_header (metadata_version rest.bytes) p >>= λ (v1, v3, off).
        block_entries (suc (len raw)) (suc (len raw)) raw off no_datums >>= λ ds.
        ok (record { header = block_header; metadata_v1 = v1; metadata_v3 = v3; datums = ds }))

-- `FVEMetadataBlockHeaderV2.Process`: the signature "-FVE-FS-".
unfoldable pub process_block_header : Slice → Result Struct
process_block_header data_ = unmarshal data_ fve_metadata_block_header_v2 >>= λ p.
    if le (get_nums "Signature" p.members) == 0x2d53462d4556462d
    then ok p.members
    else err bad_metadata_signature

-- The size of a block: in version 2 a shift within 16 bits.
unfoldable pub block_size : Struct → ℕ
block_size h = if get_num "Version" h == 2 then get_num "Size" h * 16 % 2 ^ 16 else get_num "Size" h

module _ (read_file : ℕ → ℕ → Result Slice) where
  -- The body of the loop for one offset; the error of the second read is dropped. The structure that
  -- the code reads behind the block is not used, so its read is left out.
  unfoldable pub read_block : ℕ → ℕ → Result MetadataBlock
  unfolding process_block_header block_size
  read_block volume_start offset = read_file (offset + volume_start) 112 >>= λ head.
      process_block_header head >>= λ h.
      data_of (read_file (offset + volume_start) (block_size h)) >>= λ raw. parse_entries h raw
    where
      data_of : Result Slice → Result Slice
      data_of (err e) = ok (full [])
      data_of r = r

  -- `Volume.Process` over the offsets of the volume header.
  unfoldable pub process_volume : ℕ → List ℕ → List MetadataBlock → Result (List MetadataBlock)
  unfolding read_block
  process_volume volume_start [] blocks = ok blocks
  process_volume volume_start (offset ∷ rest) blocks = elim (offset == 0) [
    | true ↦ process_volume volume_start rest blocks
    | false ↦ read_block volume_start offset >>= λ block.
        process_volume volume_start rest (blocks ++ (block ∷ []))
  ]
