-- ===== src/Tests/Volumes.antt =====
-- Inputs for disk and readers.
use file_system_forensics.Base.{
  All, Bytes, [], arith, inl, length, length-replicate, refl, replicate, suc, zero, ℕ, ◌*◌, ◌/◌,
  ◌++◌, ◌+◌, ◌∙◌, ◌∷◌, ◌≡◌, ◌≤◌,
}
use file_system_forensics.Bitlocker.Ccm.{cbc_mac}
use file_system_forensics.Bitlocker.Ccm.Blocks.{authenticated, chain, zeros}
use file_system_forensics.Bitlocker.Ccm.Mac.{cbc_mac-authenticated}
use file_system_forensics.Bitlocker.Reader.{DecryptingReader, decrypt_xts}
use file_system_forensics.Bitlocker.Reader.Split.{decrypt_xts_split}
use file_system_forensics.Bitlocker.Xts.{open_xts, xor_block}
use file_system_forensics.Bitlocker.Xts.RoundTrip.{encrypt_xts, open_xts-encrypt_xts}
use file_system_forensics.Bitlocker.Xts.Tweak.{
  IsBlock, length-xor_block, xor_block-IsBlock, xor_block_twice,
}
use file_system_forensics.Disk.Gpt.{parse_partitions}
use file_system_forensics.Disk.Gpt.Entries.{entries_of, parse_partitions-entries_of}
use file_system_forensics.Disk.Mbr.{locate_partitions}
use file_system_forensics.Disk.Mbr.Entries.{locate_partitions-used_entries, used_entries}
use file_system_forensics.Go.{Slice, full, len, ok, ◌>>=◌}
use file_system_forensics.Utils.Endian.{IsByte}
use file_system_forensics.Utils.Unmarshal.{Struct, get_num, member, num, uint32}

abbrev mask : Bytes
mask = replicate 16 0x5a

-- A block cipher: every block is combined with one mask.
abbrev flip : Bytes → Bytes → Bytes
flip key b = xor_block b mask

masks : (n : ℕ) → All IsByte (replicate n 0x5a)
masks zero = tt
masks (suc n) = (omega arith, masks n)

mask-IsBlock : IsBlock mask
mask-IsBlock = (refl, masks 16)

flip-IsBlock : (key b : Bytes) → IsBlock b → IsBlock (flip key b)
flip-IsBlock key b h = xor_block-IsBlock b mask h mask-IsBlock

flip-flip : (key b : Bytes) → IsBlock b → flip key (flip key b) ≡ b
flip-flip key b (n, h) = xor_block_twice b mask (omega (arith, n, mask-IsBlock.0)) h mask-IsBlock.1

length-flip : (key b : Bytes) → length b ≡ 16 → length (flip key b) ≡ 16
length-flip key b n = length-xor_block b mask (omega (arith, n, mask-IsBlock.0)) ∙ n

abbrev xts_key : Bytes
xts_key = replicate 32 1

open_xts-encrypt_xts_example :
    open_xts flip flip xts_key mask
      (encrypt_xts flip flip flip-IsBlock flip-flip xts_key mask (mask ++ mask))
    ≡ ok (mask ++ mask)
open_xts-encrypt_xts_example =
    open_xts-encrypt_xts flip flip flip-IsBlock flip-flip xts_key mask (mask ++ mask) 1 (inl refl)
      mask-IsBlock (omega arith) (masks 32)

abbrev reader : DecryptingReader
reader = record { fvek = xts_key; sector_size = 16; partition_offset = 512; method = "XTS" }

decrypt_xts_split_example : decrypt_xts flip flip reader 544 (mask ++ mask) ≡ (
    decrypt_xts flip flip reader 544 mask >>= λ x.
    decrypt_xts flip flip reader (544 + 16) mask >>= λ y. ok (x ++ y))
decrypt_xts_split_example =
    decrypt_xts_split flip flip length-flip length-flip reader (omega arith) (omega arith) 544 mask
      mask (omega arith) refl

abbrev table : Slice
table = full (
    0x80 ∷ 1 ∷ 1 ∷ 0 ∷ 7 ∷ 9 ∷ 9 ∷ 9 ∷ 0 ∷ 8 ∷ 0 ∷ 0 ∷ 0 ∷ 0 ∷ 1 ∷ 0 ∷ 0 ∷ 0 ∷ 0 ∷ 0 ∷ 0 ∷ 0 ∷ 0 ∷ 0
    ∷ 0 ∷ 0 ∷ 0 ∷ 0 ∷ 0 ∷ 0 ∷ 0 ∷ 0 ∷ [])

locate_partitions-used_entries_example : locate_partitions table ≡ ok (used_entries 2 table.bytes)
locate_partitions-used_entries_example = locate_partitions-used_entries table 2 (omega arith)

abbrev header : Struct
header =
    record (member "NofPartitions" uint32) { value = num 2 }
    ∷ record (member "PartitionSize" uint32) { value = num 64 }
    ∷ []

abbrev partition_array : Slice
partition_array = full (replicate 128 5)

header-wide : 56 ≤ get_num "PartitionSize" header
unfolding get_num
header-wide = omega arith

header-enough :
    get_num "NofPartitions" header * get_num "PartitionSize" header ≤ len partition_array
unfolding get_num
header-enough = omega (arith, length-replicate {A = ℕ} 128 5)

parse_partitions-entries_of_example :
    parse_partitions header partition_array
    ≡ ok (
        entries_of
          (get_num "NofPartitions" header)
          (get_num "PartitionSize" header)
          partition_array.bytes)
parse_partitions-entries_of_example =
    parse_partitions-entries_of header partition_array header-wide header-enough

cbc_mac-authenticated_example :
    cbc_mac (flip []) (replicate 12 3) (4 ∷ 5 ∷ []) (replicate 20 6)
    ≡ ok (
        chain
          (flip [])
          (length (authenticated (replicate 12 3) (4 ∷ 5 ∷ []) (replicate 20 6)) / 16)
          (zeros 16)
          (authenticated (replicate 12 3) (4 ∷ 5 ∷ []) (replicate 20 6)))
cbc_mac-authenticated_example =
    cbc_mac-authenticated (flip []) (length-flip []) (replicate 12 3) (4 ∷ 5 ∷ []) (replicate 20 6)
      refl (omega arith) (omega arith)
