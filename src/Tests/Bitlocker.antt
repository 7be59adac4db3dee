-- ===== src/Tests/Bitlocker.antt =====
-- Inputs for the BitLocker metadata and keys.
-- A block of 64 bytes, a header of version 1 and an entry with a master key of no bytes.
use file_system_forensics.Base.{
  Bytes, [], arith, length, length-replicate, map, refl, replicate, ◌%◌, ◌*◌, ◌++◌, ◌-◌, ◌∷◌, ◌≡◌,
  ◌≢◌,
}
use file_system_forensics.Bitlocker.Keys.{derive_key_from_recovery_key, le_bytes, stretch_key}
use file_system_forensics.Bitlocker.Keys.Recovery.{derive_key-groups, group_of, zeros}
use file_system_forensics.Bitlocker.Keys.Stretch.{hash_chain, stretch_key-hash_chain}
use file_system_forensics.Bitlocker.Metadata.{parse_entries}
use file_system_forensics.Bitlocker.Metadata.Entries.{parse_entries-ends}
use file_system_forensics.Go.{full, ok, stuck}
use file_system_forensics.Utils.Endian.{le}
use mathlib.Core.List.{flatten}

abbrev block_bytes : Bytes
block_bytes =
    replicate 64 0
    ++ ((56 ∷ 0 ∷ 0 ∷ 0 ∷ 1 ∷ 0 ∷ 0 ∷ 0 ∷ 48 ∷ 0 ∷ 0 ∷ 0 ∷ [])
        ++ (replicate 36 0 ++ (8 ∷ 0 ∷ 2 ∷ 0 ∷ 8 ∷ 0 ∷ 1 ∷ 0 ∷ [])))

parse_entries-ends_example : parse_entries [] (full block_bytes) ≢ stuck
parse_entries-ends_example = parse_entries-ends [] (full block_bytes)

-- A function with outputs of 32 bytes in the place of SHA-256.
abbrev sum_hash : Bytes → Bytes
sum_hash bs = replicate 32 (le bs % 251)

sum_hash-length : (bs : Bytes) → length (sum_hash bs) ≡ 32
sum_hash-length bs = length-replicate 32 (le bs % 251)

stretch_key-hash_chain_example :
    stretch_key sum_hash (replicate 32 1) (replicate 16 2) 3
    ≡ hash_chain sum_hash (replicate 32 1) (replicate 16 2) 3 0 (replicate 32 0)
stretch_key-hash_chain_example =
    stretch_key-hash_chain sum_hash (replicate 32 1) (replicate 16 2) sum_hash-length refl refl 3

derive_key-groups_example :
    derive_key_from_recovery_key (map group_of (258 ∷ 65535 ∷ []))
    ≡ ok (flatten (map (le_bytes 2) (258 ∷ 65535 ∷ [])) ++ zeros (16 - 2 * 2))
derive_key-groups_example =
    derive_key-groups (258 ∷ 65535 ∷ []) (omega arith) (omega arith, (omega arith, tt))
