-- ===== src/Ntfs/Bitmap.antt =====
-- `GetClustersStatus` of FS/NTFS/MFT/MFT.go: the bits of $Bitmap, whose bytes the caller has read. The
-- Go map from a position to its status, filled at 0, 1, 2, ..., is the list of the statuses.
pub mod Bits
use file_system_forensics.Base.{
  Bool, Bytes, List, [], bit_and, if◌then◌else◌, ltb, not, suc, zero, ℕ, ◌%◌, ◌++◌, ◌+◌, ◌==◌, ◌^◌,
  ◌∷◌,
}

-- The inner loop: the mask is set from the shifter in the round, and tested for the next one. The
-- shift is that of a uint8; at most eight rounds are left.
unfoldable pub byte_status : ℕ → ℕ → ℕ → ℕ → List Bool
byte_status zero bitmask shifter value = []
byte_status (suc n) bitmask shifter value =
    if ltb bitmask 128
    then not (bit_and value (2 ^ shifter % 256) == 0)
      ∷ byte_status n (2 ^ shifter % 256) (shifter + 1) value
    else []

-- The loop over the bytes; a byte starts with the mask 1 and takes a round for each bit.
unfoldable pub clusters_status : Bytes → List Bool
clusters_status [] = []
clusters_status (value ∷ rest) = byte_status 9 1 0 value ++ clusters_status rest
