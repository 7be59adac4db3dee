-- ===== src/Ntfs/FixUp.antt =====
-- The update sequence of an MFT record: `ProcessFixUpArrays` of FS/NTFS/MFT/MFT.go and the check
-- that `Process` makes with it. A fixup keeps slices of the record's own buffer; they are held by
-- their offsets, so that a write to the buffer shows through them.
pub mod Restore
use file_system_forensics.Base.{
  Bool, List, [], false, if◌then◌else◌, ltb, suc, true, zero, ℕ, ◌%◌, ◌&&◌, ◌*◌, ◌++◌, ◌+◌, ◌-◌,
  ◌/◌, ◌==◌, ◌^◌, ◌∷◌,
}
use file_system_forensics.Go.{
  Result, Slice, at, crash, err, fixup_array_short, fixup_data_short, full, len, ok, put, subslice,
  ◌>>=◌,
}

pub record FixUp : Type 0 where
  pub signature : ℕ
  pub original_values : List ℕ

-- `fixuparray[val:val+2]` for val = 2, 4, ..., as offsets in the record.
unfoldable pub original_offsets : ℕ → ℕ → List ℕ
original_offsets zero offset = []
original_offsets (suc n) offset = offset ∷ original_offsets n (offset + 2)

unfoldable pub process_fix_up_arrays : ℕ → ℕ → Slice → Result FixUp
unfolding subslice original_offsets
process_fix_up_arrays arr_offset arr_size s =
    if ltb (len s) (2 * arr_size % 2 ^ 16)
    then err fixup_data_short
    else (subslice s arr_offset ((arr_offset + 2 * arr_size) % 2 ^ 16) >>= λ fixuparray.
        if ltb 2 (len fixuparray)
        then ok (record {
          signature = arr_offset;
          original_values = original_offsets (len fixuparray / 2 - 1) (arr_offset + 2);
        })
        else err fixup_array_short)

-- A byte of a slice of the buffer, which may lie between its length and its capacity.
unfoldable pub peek : Slice → ℕ → Result ℕ
unfolding at
peek s i = at (full (s.bytes ++ s.spare)) i

unfoldable pub first_original : FixUp → Result ℕ
first_original f = first f.original_values
  where
    first : List ℕ → Result ℕ
    first [] = crash
    first (o ∷ os) = ok o

-- The write of the first original value over bytes 510 and 511.
unfoldable pub put_original : FixUp → Slice → Result (Slice × Bool)
unfolding first_original
put_original f s = first_original f >>= λ o. peek s o >>= λ v0.
    put s 510 v0 >>= λ s1. peek s1 (o + 1) >>= λ v1. put s1 511 v1 >>= λ s2. ok (s2, false)

-- The check of bytes 510 and 511, the second only if the first agrees: restored, or the record marked
-- as a mismatch.
unfoldable pub restore : FixUp → Slice → Result (Slice × Bool)
unfolding put_original
restore f s = peek s f.signature >>= λ sig0. at s 510 >>= λ b0. elim (sig0 == b0) [
  | false ↦ ok (s, true)
  | true ↦ peek s (f.signature + 1) >>= λ sig1.
      at s 511 >>= λ b1. if sig1 == b1 then put_original f s else ok (s, true)
]
