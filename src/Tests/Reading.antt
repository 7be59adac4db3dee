-- ===== src/Tests/Reading.antt =====
-- Inputs for utils/utils.go and the on-disk structures.
use file_system_forensics.Base.{[], replicate, ◌∷◌}
use file_system_forensics.Go.{Slice, full}

abbrev sector : Slice
sector = full (replicate 512 7)

abbrev entry : Slice
entry = full (0x80 ∷ 1 ∷ 1 ∷ 0 ∷ 7 ∷ 9 ∷ 9 ∷ 9 ∷ 0 ∷ 8 ∷ 0 ∷ 0 ∷ 0 ∷ 0 ∷ 1 ∷ 0 ∷ [])
