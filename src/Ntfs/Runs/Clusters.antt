-- ===== src/Ntfs/Runs/Clusters.antt =====
-- `GetAllocatedClusters` of FS/NTFS/MFT/MFT.go: the clusters that it lists for a run list.
use file_system_forensics.Base.{
  All, List, [], if◌then◌else◌, refl, suc, true, zero, ℕ, ◌++◌, ◌∷◌, ◌≡◌,
}
use file_system_forensics.Base.Int.{pos, pos-zero, ℤ, ◌+ℤ◌, ◌==ℤ◌}
use file_system_forensics.Ntfs.Runs.{Run}

-- The inner loop: `length` clusters from `first`.
unfoldable clusters_from : ℕ → ℤ → List ℤ
clusters_from zero first = []
clusters_from (suc n) first = first ∷ clusters_from n (first +ℤ pos 1)

-- `GetAllocatedClusters` on the run list of the DATA attribute: it sums up `offset`, and does not use
-- the sum.
unfoldable get_allocated_clusters : List Run → List ℤ
get_allocated_clusters [] = []
get_allocated_clusters (run ∷ rest) =
    (if run.offset ==ℤ pos 0 then [] else clusters_from run.length_cl run.offset)
    ++ get_allocated_clusters rest

-- The clusters by their place on the disk: each run's offset counts from the run before.
abbrev placed_clusters : ℤ → List Run → List ℤ
placed_clusters base [] = []
placed_clusters base (run ∷ rest) =
    (if run.offset ==ℤ pos 0 then [] else clusters_from run.length_cl (base +ℤ run.offset))
    ++ placed_clusters (base +ℤ run.offset) rest

sparse_rest :
    (base : ℤ) (rest : List Run)
    → All (λ r. (r.offset ==ℤ pos 0) ≡ true) rest
    → (get_allocated_clusters rest ≡ []) × (placed_clusters base rest ≡ [])
unfolding get_allocated_clusters
sparse_rest base [] h = (refl, refl)
sparse_rest base (r ∷ rest) (z, h) =
    (rw z (sparse_rest base rest h).0, rw z (sparse_rest (base +ℤ r.offset) rest h).1)

-- Where only the first run has an offset, `GetAllocatedClusters` lists exactly the run list's clusters
-- on the disk, in their order.
get_allocated_clusters-placed :
    (run : Run) (rest : List Run)
    → All (λ r. (r.offset ==ℤ pos 0) ≡ true) rest
    → get_allocated_clusters (run ∷ rest) ≡ placed_clusters (pos 0) (run ∷ rest)
unfolding get_allocated_clusters
get_allocated_clusters-placed run rest h =
    let (code, place) = sparse_rest (pos 0 +ℤ run.offset) rest h in
    rw (code, place) (rw (pos-zero run.offset) refl)
