-- ===== src/Ntfs/Runs.antt =====
-- Data runs of FS/NTFS/MFT/attributes/attributes.go: `RunList.Process` and `GetContent`, and the
-- cluster list of MFT.go's `GetAllocatedClusters`. The linked list of Go is the list of its nodes,
-- a nil pointer the empty list. Cluster offsets are unbounded integers, lengths 64-bit words.
pub mod Decode
pub mod Total
pub mod Clusters
use file_system_forensics.Base.{
  List, Option, [], bit_and, false, if◌then◌else◌, ltb, none, some, suc, true, zero, ℕ, ◌%◌, ◌++◌,
  ◌+◌, ◌/◌, ◌==◌, ◌^◌, ◌||◌, ◌∷◌,
}
use file_system_forensics.Base.Int.{pos, ℤ}
use file_system_forensics.Go.{Result, Slice, at, len, ok, stuck, subslice, ◌>>=◌}
use file_system_forensics.Utils.Endian.{read_endian_int, read_endian_uint}

pub record Run : Type 0 where
  pub offset : ℤ
  pub length_cl : ℕ

-- The zero value that `new(RunList)` gives.
abbrev pub empty_run : Run
empty_run = record { offset = pos 0; length_cl = 0 }

-- One round of the loop: `none` is a `break`, else the run and where the next header stands.
unfoldable pub read_run : Slice → ℕ → Result (Option (Run × ℕ))
read_run s cluster_ptr = at s cluster_ptr >>= λ header.
    let offs_b = bit_and header 0xf0 / 16 in
    let len_b = bit_and header 0x0f in
    if ltb 8 len_b || ltb 8 offs_b
    then ok none
    else if len_b == 0
    then ok none
    else (subslice s (cluster_ptr + 1) (cluster_ptr + len_b + 1) >>= λ len_bytes.
        subslice s (cluster_ptr + 1 + len_b) (cluster_ptr + len_b + offs_b + 1) >>= λ off_bytes.
        ok (
          some (
            record {
              offset = read_endian_int off_bytes.bytes;
              length_cl = read_endian_uint len_bytes.bytes;
            },
            cluster_ptr + len_b + offs_b + 1,
          )))

-- The first run overwrites the node that the method was called on; later ones are linked behind.
abbrev pub link : ℕ → List Run → Run → List Run
link zero runs run = run ∷ []
link (suc _) runs run = runs ++ (run ∷ [])

unfoldable pub process_from : ℕ → Slice → ℕ → ℕ → List Run → Result (List Run × ℕ)
process_from zero s cluster_ptr total runs = stuck
process_from (suc fuel) s cluster_ptr total runs = elim (ltb cluster_ptr (len s)) [
  | false ↦ ok (runs, total)
  | true ↦ read_run s cluster_ptr >>= elim [
    | none ↦ ok (runs, total)
    | some (run, next) ↦
        process_from fuel s next ((total + run.length_cl) % 2 ^ 64) (link cluster_ptr runs run)
  ]
]

-- `Process` on a fresh node: the run list and its length in clusters. A round takes two bytes at
-- least, so the length of the input is fuel enough.
unfoldable pub process : Slice → Result (List Run × ℕ)
process s = process_from (suc (len s)) s 0 0 (empty_run ∷ [])
