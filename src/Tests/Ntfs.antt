-- ===== src/Tests/Ntfs.antt =====
-- Inputs for FS/NTFS/MFT.
use file_system_forensics.Base.{
  Bytes, List, [], arith, drop, false, get_elem?, if◌then◌else◌, inl, inr, leb, length, le→leb, map,
  refl, replicate, set, some, ℕ, ◌%◌, ◌*◌, ◌++◌, ◌+◌, ◌^◌, ◌∷◌, ◌≡◌, ◌≢◌, ◌≤◌,
}
use file_system_forensics.Base.Int.{negsuc, pos, ℤ, ◌+ℤ◌}
use file_system_forensics.Go.{Result, Slice, at, err, full, ok, read_failed, stuck, subslice, ◌>>=◌}
use file_system_forensics.Ntfs.Bitmap.{clusters_status}
use file_system_forensics.Ntfs.Bitmap.Bits.{bit, clusters_status-bit}
use file_system_forensics.Ntfs.Content.{get_content}
use file_system_forensics.Ntfs.Content.Coalesced.{get_content-content_of}
use file_system_forensics.Ntfs.Content.Runwise.{OnDisk, content_of, stretch, total_size}
use file_system_forensics.Ntfs.FixUp.{process_fix_up_arrays, restore}
use file_system_forensics.Ntfs.FixUp.Restore.{process_fix_up_arrays-fixed}
use file_system_forensics.Ntfs.Runs.{Run, process, process_from, read_run}
use file_system_forensics.Ntfs.Runs.Decode.{
  Encoded, IsEncoded, encode, meaning, process-encode, total_from,
}
use file_system_forensics.Ntfs.Runs.Total.{clusters_of, process-ne-stuck, process_total}
use file_system_forensics.Utils.Endian.{read_endian_int, read_endian_uint}

-- A data run of three clusters at cluster 0x0140, one of two clusters 16 before it, and the end.
abbrev first_run : Encoded
first_run = record { len_bytes = 3 ∷ []; off_bytes = 0x40 ∷ 0x01 ∷ [] }

abbrev second_run : Encoded
second_run = record { len_bytes = 2 ∷ []; off_bytes = 0xf0 ∷ [] }

first_run-IsEncoded : IsEncoded first_run
first_run-IsEncoded = record {
  len_byte = (omega arith, tt);
  off_byte = (omega arith, (omega arith, tt));
  len_pos = omega arith;
  len_max = omega arith;
  off_max = omega arith;
}

second_run-IsEncoded : IsEncoded second_run
second_run-IsEncoded = record {
  len_byte = (omega arith, tt);
  off_byte = (omega arith, tt);
  len_pos = omega arith;
  len_max = omega arith;
  off_max = omega arith;
}

process-encode_example :
    process (record { bytes = encode (first_run ∷ second_run ∷ []) ++ (0 ∷ 9 ∷ []); spare = [] })
    ≡ ok (
      meaning first_run ∷ map meaning (second_run ∷ []),
      total_from 0 (first_run ∷ second_run ∷ []),
    )
process-encode_example =
    process-encode first_run (second_run ∷ []) (0 ∷ 9 ∷ []) []
      (first_run-IsEncoded, (second_run-IsEncoded, tt)) refl

process-ne-stuck_example : process (full (0x21 ∷ 3 ∷ 0x40 ∷ 1 ∷ 0x11 ∷ [])) ≢ stuck
process-ne-stuck_example = process-ne-stuck (full (0x21 ∷ 3 ∷ 0x40 ∷ 1 ∷ 0x11 ∷ []))

abbrev short_list : Slice
short_list = full (0x11 ∷ 3 ∷ 0x40 ∷ 0 ∷ [])

short_list-runs : process short_list ≡ ok (record { offset = pos 0x40; length_cl = 3 } ∷ [], 3)
unfolding process process_from read_run read_endian_int read_endian_uint subslice at
short_list-runs = refl

process_total_example : 3 ≡ clusters_of (record { offset = pos 0x40; length_cl = 3 } ∷ []) % 2 ^ 64
process_total_example =
    process_total short_list (record { offset = pos 0x40; length_cl = 3 } ∷ []) 3 short_list-runs

-- A disk of ten bytes, two of them before the partition, with clusters of two bytes.
abbrev disk : Bytes
disk = 90 ∷ 91 ∷ 10 ∷ 11 ∷ 20 ∷ 21 ∷ 30 ∷ 31 ∷ 40 ∷ 41 ∷ []

abbrev read_disk : ℤ → ℕ → Result Bytes
read_disk (pos o) n = if leb (o + n) 10 then ok (stretch disk o n) else err read_failed
read_disk (negsuc o) n = err read_failed

read_disk_within : (o n : ℕ) → o + n ≤ length disk → read_disk (pos o) n ≡ ok (stretch disk o n)
read_disk_within o n h = rw (le→leb (o + n) 10 (omega arith)) refl

-- Two neighbours on the disk, a sparse run, and one before them.
abbrev run_one : Run
run_one = record { offset = pos 1; length_cl = 2 }

abbrev more_runs : List Run
more_runs =
    record { offset = pos 2; length_cl = 1 }
    ∷ record { offset = pos 0; length_cl = 1 }
    ∷ record { offset = negsuc 2; length_cl = 1 }
    ∷ []

more_runs-OnDisk : OnDisk disk 2 2 (pos 0) (run_one ∷ more_runs)
unfolding ◌+ℤ◌
more_runs-OnDisk = (
  refl,
  inr (omega arith),
  (refl, inr (omega arith), (refl, inl refl, (refl, inr (omega arith), tt))),
)

get_content-content_of_example :
    get_content read_disk (pos 2) 2 (run_one ∷ more_runs) (full (replicate 12 9))
    ≡ ok (record {
      bytes =
          content_of disk 2 2 (pos 0) (run_one ∷ more_runs)
          ++ drop (total_size disk 2 2 (run_one ∷ more_runs)) (replicate 12 9);
      spare = [];
    })
get_content-content_of_example =
    get_content-content_of disk 2 2 read_disk (omega arith) read_disk_within run_one more_runs
      (full (replicate 12 9)) more_runs-OnDisk (omega arith) (omega arith)

-- A record buffer of 512 bytes whose update sequence stands at 48.
abbrev sector : Slice
sector = full (replicate 48 0 ++ (7 ∷ 8 ∷ 1 ∷ 2 ∷ []) ++ (replicate 458 0 ++ (7 ∷ 8 ∷ [])))

process_fix_up_arrays-fixed_example :
    (process_fix_up_arrays 48 (0 + 2) sector >>= λ f. restore f sector)
    ≡ ok (record sector { bytes = set (set sector.bytes 510 1) 511 2 }, false)
process_fix_up_arrays-fixed_example =
    process_fix_up_arrays-fixed sector 48 0 (omega arith) (omega arith)

clusters_status-bit_example :
    get_elem? (clusters_status (0x81 ∷ 0x05 ∷ [])) (1 * 8 + 2) ≡ some (bit 0x05 2)
clusters_status-bit_example =
    clusters_status-bit (0x81 ∷ 0x05 ∷ []) 1 2 0x05 (omega arith, (omega arith, tt)) (omega arith)
      refl
