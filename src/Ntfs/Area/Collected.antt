-- ===== src/Ntfs/Area/Collected.antt =====
-- `CollectMFTArea` of disk/volume/ntfs.go against the plain reading of a run list.
use file_system_forensics.Base.{
  All, Bytes, List, [], arith, drop, drop-append, drop-drop, false, inl, inr, le→leb, length,
  length-append, length-drop, length-replicate, length-take, refl, replicate, sym, take,
  take-append, ℕ, ◌*◌, ◌++◌, ◌+◌, ◌∷◌, ◌≡◌, ◌≤◌,
}
use file_system_forensics.Base.Int.{is_negative, negsuc, pos, pos_part, ℤ, ◌*ℤ◌, ◌+ℤ◌, ◌==ℤ◌}
use file_system_forensics.Go.{copy, copy_front, ok}
use file_system_forensics.Ntfs.Area.{collect_from, collect_mft_area, get_run_list}
use file_system_forensics.Ntfs.Attribute.{Attribute}
use file_system_forensics.Ntfs.Content.Runwise.{OnDisk, content_of, stretch, total_size}
use file_system_forensics.Ntfs.Content.State.{place}
use file_system_forensics.Ntfs.Runs.{Run}
use mathlib.Core.List.{append_assoc}

-- A run with an offset of its own: `CollectMFTArea` does not know sparse runs.
abbrev pub HasOffset : Run → Type 0
HasOffset run = (run.offset ==ℤ pos 0) ≡ false

module _ (disk : Bytes) (p cs : ℕ) (read_file : ℤ → ℕ → Bytes)
    (reads : (o n : ℕ) → o + n ≤ length disk → read_file (pos o) n ≡ stretch disk o n) where
  read_place :
      (z : ℤ) (n : ℕ)
      → is_negative z ≡ false
      → p + pos_part z * cs + n ≤ length disk
      → read_file (pos p +ℤ (z *ℤ cs)) n ≡ stretch disk (p + pos_part z * cs) n
  read_place (pos m) n h bound = rw (place disk p cs m) (reads (p + m * cs) n bound)
  read_place (negsuc m) n h bound = absurd cc

  collect_from_step :
      (run : Run) (runs : List Run) (current : ℤ) (read_data : ℕ) (buf : Bytes)
      → read_data ≤ length buf
      → collect_from read_file (pos p) cs (run ∷ runs) current read_data buf
        ≡ collect_from read_file
            (pos p)
            cs
            runs
            (current +ℤ run.offset)
            (read_data + run.length_cl * cs)
            (take read_data buf
              ++ copy
                  (drop read_data buf)
                  (read_file (pos p +ℤ ((current +ℤ run.offset) *ℤ cs)) (run.length_cl * cs)))
  unfolding collect_from
  collect_from_step run runs current read_data buf inside =
      ground (arith, le→leb read_data (length buf) inside)

  collect_from-content_of :
      (runs : List Run) (current : ℤ) (w rest : Bytes) (read_data : ℕ)
      → read_data ≡ length w
      → OnDisk disk p cs current runs
      → All HasOffset runs
      → total_size disk p cs runs ≤ length rest
      → collect_from read_file (pos p) cs runs current read_data (w ++ rest)
        ≡ ok (w ++ (content_of disk p cs current runs ++ drop (total_size disk p cs runs) rest))
  unfolding collect_from
  collect_from-content_of [] current w rest read_data e on all room = refl
  collect_from-content_of (run ∷ runs) current w rest read_data e (up, inl sparse, on) (o, all)
        room =
      absurd (ground (arith, sparse, o))
  collect_from-content_of (run ∷ runs) current w rest read_data e (up, inr bound, on) (o, all)
        room =
      let z = current +ℤ run.offset in
      let n = run.length_cl * cs in
      let got = stretch disk (p + pos_part z * cs) n in
      let read = read_place z n up bound in
      let width : length got ≡ n = omega (
        arith,
        length-take n (drop (p + pos_part z * cs) disk),
        length-drop (p + pos_part z * cs) disk,
      ) in
      let inside : read_data ≤ length (w ++ rest) = omega (arith, length-append w rest) in
      let copied : copy rest got ≡ got ++ drop (length got) rest =
        copy_front rest got (omega arith) in
      let later =
        collect_from-content_of runs z (w ++ got) (drop (length got) rest) (read_data + n)
          (omega (arith, length-append w got)) on all
          (omega (arith, length-drop (length got) rest)) in
      let behind =
        drop-drop (length got) (total_size disk p cs runs) (n + total_size disk p cs runs) rest
          (omega arith) in
      rw
        (
          collect_from_step run runs current read_data (w ++ rest) inside,
          read,
          take-append w rest read_data e,
          drop-append w rest read_data e,
          copied,
          sym (append_assoc w got (drop (length got) rest)),
          later,
          o,
          behind,
          append_assoc w got
              (content_of disk p cs z runs ++ drop (n + total_size disk p cs runs) rest),
          append_assoc got (content_of disk p cs z runs)
              (drop (n + total_size disk p cs runs) rest),
        )
        refl

  -- Where the disk gives its own bytes, every run of record 0 has an offset and lies on the disk, and
  -- the runs fit the size of the table, CollectMFTArea gives the bytes of the runs, one behind the
  -- other, and zeros behind them.
  pub collect_mft_area-content_of :
      {Body : Type 0} (attributes : List (Attribute Body)) (runs : List Run) (size_cl : ℕ)
      → get_run_list attributes ≡ ok runs
      → OnDisk disk p cs (pos 0) runs
      → All HasOffset runs
      → total_size disk p cs runs ≤ size_cl * cs
      → collect_mft_area read_file (pos p) cs attributes size_cl
        ≡ ok (
            content_of disk p cs (pos 0) runs
            ++ drop (total_size disk p cs runs) (replicate (size_cl * cs) 0))
  unfolding collect_mft_area
  collect_mft_area-content_of attributes runs size_cl e on all room =
      let zero_byte : ℕ = 0 in
      rw e (
        collect_from-content_of runs (pos 0) [] (replicate (size_cl * cs) 0) 0 refl on all
          (omega (arith, length-replicate (size_cl * cs) zero_byte)))
