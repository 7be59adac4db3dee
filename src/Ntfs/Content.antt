-- ===== src/Ntfs/Content.antt =====
-- `GetContent` of a non-resident attribute (FS/NTFS/MFT/attributes/attributes.go): the runs read
-- into the destination, neighbours on the disk in one read. The disk reader is a parameter. An
-- error drops what was written before it.
pub mod Runwise
pub mod State
pub mod Coalesced
use file_system_forensics.Base.{
  Bool, Bytes, List, [], drop, if◌then◌else◌, leb, length, ltb, suc, take, zero, ℕ, ◌%◌, ◌&&◌, ◌*◌,
  ◌++◌, ◌+◌, ◌/◌, ◌==◌, ◌^◌, ◌||◌, ◌∷◌,
}
use file_system_forensics.Base.Int.{is_negative, ltb_ℤ, pos, ℤ, ◌*ℤ◌, ◌+ℤ◌, ◌==ℤ◌}
use file_system_forensics.Go.{
  Result, Slice, copy, crash, err, len, negative_offset, no_runlist, ok, put,
  runlist_exceeds_buffer, ◌>>=◌,
}
use file_system_forensics.Ntfs.Runs.{Run}
use file_system_forensics.Utils.Layout.{size}

-- Both operands are below 2 ^ 63, the sum is compared as the int that it wraps to.
abbrev exceeds : ℕ → ℕ → Bool
exceeds n bound = ltb bound n && ltb n (2 ^ 63)

-- `copy(s[lo:lo+n], src)`, the slice expression growing into what is behind `s`.
unfoldable pub write : Slice → ℕ → ℕ → Bytes → Result Slice
write s lo n src =
    let all = s.bytes ++ s.spare in
    let new = take lo all ++ (copy (take n (drop lo all)) src ++ drop (lo + n) all) in
    if leb (lo + n) (length all)
    then ok (record { bytes = take (len s) new; spare = drop (len s) new })
    else crash

unfoldable pub fill_zero : ℕ → ℕ → Slice → Result Slice
fill_zero zero i s = ok s
fill_zero (suc n) i s = put s i 0 >>= λ s'. fill_zero n (i + 1) s'

pub record Reading : Type 0 where
  pub buffer : Slice
  pub data_read : ℕ
  pub pending_offset : ℤ
  pub pending_size : ℕ

unfoldable pub start_pending : ℤ → ℕ → Reading → Reading
start_pending current size st = record st { pending_offset = current; pending_size = size }

module _ (read_file : ℤ → ℕ → Result Bytes) (partition_offset : ℤ) (cluster_size : ℕ) where
  -- `flushPending`.
  unfoldable pub flush : Reading → Result Reading
  flush st =
      if st.pending_size == 0
      then ok st
      else if is_negative st.pending_offset
      then err negative_offset
      else let physical = partition_offset +ℤ (st.pending_offset *ℤ cluster_size) in
        if is_negative physical
        then err negative_offset
        else (read_file physical st.pending_size >>= λ got.
            write st.buffer st.data_read st.pending_size got >>= λ buffer. ok (record st {
              buffer = buffer;
              data_read = st.data_read + st.pending_size;
              pending_size = 0;
            }))

  -- `expectedNext`: the division panics on clusters of no bytes.
  unfoldable pub expected_next : Reading → Result ℤ
  expected_next st =
      if cluster_size == 0
      then crash
      else ok (st.pending_offset +ℤ pos (st.pending_size / cluster_size))

  -- A run with an offset: it starts a read or makes the pending one longer. Clusters are unbounded
  -- integers and the pending size an unbounded number, where Go has int64 and int.
  unfoldable pub data_run : ℤ → ℕ → Reading → Result Reading
  data_run current size st =
      if st.pending_size == 0
      then ok (start_pending current size st)
      else (expected_next st >>= λ expected.
          if is_negative current || ltb_ℤ expected current
          then (flush st >>= λ st'. ok (start_pending current size st'))
          else if current ==ℤ expected
          then ok (record st { pending_size = st.pending_size + size })
          else (flush st >>= λ st'. ok (start_pending current size st')))

  -- A run without one: zeros.
  unfoldable pub sparse_run : ℕ → Reading → Result Reading
  sparse_run size st = flush st >>= λ st'. fill_zero size st'.data_read st'.buffer >>= λ buffer.
      ok (record st' { buffer = buffer; data_read = st'.data_read + size })

  -- One round of the loop, up to the step to the next run.
  unfoldable pub add_run : ℤ → Run → Reading → Result Reading
  add_run current run st =
      let size = (run.length_cl * cluster_size) % 2 ^ 64 in
      if leb (2 ^ 63) size || exceeds (st.data_read + size) (len st.buffer)
      then err runlist_exceeds_buffer
      else if run.offset ==ℤ pos 0
      then sparse_run size st
      else data_run current size st

  unfoldable pub read_runs : Run → List Run → ℤ → Reading → Result Reading
  read_runs run [] current st = add_run current run st
  read_runs run (next ∷ rest) current st = add_run current run st >>= λ st'.
      if is_negative (current +ℤ next.offset)
      then err negative_offset
      else read_runs next rest (current +ℤ next.offset) st'

  -- `GetContent`: the destination after it.
  unfoldable pub get_content : List Run → Slice → Result Slice
  get_content [] dst = err no_runlist
  get_content (run ∷ rest) dst =
      read_runs run rest run.offset
        (record { buffer = dst; data_read = 0; pending_offset = pos 0; pending_size = 0 })
      >>= λ st. flush st >>= λ done. ok done.buffer
