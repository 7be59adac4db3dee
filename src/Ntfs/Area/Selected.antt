-- ===== src/Ntfs/Area/Selected.antt =====
-- Which records of the $MFT `ProcessMFT` of disk/volume/ntfs.go hands to the workers.
use file_system_forensics.Base.{
  All, ◌↔◌, Bool, Bool-cases, Bytes, List, Option, [], ap, arith, false, if◌then◌else◌, inl, inr,
  length, length-append, length-replicate, ltb, ltb-false, lt→ltb, refl, replicate, set, suc, sym,
  true, zero, ℕ, ◌*◌, ◌++◌, ◌+◌, ◌/◌, ◌<◌, ◌∙◌, ◌∷◌, ◌≡◌, ◌⊎◌, ◌≤◌, not, ◌&&◌,
}
use file_system_forensics.Base.Int.{ltb_ℤ, pos, ℤ, ◌==ℤ◌}
use file_system_forensics.Go.{Error, Slice, len, ok, subslice_middle}
use file_system_forensics.Ntfs.Area.{is_selected, max_uint32, process_mft, select_from}
use file_system_forensics.Ntfs.Table.{MftTable, TableRecord, mft_worker, process_records_async}
use mathlib.Core.List.{append_assoc}
use file_system_forensics.Ntfs.Area.Wanted.{IsWanted, is_selected_iff}

-- The bytes of the records, one behind the other.
unfoldable pub joined : List Bytes → Bytes
joined [] = []
joined (r ∷ rs) = r ++ joined rs

abbrev pub IsWhole : Bytes → Type 0
IsWhole r = length r ≡ 1024

abbrev no_bytes : Bytes
no_bytes = []

-- What the loop leaves: a record that is not selected keeps an empty place.
unfoldable kept : (ℕ → Bool) → ℕ → List Bytes → List Bytes
kept selected k [] = []
kept selected k (r ∷ rs) = (if selected k then r else []) ∷ kept selected (k + 1) rs

-- The selected records, in their order.
unfoldable pub selected_records : (ℕ → Bool) → ℕ → List Bytes → List Bytes
selected_records selected k [] = []
selected_records selected k (r ∷ rs) =
    let rest = selected_records selected (k + 1) rs in if selected k then r ∷ rest else rest

length-joined : (rs : List Bytes) → All IsWhole rs → length (joined rs) ≡ 1024 * length rs
unfolding joined
length-joined [] all = refl
length-joined (r ∷ rs) (whole, all) =
    omega (arith, length-append r (joined rs), length-joined rs all, whole)

set-middle :
    (done rest : List Bytes) (old new : Bytes) (k : ℕ)
    → k ≡ length done
    → set (done ++ (old ∷ rest)) k new ≡ done ++ (new ∷ rest)
set-middle [] rest old new zero e = refl
set-middle [] rest old new (suc k) e = absurd (omega arith)
set-middle (d ∷ done) rest old new zero e = absurd (omega arith)
set-middle (d ∷ done) rest old new (suc k) e =
    ap (◌∷◌ d) (set-middle done rest old new k (omega arith))

module _ (selected : ℕ → Bool) (area : Slice) (fuel k i : ℕ) (records : List Bytes) where
  select_from_end : len area ≤ i → select_from (suc fuel) selected area i records ≡ ok records
  unfolding select_from
  select_from_end out = ground (arith, ltb-false i (len area) out)

  select_from_skip :
      i < len area
      → i / 1024 ≡ k
      → selected k ≡ false
      → select_from (suc fuel) selected area i records
        ≡ select_from fuel selected area (i + 1024) records
  unfolding select_from
  select_from_skip inside place left_out =
      ground (arith, lt→ltb i (len area) inside, place, left_out)

  select_from_take :
      (pre r post : Bytes)
      → area.bytes ≡ pre ++ (r ++ post)
      → i ≡ length pre
      → length r ≡ 1024
      → i / 1024 ≡ k
      → selected k ≡ true
      → k < length records
      → select_from (suc fuel) selected area i records
        ≡ select_from fuel selected area (i + 1024) (set records k r)
  unfolding select_from
  select_from_take pre r post e ei whole place picked room =
      let inside : i < len area =
        rw e (omega (arith, length-append pre (r ++ post), length-append r post)) in
      let chunk = subslice_middle area pre r post i (i + 1024) e ei (omega arith) in
      let below : ltb k (length records) ≡ true = lt→ltb k (length records) room in
      ground (arith, lt→ltb i (len area) inside, place, picked, chunk, below)

module _ (selected : ℕ → Bool) (area : Slice) where
  select_from-kept :
      (fuel k i : ℕ) (pre : Bytes) (done rest records : List Bytes)
      → All IsWhole rest
      → area.bytes ≡ pre ++ joined rest
      → length pre ≡ 1024 * k
      → i ≡ 1024 * k
      → length done ≡ k
      → records ≡ done ++ replicate (length rest) []
      → length rest < fuel
      → select_from fuel selected area i records ≡ ok (done ++ kept selected k rest)
  unfolding select_from kept joined
  select_from-kept zero k i pre done rest records all e lp ei ld er f = absurd (omega arith)
  select_from-kept (suc fuel) k i pre done [] records all e lp ei ld er f =
      let whole : len area ≡ length pre = rw e (omega (arith, length-append pre [])) in
      select_from_end selected area fuel k i records (omega arith) ∙ ap ok er
  select_from-kept (suc fuel) k i pre done (r ∷ rs) records (whole_r, all) e lp ei ld er f =
      let whole : len area ≡ length pre + (length r + length (joined rs)) =
        rw e (omega (arith, length-append pre (r ++ joined rs), length-append r (joined rs))) in
      let place : i / 1024 ≡ k = omega arith in
      let room : length records ≡ length done + suc (length rs) = rw er (
        omega (
          arith,
          length-append done ([] ∷ replicate (length rs) []),
          length-replicate (length rs) no_bytes,
        )) in
      let go : (x : Bytes) (records' : List Bytes)
          → records' ≡ done ++ (x ∷ replicate (length rs) [])
          → select_from fuel selected area (i + 1024) records'
            ≡ ok (done ++ (x ∷ kept selected (k + 1) rs)) =
        λ x records' eq.
          select_from-kept fuel (k + 1) (i + 1024) (pre ++ r) (done ++ (x ∷ [])) rs records' all
            (e ∙ sym (append_assoc pre r (joined rs))) (omega (arith, length-append pre r))
            (omega arith) (omega (arith, length-append done (x ∷ [])))
            (eq ∙ sym (append_assoc done (x ∷ []) (replicate (length rs) []))) (omega arith)
          ∙ ap ok (append_assoc done (x ∷ []) (kept selected (k + 1) rs)) in
      elim (Bool-cases (selected k)) [
        | inl picked ↦
            select_from_take selected area fuel k i records pre r (joined rs) e (omega arith)
              whole_r place picked (omega arith)
            ∙ rw picked (
                go r (set records k r)
                  (rw er (set-middle done (replicate (length rs) []) [] r k (sym ld))))
        | inr left_out ↦
            select_from_skip selected area fuel k i records (omega arith) place left_out
            ∙ rw left_out (go [] records er)
      ]

module _ (process_data : Bytes → TableRecord × Option Error) where
  process_records_async-kept :
      (selected : ℕ → Bool) (k : ℕ) (rs : List Bytes) (t : MftTable)
      → process_records_async process_data t (kept selected k rs)
        ≡ process_records_async process_data t (selected_records selected k rs)
  unfolding process_records_async kept selected_records mft_worker
  process_records_async-kept selected k [] t = refl
  process_records_async-kept selected k (r ∷ rs) t = elim (Bool-cases (selected k)) [
    | inl picked ↦
        rw picked (process_records_async-kept selected (k + 1) rs (mft_worker process_data t r))
    | inr left_out ↦ rw left_out (process_records_async-kept selected (k + 1) rs t)
  ]

  end_allowed :
      (to_entry : ℤ) (n : ℕ)
      → (to_entry ≡ max_uint32) ⊎ (ltb_ℤ (pos n) to_entry ≡ false)
      → (not (to_entry ==ℤ max_uint32) && ltb_ℤ (pos n) to_entry) ≡ false
  end_allowed to_entry n (inl e) = rw e refl
  end_allowed to_entry n (inr e) = elim (Bool-cases (to_entry ==ℤ max_uint32)) [
    | inl same ↦ rw same refl
    | inr other ↦ rw (other, e) refl
  ]

  -- On an area of whole records, with a first entry that is not above their number and a last entry
  -- that is the default or not above it, ProcessMFT gives the table that the workers make of exactly
  -- the selected records, in their order; and record i is selected exactly where the list has it or is
  -- empty, and i lies between the first and the last entry, both included.
  pub process_mft-selected :
      (t : MftTable) (area : Slice) (records : List Bytes) (entries : List ℤ)
      (from_entry to_entry : ℤ)
      → area.bytes ≡ joined records
      → All IsWhole records
      → ltb_ℤ (pos (length records)) from_entry ≡ false
      → (to_entry ≡ max_uint32) ⊎ (ltb_ℤ (pos (length records)) to_entry ≡ false)
      → (process_mft process_data t area entries from_entry to_entry
          ≡ ok (
              process_records_async process_data t
                (selected_records (is_selected entries from_entry to_entry) 0 records)))
        × ((i : ℕ)
            → (is_selected entries from_entry to_entry i ≡ true)
              ↔ IsWanted entries from_entry to_entry (pos i))
  unfolding process_mft
  process_mft-selected t area records entries from_entry to_entry e all from_ok to_ok =
      let size : len area ≡ 1024 * length records = rw e (length-joined records all) in
      let total : len area / 1024 ≡ length records = omega arith in
      (
        rw
            (
              total,
              from_ok,
              end_allowed to_entry (length records) to_ok,
              select_from-kept (is_selected entries from_entry to_entry) area (suc (len area)) 0 0
                  [] [] records (replicate (length records) []) all e refl refl refl refl
                  (omega arith),
              process_records_async-kept (is_selected entries from_entry to_entry) 0 records t,
            )
            refl,
        is_selected_iff entries from_entry to_entry,
      )
