-- ===== src/Ntfs/Table/Workers.antt =====
-- `MFTWorker` and `ProcessRecordsAsync` of FS/NTFS/MFT/Table.go: the order of the workers.
use file_system_forensics.Base.{
  Bool-cases, Bytes, List, Option, [], ap, if◌then◌else◌, inl, inr, leb, length, length-set, refl,
  set, suc, sym, zero, ℕ, ◌+◌, ◌==◌, ◌∷◌, ◌≡◌, ◌≢◌, ◌⊎◌,
}
use file_system_forensics.Go.{Error}
use file_system_forensics.Ntfs.Table.{MftTable, TableRecord, is_not_valid, mft_worker}

set_comm :
    (xs : List TableRecord) (i j : ℕ) (v w : TableRecord)
    → i ≢ j
    → set (set xs i v) j w ≡ set (set xs j w) i v
set_comm [] i j v w h = refl
set_comm (x ∷ xs) zero zero v w h = absurd (h refl)
set_comm (x ∷ xs) zero (suc j) v w h = refl
set_comm (x ∷ xs) (suc i) zero v w h = refl
set_comm (x ∷ xs) (suc i) (suc j) v w h =
    ap (λ (t : List TableRecord). x ∷ t) (set_comm xs i j v w (λ e. h (ap suc e)))

abbrev pub store : MftTable → TableRecord → MftTable
store t r =
    if leb (length t.records) r.entry then t else record t { records = set t.records r.entry r }

abbrev pub count : MftTable → MftTable
count t = record t { non_valid_records = t.non_valid_records + 1 }

store_comm :
    (t : MftTable) (r q : TableRecord)
    → r.entry ≢ q.entry
    → store (store t r) q ≡ store (store t q) r
store_comm t r q h =
    let lr = length-set t.records r.entry r in
    let lq = length-set t.records q.entry q in
    elim (Bool-cases (leb (length t.records) r.entry)) [
      | inl r_out ↦ elim (Bool-cases (leb (length t.records) q.entry)) [
        | inl q_out ↦ rw (r_out, q_out, r_out) refl
        | inr q_in ↦ rw (r_out, q_in, lq, r_out) refl
      ]
      | inr r_in ↦ elim (Bool-cases (leb (length t.records) q.entry)) [
        | inl q_out ↦ rw (r_in, q_out, lr, q_out, r_in) refl
        | inr q_in ↦
            rw (r_in, q_in, lr, lq, r_in, q_in, set_comm t.records r.entry q.entry r q h) refl
      ]
    ]

store-count : (t : MftTable) (r : TableRecord) → store (count t) r ≡ count (store t r)
store-count t r = elim (Bool-cases (leb (length t.records) r.entry)) [
  | inl out ↦ rw out refl
  | inr fits ↦ rw fits refl
]

module _ (process_data : Bytes → TableRecord × Option Error) where
  -- A worker does one of three things, whatever the table.
  pub mft_worker-cases :
      (chunk : Bytes)
      → ((t : MftTable) → mft_worker process_data t chunk ≡ t)
        ⊎ (((t : MftTable) → mft_worker process_data t chunk ≡ count t)
            ⊎ ((t : MftTable) → mft_worker process_data t chunk ≡ store t (process_data chunk).0))
  unfolding mft_worker
  mft_worker-cases chunk = elim (Bool-cases (length chunk == 0)) [
    | inl empty ↦ inl (λ t. rw empty refl)
    | inr some_bytes ↦ elim (Bool-cases (is_not_valid (process_data chunk).1)) [
      | inl bad ↦ inr (inl (λ t. rw (some_bytes, bad) refl))
      | inr good ↦ inr (inr (λ t. rw (some_bytes, good) refl))
    ]
  ]

  -- Two workers whose records have different numbers can run in either order: the table and the count
  -- of records that are not valid come out the same.
  pub mft_worker_comm :
      (t : MftTable) (a b : Bytes)
      → (process_data a).0.entry ≢ (process_data b).0.entry
      → mft_worker process_data (mft_worker process_data t a) b
        ≡ mft_worker process_data (mft_worker process_data t b) a
  mft_worker_comm t a b h = elim (mft_worker-cases a) [
    | inl x ↦ rw (x t, x (mft_worker process_data t b)) refl
    | inr (inl x) ↦ elim (mft_worker-cases b) [
      | inl y ↦ rw (y t, y (mft_worker process_data t a)) refl
      | inr (inl y) ↦ rw (x t, y t, y (count t), x (count t)) refl
      | inr (inr y) ↦
          rw (x t, y t, y (count t), x (store t (process_data b).0))
            (store-count t (process_data b).0)
    ]
    | inr (inr x) ↦ elim (mft_worker-cases b) [
      | inl y ↦ rw (y t, y (mft_worker process_data t a)) refl
      | inr (inl y) ↦
          rw (x t, y t, y (store t (process_data a).0), x (count t))
            (sym (store-count t (process_data a).0))
      | inr (inr y) ↦
          rw (x t, y t, y (store t (process_data a).0), x (store t (process_data b).0))
            (store_comm t (process_data a).0 (process_data b).0 h)
    ]
  ]
