-- ===== src/Ntfs/Runs/Total.antt =====
-- `RunList.Process` on any bytes at all: it ends, and its total is that of the runs it gives.
use file_system_forensics.Base.{
  List, Option, [], arith, inl, inr, none, refl, some, suc, zero, ℕ, ◌%◌, ◌++◌, ◌+◌, ◌-◌, ◌<◌, ◌^◌,
  ◌∷◌, ◌≡◌, ◌≢◌, ◌⊎◌,
}
use file_system_forensics.Go.{Error, Result, Slice, at, crash, err, len, ok, stuck, subslice}
use file_system_forensics.Ntfs.Runs.{Run, empty_run, link, process, process_from, read_run}

run-progress :
    (s : Slice) (i : ℕ) (run : Run) (next : ℕ) → read_run s i ≡ ok (some (run, next)) → i < next
unfolding read_run at subslice
run-progress s i run next e = ground arith

read_run-ne-stuck : (s : Slice) (i : ℕ) → read_run s i ≢ stuck
unfolding read_run at subslice
read_run-ne-stuck s i e = ground arith

Run-cases :
    (r : Result (Option (Run × ℕ)))
    → r ≢ stuck
    → ((run : Run) × (next : ℕ) × (r ≡ ok (some (run, next))))
      ⊎ ((r ≡ ok none) ⊎ (r ≡ crash) ⊎ ((e : Error) × (r ≡ err e)))
Run-cases (ok none) h = inr (inl refl)
Run-cases (ok (some (run, next))) h = inl (run, next, refl)
Run-cases (err e) h = inr (inr (inr (e, refl)))
Run-cases crash h = inr (inr (inl refl))
Run-cases stuck h = absurd (h refl)

process_from-ne-stuck :
    (fuel : ℕ) (s : Slice) (i total : ℕ) (runs : List Run)
    → len s - i < fuel
    → process_from fuel s i total runs ≢ stuck
unfolding process_from
process_from-ne-stuck zero s i total runs h = absurd (omega arith)
process_from-ne-stuck (suc fuel) s i total runs h =
    elim (Run-cases (read_run s i) (read_run-ne-stuck s i)) [
      | inl (run, next, e) ↦ ground (
        arith,
        e,
        run-progress s i run next e,
        process_from-ne-stuck fuel s next ((total + run.length_cl) % 2 ^ 64) (link i runs run),
      )
      | inr stops ↦ ground (arith, stops)
    ]

-- `Process` ends on every byte string, however malformed.
pub process-ne-stuck : (s : Slice) → process s ≢ stuck
unfolding process
process-ne-stuck s = process_from-ne-stuck (suc (len s)) s 0 0 (empty_run ∷ []) (omega arith)

abbrev pub clusters_of : List Run → ℕ
clusters_of [] = 0
clusters_of (r ∷ rs) = r.length_cl + clusters_of rs

clusters_of-append : (xs ys : List Run) → clusters_of (xs ++ ys) ≡ clusters_of xs + clusters_of ys
clusters_of-append [] ys = omega arith
clusters_of-append (x ∷ xs) ys = omega (arith, clusters_of-append xs ys)

clusters_of-link :
    (i : ℕ) (runs : List Run) (run : Run)
    → (i ≡ 0 → clusters_of runs ≡ 0)
    → clusters_of (link i runs run) ≡ clusters_of runs + run.length_cl
clusters_of-link zero runs run z = omega (arith, z refl)
clusters_of-link (suc i) runs run z = omega (arith, clusters_of-append runs (run ∷ []))

process_from_total :
    (fuel : ℕ) (s : Slice) (i total : ℕ) (runs out : List Run) (n : ℕ)
    → (i ≡ 0 → clusters_of runs ≡ 0)
    → total ≡ clusters_of runs % 2 ^ 64
    → process_from fuel s i total runs ≡ ok (out, n)
    → n ≡ clusters_of out % 2 ^ 64
unfolding process_from
process_from_total zero s i total runs out n z t e = cc
process_from_total (suc fuel) s i total runs out n z t e =
    elim (Run-cases (read_run s i) (read_run-ne-stuck s i)) [
      | inl (run, next, r) ↦
          let later : next ≡ 0 → clusters_of (link i runs run) ≡ 0 =
            λ q. absurd (omega (arith, run-progress s i run next r)) in
          let sum : (total + run.length_cl) % 2 ^ 64 ≡ clusters_of (link i runs run) % 2 ^ 64 =
            omega (arith, clusters_of-link i runs run z) in
          ground (
            arith,
            r,
            process_from_total fuel s next ((total + run.length_cl) % 2 ^ 64) (link i runs run) out
                n later sum,
          )
      | inr stops ↦ ground (arith, stops)
    ]

-- Where `Process` gives a run list, its total is the number of clusters in the list, in 64 bits.
pub process_total :
    (s : Slice) (runs : List Run) (n : ℕ) → process s ≡ ok (runs, n) → n ≡ clusters_of runs % 2 ^ 64
unfolding process
process_total s runs n e =
    process_from_total (suc (len s)) s 0 0 (empty_run ∷ []) runs n (λ _. refl) refl e
