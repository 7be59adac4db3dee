-- ===== src/Ntfs/Content/Runwise.antt =====
-- `GetContent` of FS/NTFS/MFT/attributes/attributes.go against the plain reading of a run list, one
-- run after the other.
use file_system_forensics.Base.{
  Bytes, List, [], ap, arith, drop, drop-append, drop-append_le, drop-drop, false, if◌then◌else◌,
  length, length-append, length-drop, length-take, le→leb, lt→ltb, refl, replicate, set, suc, sym,
  take, take-append, true, zero, ℕ, ◌*◌, ◌++◌, ◌+◌, ◌<◌, ◌∙◌, ◌∷◌, ◌≡◌, ◌≤◌, ◌⊎◌,
}
use file_system_forensics.Base.Int.{is_negative, pos, pos_part, ℤ, ◌+ℤ◌, ◌==ℤ◌}
use file_system_forensics.Go.{copy, ok, put}
use file_system_forensics.Ntfs.Content.{fill_zero, write}
use file_system_forensics.Ntfs.Runs.{Run}
use mathlib.Core.List.{append_assoc}

pub copy_same : (xs ys : Bytes) → length xs ≡ length ys → copy xs ys ≡ ys
unfolding copy
copy_same [] [] h = refl
copy_same [] (y ∷ ys) h = absurd (omega arith)
copy_same (x ∷ xs) [] h = absurd (omega arith)
copy_same (x ∷ xs) (y ∷ ys) h = ap (λ (t : Bytes). y ∷ t) (copy_same xs ys (omega arith))

pub write_middle :
    (w rest spare src : Bytes) (lo n : ℕ)
    → lo ≡ length w
    → length src ≡ n
    → n ≤ length rest
    → write (record { bytes = w ++ rest; spare = spare }) lo n src
      ≡ ok (record { bytes = w ++ (src ++ drop n rest); spare = spare })
unfolding write
write_middle w rest spare src lo n p q h =
    let all : (w ++ rest) ++ spare ≡ w ++ (rest ++ spare) = append_assoc w rest spare in
    let room : lo + n ≤ length ((w ++ rest) ++ spare) =
      omega (arith, length-append (w ++ rest) spare, length-append w rest) in
    let lead : take lo (w ++ (rest ++ spare)) ≡ w = take-append w (rest ++ spare) lo p in
    let target : drop lo (w ++ (rest ++ spare)) ≡ rest ++ spare =
      drop-append w (rest ++ spare) lo p in
    let hit : copy (take n (rest ++ spare)) src ≡ src =
      copy_same (take n (rest ++ spare)) src
        (omega (arith, length-take n (rest ++ spare), length-append rest spare)) in
    let behind : drop (lo + n) (w ++ (rest ++ spare)) ≡ drop n rest ++ spare =
      sym (drop-drop lo n (lo + n) (w ++ (rest ++ spare)) refl)
      ∙ ap (λ (t : Bytes). drop n t) target
      ∙ drop-append_le n rest spare h in
    let new : w ++ (src ++ (drop n rest ++ spare)) ≡ (w ++ (src ++ drop n rest)) ++ spare =
      rw (append_assoc w (src ++ drop n rest) spare, append_assoc src (drop n rest) spare) refl in
    let width : length (w ++ rest) ≡ length (w ++ (src ++ drop n rest)) = omega (
      arith,
      length-append w rest,
      length-append w (src ++ drop n rest),
      length-append src (drop n rest),
      length-drop n rest,
    ) in
    rw
      (
        le→leb (lo + n) (length ((w ++ rest) ++ spare)) room,
        all,
        lead,
        target,
        hit,
        behind,
        new,
        take-append (w ++ (src ++ drop n rest)) spare (length (w ++ rest)) width,
        drop-append (w ++ (src ++ drop n rest)) spare (length (w ++ rest)) width,
      )
      refl

set_middle : (w rest : Bytes) (x v : ℕ) → set (w ++ (x ∷ rest)) (length w) v ≡ w ++ (v ∷ rest)
set_middle [] rest x v = refl
set_middle (y ∷ w) rest x v = ap (λ (t : Bytes). y ∷ t) (set_middle w rest x v)

put_middle :
    (w rest spare : Bytes) (x v i : ℕ)
    → i ≡ length w
    → put (record { bytes = w ++ (x ∷ rest); spare = spare }) i v
      ≡ ok (record { bytes = w ++ (v ∷ rest); spare = spare })
unfolding put
put_middle w rest spare x v i p =
    let inside : i < length (w ++ (x ∷ rest)) = omega (arith, length-append w (x ∷ rest)) in
    rw (lt→ltb i (length (w ++ (x ∷ rest))) inside, p, set_middle w rest x v) refl

pub fill_middle :
    (n : ℕ) (w rest spare : Bytes) (i : ℕ)
    → i ≡ length w
    → n ≤ length rest
    → fill_zero n i (record { bytes = w ++ rest; spare = spare })
      ≡ ok (record { bytes = w ++ (replicate n 0 ++ drop n rest); spare = spare })
unfolding fill_zero put
fill_middle zero w rest spare i p h = refl
fill_middle (suc n) w [] spare i p h = absurd (omega arith)
fill_middle (suc n) w (x ∷ rest) spare i p h =
    let next =
      fill_middle n (w ++ (0 ∷ [])) rest spare (i + 1) (omega (arith, length-append w (0 ∷ [])))
        (omega arith) in
    rw (put_middle w rest spare x 0 i p) (
      rw (append_assoc w (0 ∷ []) rest, append_assoc w (0 ∷ []) (replicate n 0 ++ drop n rest)) at
        next)

-- The bytes of the disk that a run names; zeros for a run without an offset.
abbrev pub stretch : Bytes → ℕ → ℕ → Bytes
stretch disk from n = take n (drop from disk)

module _ (disk : Bytes) (partition cluster_size : ℕ) where
  abbrev pub run_bytes : ℤ → Run → Bytes
  run_bytes current run =
      if run.offset ==ℤ pos 0
      then replicate (run.length_cl * cluster_size) 0
      else stretch disk (partition + pos_part current * cluster_size) (run.length_cl * cluster_size)

  -- The plain reading: each run's bytes, its offset counted from that of the run before.
  abbrev pub content_of : ℤ → List Run → Bytes
  content_of current [] = []
  content_of current (run ∷ rest) =
      run_bytes (current +ℤ run.offset) run ++ content_of (current +ℤ run.offset) rest

  abbrev pub total_size : List Run → ℕ
  total_size [] = 0
  total_size (run ∷ rest) = run.length_cl * cluster_size + total_size rest

  -- No place is negative, and every run with an offset of its own is on the disk.
  abbrev pub OnDisk : ℤ → List Run → Type 0
  OnDisk current [] = Unit {0}
  OnDisk current (run ∷ rest) =
      (is_negative (current +ℤ run.offset) ≡ false)
      × (((run.offset ==ℤ pos 0) ≡ true)
          ⊎ (partition
                + pos_part (current +ℤ run.offset) * cluster_size
                + run.length_cl * cluster_size
              ≤ length disk))
      × OnDisk (current +ℤ run.offset) rest
