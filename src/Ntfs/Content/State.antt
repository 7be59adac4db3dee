-- ===== src/Ntfs/Content/State.antt =====
-- The state of `GetContent` (FS/NTFS/MFT/attributes/attributes.go): what is written, what is pending.
use file_system_forensics.Base.{
  Bool-cases, Bytes, [], ap, arith, drop, drop-drop, inl, inr, length, length-append, length-drop,
  length-replicate, length-take, ltb, refl, suc, sym, take, zero, ℕ, ◌*◌, ◌++◌, ◌+◌, ◌==◌, ◌∙◌, ◌∷◌,
  ◌≡◌, ◌≤◌, ◌⊎◌,
}
use file_system_forensics.Base.Int.{ltb_ℤ, pos, pos_part, ℤ, ◌*ℤ◌, ◌+ℤ◌, ◌==ℤ◌}
use file_system_forensics.Go.{Result, len, ok}
use file_system_forensics.Ntfs.Content.{Reading}
use file_system_forensics.Ntfs.Content.Runwise.{run_bytes, stretch}
use file_system_forensics.Ntfs.Runs.{Run}
use mathlib.Core.List.{append_assoc}
use native.Mathlib.Nat.{add-mul, zero-add}

take-nil : (n : ℕ) → take {A = ℕ} n [] ≡ []
take-nil zero = refl
take-nil (suc n) = refl

take_add : (a b : ℕ) (xs : Bytes) → take (a + b) xs ≡ take a xs ++ take b (drop a xs)
take_add zero b xs = ap (λ (n : ℕ). take n xs) (zero-add b)
take_add (suc a) b [] = take-nil (suc a + b) ∙ sym (take-nil b)
take_add (suc a) b (x ∷ xs) =
    let e : suc a + b ≡ suc (a + b) = omega arith in
    rw e (ap (λ (t : Bytes). x ∷ t) (take_add a b xs))

pub ltb_ℤ_pos : (a b : ℕ) → ltb_ℤ (pos a) (pos b) ≡ ltb a b
ltb_ℤ_pos a b = ground arith

pub ==ℤ_pos : (a b : ℕ) → (pos a ==ℤ pos b) ≡ (a == b)
==ℤ_pos a b = ground arith

-- A state: written bytes, the rest of the destination, and a pending read.
abbrev pub mk : Bytes → Bytes → Bytes → ℕ → ℕ → Reading
mk w rest spare po ps = record {
  buffer = record { bytes = w ++ rest; spare = spare };
  data_read = length w;
  pending_offset = pos po;
  pending_size = ps;
}

module _ (disk : Bytes) (p cs : ℕ) where
  abbrev pub piece : ℕ → ℕ → Bytes
  piece c n = stretch disk (p + c * cs) (n * cs)

  -- What is written and what is pending make up `out`; `tail` is what no run has reached.
  abbrev pub Holds : Bytes → Reading → Bytes → Bytes → Type 0
  Holds spare st out tail =
      (w : Bytes) × (rest : Bytes) × (po : ℕ) × (k : ℕ) × (st ≡ mk w rest spare po (k * cs))
      × (w ++ piece po k ≡ out)
      × (drop (k * cs) rest ≡ tail)
      × (k * cs ≤ length rest)
      × ((k * cs ≡ 0) ⊎ (p + po * cs + k * cs ≤ length disk))

  pub place : (po : ℕ) → pos p +ℤ (pos po *ℤ cs) ≡ pos (p + po * cs)
  unfolding ◌+ℤ◌ ◌*ℤ◌
  place po = ground arith

  -- A state with nothing written but `out`, and a run pending.
  pub started :
      (spare out tail : Bytes) (c n : ℕ)
      → n * cs ≤ length tail
      → p + c * cs + n * cs ≤ length disk
      → Holds spare (mk out tail spare c (n * cs)) (out ++ piece c n) (drop (n * cs) tail)
  started spare out tail c n h b = (out, tail, c, n, refl, refl, refl, h, inr b)

  abbrev pub Goes : Result Reading → Bytes → Bytes → Bytes → Type 0
  Goes r spare out tail = (st : Reading) × (r ≡ ok st) × Holds spare st out tail

  pub grown :
      (w rest spare out tail : Bytes) (po k n : ℕ)
      → w ++ piece po k ≡ out
      → drop (k * cs) rest ≡ tail
      → n * cs ≤ length tail
      → k * cs ≤ length rest
      → p + (po + k) * cs + n * cs ≤ length disk
      → Holds spare
          (mk w rest spare po (k * cs + n * cs))
          (out ++ piece (po + k) n)
          (drop (n * cs) tail)
  grown w rest spare out tail po k n o t h room b =
      let sum : k * cs + n * cs ≡ (k + n) * cs = omega (arith, add-mul k n cs) in
      let seam : drop (k * cs) (drop (p + po * cs) disk) ≡ drop (p + (po + k) * cs) disk =
        drop-drop (p + po * cs) (k * cs) (p + (po + k) * cs) disk
          (omega (arith, add-mul po k cs)) in
      let parts : w ++ piece po (k + n) ≡ out ++ piece (po + k) n =
        rw
          (
            sym sum,
            take_add (k * cs) (n * cs) (drop (p + po * cs) disk),
            seam,
            sym o,
            append_assoc w (piece po k) (piece (po + k) n),
          )
          refl in
      let rest_of : drop ((k + n) * cs) rest ≡ drop (n * cs) tail =
        sym (drop-drop (k * cs) (n * cs) ((k + n) * cs) rest sum)
        ∙ ap (λ (x : Bytes). drop (n * cs) x) t in
      (
        w,
        rest,
        po,
        k + n,
        ap (λ (x : ℕ). mk w rest spare po x) sum,
        parts,
        rest_of,
        omega (arith, sum, ap length t, length-drop (k * cs) rest),
        inr (omega (arith, sum, add-mul po k cs)),
      )

  pub room_for :
      (spare out tail : Bytes) (st : Reading) (n : ℕ)
      → Holds spare st out tail
      → n ≤ length tail
      → st.data_read + n ≤ len st.buffer
  room_for spare out tail st n (w, rest, po, k, e, o, t, room, bound) h =
      rw e (omega (arith, length-append w rest, length-drop (k * cs) rest, ap length t))

  pub run_bytes_le :
      (current : ℤ) (run : Run) → length (run_bytes disk p cs current run) ≤ run.length_cl * cs
  run_bytes_le current run = elim (Bool-cases (run.offset ==ℤ pos 0)) [
    | inl sparse ↦ rw sparse (omega (arith, length-replicate {A = ℕ} (run.length_cl * cs) 0))
    | inr placed ↦
        rw placed
          (omega (arith, length-take (run.length_cl * cs) (drop (p + pos_part current * cs) disk)))
  ]
