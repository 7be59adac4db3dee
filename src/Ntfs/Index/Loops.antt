-- ===== src/Ntfs/Index/Loops.antt =====
-- When the loop over the entries of an index node ends (`Parse` of
-- FS/NTFS/MFT/attributes/indexroot.go).
use file_system_forensics.Base.{
  ==_cases, List, [], arith, inl, inr, ltb_cases, suc, zero, ℕ, ◌%◌, ◌++◌, ◌+◌, ◌-◌, ◌<◌, ◌^◌, ◌∷◌,
  ◌≡◌, ◌≢◌,
}
use file_system_forensics.Go.{
  Result-cases, Slice, bind-ne-stuck, ite_ne_stuck, len, ok, ok-ne-stuck, stuck, subslice-ne-stuck,
  suffix,
}
use file_system_forensics.Ntfs.Index.{IndexEntry, index_len, parse_index, parse_index_entry}
use file_system_forensics.Structures.Ntfs.{fn_attribute, index_entry}
use file_system_forensics.Utils.Layout.Ends.{unmarshal-ne-stuck}

parse_index_entry-ne-stuck : (s : Slice) → parse_index_entry s ≢ stuck
unfolding parse_index_entry
parse_index_entry-ne-stuck s = bind-ne-stuck _ _ (unmarshal-ne-stuck s index_entry) (λ p _.
    ite_ne_stuck _ _ _
      (bind-ne-stuck _ _ (subslice-ne-stuck s _ _) (λ content _.
        bind-ne-stuck _ _ (unmarshal-ne-stuck content fn_attribute) (λ q _.
          ite_ne_stuck _ _ _ (ok-ne-stuck _)
            (bind-ne-stuck _ _ (subslice-ne-stuck s _ _) (λ name _. ok-ne-stuck _)))))
      (ok-ne-stuck _))

-- A node in which no entry's length leads past 16 bits is parsed to an end: at most one round for
-- each byte. With a length that does, the 16-bit offset can come back to where it was.
pub parse_index-ends :
    (fuel : ℕ) (s : Slice) (off : ℕ) (found : List IndexEntry)
    → len s < 65536
    → ((p : ℕ) (rest : Slice) (e : IndexEntry)
        → suffix s p ≡ ok rest
        → parse_index_entry rest ≡ ok e
        → p + index_len e < 65536)
    → len s - off < fuel
    → parse_index fuel s off found ≢ stuck
unfolding parse_index
parse_index-ends zero s off found small fits h e = absurd (omega arith)
parse_index-ends (suc fuel) s off found small fits h stops = elim (ltb_cases off (len s % 2 ^ 16)) [
  | inr (c, _) ↦ ground (arith, c, stops)
  | inl (c, below) ↦ elim (Result-cases (suffix s off)) [
    | inr ends ↦ ground (arith, c, ends, subslice-ne-stuck s off (len s))
    | inl (rest, r) ↦ elim (Result-cases (parse_index_entry rest)) [
      | inr ends ↦ ground (arith, c, r, ends, parse_index_entry-ne-stuck rest)
      | inl (e, q) ↦ elim (==_cases (index_len e) 0) [
        | inl (z, _) ↦ ground (arith, c, r, q, z)
        | inr (z, positive) ↦
            let next : (off + index_len e) % 2 ^ 16 ≡ off + index_len e =
              omega (arith, fits off rest e r q) in
            ground (
              arith,
              c,
              r,
              q,
              z,
              next,
              parse_index-ends fuel s (off + index_len e) (found ++ (e ∷ [])) small fits
                  (omega arith),
            )
      ]
    ]
  ]
]
