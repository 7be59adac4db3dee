-- ===== src/Ntfs/Area/Wanted.antt =====
-- The selection of `ProcessMFT` of disk/volume/ntfs.go, said without its tests.
use file_system_forensics.Base.{
  ◌↔◌, Bool-cases, List, [], arith, false, inl, inr, length, ltb, lt→ltb, refl, true, ℕ, ◌+◌, ◌∷◌,
  ◌≡◌, ◌⊎◌, ◌≤◌, not, ◌&&◌,
}
use file_system_forensics.Base.Int.{==ℤ→eq, ltb_ℤ, neg_part, pos, pos_part, ℤ, ◌==ℤ◌}
use file_system_forensics.Ntfs.Area.{found, is_selected}

-- The order of the integers, on sums of natural numbers.
abbrev pub AtMost : ℤ → ℤ → Type 0
AtMost a b = pos_part a + neg_part b ≤ pos_part b + neg_part a

abbrev pub IsListed : ℤ → List ℤ → Type 0
IsListed z [] = ⊥
IsListed z (v ∷ vs) = (v ≡ z) ⊎ IsListed z vs

-- The records that the user asks for.
abbrev pub IsWanted : List ℤ → ℤ → ℤ → ℤ → Type 0
IsWanted entries from_entry to_entry z =
    ((entries ≡ []) ⊎ IsListed z entries) × AtMost from_entry z × AtMost z to_entry

==ℤ_refl : (z : ℤ) → (z ==ℤ z) ≡ true
==ℤ_refl z = ground arith

found→IsListed : (z : ℤ) (vs : List ℤ) → found z vs ≡ true → IsListed z vs
unfolding found
found→IsListed z [] h = absurd cc
found→IsListed z (v ∷ vs) h = elim (Bool-cases (v ==ℤ z)) [
  | inl same ↦ inl (==ℤ→eq v z same)
  | inr other ↦ inr (found→IsListed z vs (rw other at h))
]

IsListed→found : (z : ℤ) (vs : List ℤ) → IsListed z vs → found z vs ≡ true
unfolding found
IsListed→found z [] h = absurd h
IsListed→found z (v ∷ vs) (inl e) = rw (e, ==ℤ_refl z) refl
IsListed→found z (v ∷ vs) (inr h) = elim (Bool-cases (v ==ℤ z)) [
  | inl same ↦ rw same refl
  | inr other ↦ rw (other, IsListed→found z vs h) refl
]

ltb_ℤ_cases :
    (a b : ℤ) → ((ltb_ℤ a b ≡ false) × AtMost b a) ⊎ ((ltb_ℤ a b ≡ true) × (AtMost b a → ⊥))
ltb_ℤ_cases a b = ground arith

found_cases :
    (z : ℤ) (vs : List ℤ)
    → (((not (found z vs) && ltb 0 (length vs)) ≡ false) × ((vs ≡ []) ⊎ IsListed z vs))
      ⊎ (((not (found z vs) && ltb 0 (length vs)) ≡ true) × ((vs ≡ []) ⊎ IsListed z vs → ⊥))
found_cases z [] = elim (Bool-cases (found z [])) [
  | inl e ↦ inl (rw e refl, inl refl)
  | inr e ↦ inl (rw e refl, inl refl)
]
found_cases z (v ∷ vs) = elim (Bool-cases (found z (v ∷ vs))) [
  | inl e ↦ inl (rw e refl, inr (found→IsListed z (v ∷ vs) e))
  | inr e ↦ inr (
    rw (e, lt→ltb 0 (length (v ∷ vs)) (omega arith)) refl,
    elim [ inl none_ ↦ cc | inr listed ↦ ground (arith, e, IsListed→found z (v ∷ vs) listed) ],
  )
]

pub is_selected_iff :
    (entries : List ℤ) (from_entry to_entry : ℤ) (i : ℕ)
    → (is_selected entries from_entry to_entry i ≡ true)
      ↔ IsWanted entries from_entry to_entry (pos i)
unfolding is_selected
is_selected_iff entries from_entry to_entry i = elim (found_cases (pos i) entries) [
  | inr (out, unlisted) ↦ (λ e. absurd (ground (arith, e, out)), λ (l, _, _). absurd (unlisted l))
  | inl (in_, listed) ↦ elim (ltb_ℤ_cases to_entry (pos i)) [
    | inr (above, far) ↦ (λ e. absurd (ground (arith, e, in_, above)), λ (_, _, b). absurd (far b))
    | inl (upto, near) ↦ elim (ltb_ℤ_cases (pos i) from_entry) [
      | inr (below, far) ↦
          (λ e. absurd (ground (arith, e, in_, upto, below)), λ (_, a, _). absurd (far a))
      | inl (since, start) ↦ (λ e. (listed, start, near), λ w. rw (in_, upto, since) refl)
    ]
  ]
]
