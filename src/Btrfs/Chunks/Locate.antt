-- ===== src/Btrfs/Chunks/Locate.antt =====
-- Where `LocatePhysicalOffsetSize` (disk/volume/btrfs.go) finds an address: the order in which Go
-- iterates over the map must not matter.
use file_system_forensics.Base.{
  Bool, Bool-cases, [], arith, false, if◌then◌else◌, inl, inr, leb, ltb, refl, sym, true, ℕ, ◌&&◌,
  ◌+◌, ◌-◌, ◌∙◌, ◌∷◌, ◌≡◌, ◌≤◌,
}
use file_system_forensics.Btrfs.Chunks.{ChunkItem, ChunkTreeMap, chunk_size, locate}
use mathlib.Core.List.{Permᴰ}

abbrev pub covers : ℕ → ℕ × ChunkItem → Bool
covers logical (k, c) = leb k logical && ltb (logical - k) (chunk_size c)

-- How many chunks of the map cover an address.
unfoldable pub covering : ℕ → ChunkTreeMap → ℕ
covering logical [] = 0
covering logical (p ∷ m) = if covers logical p then 1 + covering logical m else covering logical m

covering_rearranged :
    (logical : ℕ) (m m' : ChunkTreeMap) → Permᴰ m m' → covering logical m ≡ covering logical m'
unfolding covering
covering_rearranged logical m m' Permᴰ.nil = refl
covering_rearranged logical _ _ (Permᴰ.cons {l₁ = m} {l₂ = m'} e d) =
    rw (e, covering_rearranged logical m m' d) refl
covering_rearranged logical _ _ (Permᴰ.swap e f) = rw (e, f) (ground arith)
covering_rearranged logical m m' (Permᴰ.trans d d') =
    covering_rearranged logical m _ d ∙ covering_rearranged logical _ m' d'

locate_here :
    (logical : ℕ) (p : ℕ × ChunkItem) (m m' : ChunkTreeMap)
    → covers logical p ≡ true
    → locate (p ∷ m) logical ≡ locate (p ∷ m') logical
unfolding locate
locate_here logical (k, c) m m' h = rw h refl

locate_past :
    (logical : ℕ) (p : ℕ × ChunkItem) (m : ChunkTreeMap)
    → covers logical p ≡ false
    → locate (p ∷ m) logical ≡ locate m logical
unfolding locate
locate_past logical (k, c) m h = rw h refl

locate_swap :
    (logical : ℕ) (p q : ℕ × ChunkItem) (m : ChunkTreeMap)
    → covering logical (p ∷ q ∷ m) ≤ 1
    → locate (p ∷ q ∷ m) logical ≡ locate (q ∷ p ∷ m) logical
unfolding covering
locate_swap logical p q m once = elim (Bool-cases (covers logical p)) [
  | inl a ↦ elim (Bool-cases (covers logical q)) [
    | inl b ↦ absurd (ground (arith, a, b))
    | inr b ↦ locate_here logical p (q ∷ m) m a ∙ sym (locate_past logical q (p ∷ m) b)
  ]
  | inr a ↦ elim (Bool-cases (covers logical q)) [
    | inl b ↦ locate_past logical p (q ∷ m) a ∙ locate_here logical q m (p ∷ m) b
    | inr b ↦
        locate_past logical p (q ∷ m) a
        ∙ locate_past logical q m b
        ∙ sym (locate_past logical p m a)
        ∙ sym (locate_past logical q (p ∷ m) b)
  ]
]

-- Where at most one chunk covers the address, the answer is the same in every order in which the
-- map is iterated.
pub locate-rearranged :
    (logical : ℕ) (m m' : ChunkTreeMap)
    → Permᴰ m m'
    → covering logical m ≤ 1
    → locate m logical ≡ locate m' logical
unfolding covering
locate-rearranged logical m m' Permᴰ.nil once = refl
locate-rearranged logical _ _ (Permᴰ.cons {a = p} {l₁ = m} {l₂ = m'} e d) once =
    rw (sym e) (elim (Bool-cases (covers logical p)) [
      | inl a ↦ locate_here logical p m m' a
      | inr a ↦
          locate_past logical p m a
          ∙ locate-rearranged logical m m' d (ground (arith, a, once))
          ∙ sym (locate_past logical p m' a)
    ])
locate-rearranged logical _ _ (Permᴰ.swap {a = p} {b = q} {l = m} e f) once =
    rw (sym e, sym f) (locate_swap logical p q m once)
locate-rearranged logical m m' (Permᴰ.trans d d') once =
    let same = covering_rearranged logical m _ d in
    locate-rearranged logical m _ d once ∙ locate-rearranged logical _ m' d' (omega (arith, same))
