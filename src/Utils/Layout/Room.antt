-- ===== src/Utils/Layout/Room.antt =====
-- When a structure has its bytes: its size is enough, and one byte more where it holds a file
-- reference.
use file_system_forensics.Base.{[], arith, ℕ, ◌-◌, ◌<◌, ◌∷◌, ◌≤◌}
use file_system_forensics.Utils.Layout.{Fits, Has, IsSupported, size, width}
use file_system_forensics.Utils.Unmarshal.{
  Kind, Struct, Tag, array, child_vcn, classify, entry_ref, uint64,
}

abbrev IsExact : Kind → Tag → Type 0
IsExact uint64 entry_ref = ⊥
IsExact uint64 child_vcn = ⊥
IsExact (array k n) tag = IsSupported k
IsExact _ tag = Unit {0}

abbrev IsKnown : Kind → Tag → Type 0
IsKnown uint64 child_vcn = ⊥
IsKnown (array k n) tag = IsSupported k
IsKnown _ tag = Unit {0}

abbrev pub AllExact : Struct → Type 0
AllExact [] = Unit {0}
AllExact (m ∷ ms) = IsExact m.kind (classify m.name) × AllExact ms

abbrev pub AllKnown : Struct → Type 0
AllKnown [] = Unit {0}
AllKnown (m ∷ ms) = IsKnown m.kind (classify m.name) × AllKnown ms

Has-exact : (k : Kind) (tag : Tag) (n : ℕ) → IsExact k tag → width k tag ≤ n → Has k tag n
Has-exact uint64 entry_ref n e h = absurd e
Has-exact uint64 child_vcn n e h = absurd e
Has-exact (array k w) tag n e h = (e, h)
Has-exact _ tag n e h = h

Has-known : (k : Kind) (tag : Tag) (n : ℕ) → IsKnown k tag → width k tag < n → Has k tag n
Has-known uint64 entry_ref n e h = h
Has-known uint64 child_vcn n e h = absurd e
Has-known (array k w) tag n e h = (e, omega arith)
Has-known _ tag n e h = omega arith

pub Fits-exact : (n : ℕ) (ms : Struct) → AllExact ms → size ms ≤ n → Fits n ms
Fits-exact n [] e h = tt
Fits-exact n (m ∷ ms) e h =
    let w : ℕ = width m.kind (classify m.name) in
    (
      Has-exact m.kind (classify m.name) n e.0 (omega arith),
      Fits-exact (n - w) ms e.1 (omega arith),
    )

pub Fits-known : (n : ℕ) (ms : Struct) → AllKnown ms → size ms < n → Fits n ms
Fits-known n [] e h = tt
Fits-known n (m ∷ ms) e h =
    let w : ℕ = width m.kind (classify m.name) in
    (
      Has-known m.kind (classify m.name) n e.0 (omega arith),
      Fits-known (n - w) ms e.1 (omega arith),
    )
