-- ===== src/Tests/Walk.antt =====
-- Inputs for the attribute walk of FS/NTFS/MFT/MFT.go.
use file_system_forensics.Base.{
  ==_cases, Bool, Bytes, List, Option, [], arith, drop, false, inl, inr, ltb, ltb→lt, refl, some,
  suc, true, zero, ℕ, ◌&&◌, ◌+◌, ◌<◌, ◌∷◌, ◌≡◌, ◌≢◌,
}
use file_system_forensics.Go.{Result, Slice, full, ok, ok-ne-stuck, stuck, subslice}
use file_system_forensics.Ntfs.Attribute.{
  AttrType, Attribute, Header, attr_type, header_of, is_known_resident, is_last, is_non_resident,
  resident,
}
use file_system_forensics.Ntfs.Record.{attribute_at, header_at, resident_attribute, walk}
use file_system_forensics.Ntfs.Record.Walk.{walk-ends, walk_cycle}
use file_system_forensics.Structures.Ntfs.{atr_record_resident, attribute_header}
use file_system_forensics.Utils.Unmarshal.{classify, get_num, unmarshal}

abbrev keep : AttrType → Slice → Result Slice
keep t content = ok content

keep-ends : (t : AttrType) (content : Slice) → keep t content ≢ stuck
keep-ends t content = ok-ne-stuck content

-- One resident attribute without content, and the mark of the end.
abbrev attributes : Slice
attributes = full (
    0x10 ∷ 0 ∷ 0 ∷ 0 ∷ 24 ∷ 0 ∷ 0 ∷ 0 ∷ 0 ∷ 0 ∷ 24 ∷ 0 ∷ 0 ∷ 0 ∷ 0 ∷ 0 ∷ 0 ∷ 0 ∷ 0 ∷ 0 ∷ 24 ∷ 0 ∷ 0
    ∷ 0 ∷ 0xff ∷ 0xff ∷ 0xff ∷ 0xff ∷ [])

fits_at : Result (Option Header) → ℕ → Bool
fits_at (ok (some h)) p = ltb (p + h.attr_len) 65536
fits_at _ p = true

all_fit : ℕ → Bool
unfolding fits_at
all_fit zero = true
all_fit (suc n) = fits_at (header_at attributes n) n && all_fit n

fits_all : all_fit 1024 ≡ true
unfolding all_fit header_at subslice unmarshal attribute_header classify header_of attr_type is_last
fits_all = refl

pub both_true : (a b : Bool) → (a && b) ≡ true → (a ≡ true) × (b ≡ true)
both_true true b e = (refl, e)
both_true false b e = absurd cc

fits_below : (n p : ℕ) → all_fit n ≡ true → p < n → fits_at (header_at attributes p) p ≡ true
unfolding all_fit
fits_below zero p e l = absurd (omega arith)
fits_below (suc n) p e l =
    let (here, rest) = both_true (fits_at (header_at attributes n) n) (all_fit n) e in
    elim (==_cases p n) [
      | inl (_, q) ↦ rw q here
      | inr (_, q) ↦ fits_below n p rest (omega (arith, q))
    ]

attributes_fit :
    (p : ℕ) (h : Header) → p < 1024 → header_at attributes p ≡ ok (some h) → p + h.attr_len < 65536
unfolding fits_at
attributes_fit p h l e = ltb→lt (p + h.attr_len) 65536 (rw e at (fits_below 1024 p fits_all l))

walk-ends_example : walk keep 1025 attributes 0 [] ≢ stuck
walk-ends_example = walk-ends keep keep-ends 1025 attributes 0 [] attributes_fit (omega arith)

-- Two attributes that lead to each other: the second one's length is 65536 - 24.
abbrev loop : Slice
loop = full (
    0x10 ∷ 0 ∷ 0 ∷ 0 ∷ 24 ∷ 0 ∷ 0 ∷ 0 ∷ 0 ∷ 0 ∷ 24 ∷ 0 ∷ 0 ∷ 0 ∷ 0 ∷ 0 ∷ 0 ∷ 0 ∷ 0 ∷ 0 ∷ 24 ∷ 0 ∷ 0
    ∷ 0 ∷ 0x10 ∷ 0 ∷ 0 ∷ 0 ∷ 0xe8 ∷ 0xff ∷ 0 ∷ 0 ∷ 0 ∷ 0 ∷ 24 ∷ 0 ∷ 0 ∷ 0 ∷ 0 ∷ 0 ∷ 0 ∷ 0 ∷ 0 ∷ 0
    ∷ 24 ∷ 0 ∷ 0 ∷ 0 ∷ [])

abbrev loop_header : ℕ → Header
loop_header n = record { type_code = 0x10; attr_len = n; non_resident = 0; nlen = 0; name_off = 24 }

first_header : header_at loop 0 ≡ ok (some (loop_header 24))
unfolding header_at subslice unmarshal attribute_header classify header_of attr_type is_last
first_header = refl

second_header : header_at loop 24 ≡ ok (some (loop_header 65512))
unfolding header_at subslice unmarshal attribute_header classify header_of attr_type is_last
second_header = refl

abbrev found : ℕ → Bytes → List (Attribute Slice)
found n spare =
    resident (loop_header n) (record { content_size = 0; offset_content = 24; name = [] })
      (record { bytes = []; spare = spare })
    ∷ []

first_attribute :
    attribute_at keep loop 0 (loop_header 24) ≡ ok (some (found 24 (drop 24 loop.bytes)))
unfolding attribute_at resident_attribute subslice unmarshal atr_record_resident classify get_num
    attr_type is_known_resident is_non_resident
first_attribute = refl

second_attribute : attribute_at keep loop 24 (loop_header 65512) ≡ ok (some (found 65512 []))
unfolding attribute_at resident_attribute subslice unmarshal atr_record_resident classify get_num
    attr_type is_known_resident is_non_resident
second_attribute = refl

walk_cycle_example : walk keep 5000 loop 0 [] ≡ stuck
walk_cycle_example =
    walk_cycle keep 5000 loop 0 24 (loop_header 24) (loop_header 65512) []
      (found 24 (drop 24 loop.bytes)) (found 65512 []) (omega arith) (omega arith) first_header
      second_header first_attribute second_attribute refl refl
