-- ===== src/Utils/Layout/Local.antt =====
-- The layout of a struct reads only the struct's own bytes: what stands behind them does not
-- matter.
use file_system_forensics.Base.{
  Bytes, [], arith, drop, drop-append_le, length, length-drop, refl, suc, take-append_le, zero, ℕ,
  ◌*◌, ◌++◌, ◌∷◌, ◌≡◌, ◌≤◌,
}
use file_system_forensics.Utils.Layout.{
  decode, elements, layout, size, struct_value, struct_width, width,
}
use file_system_forensics.Utils.Unmarshal.{
  ElemKind, Kind, Struct, Tag, Value, array, boolean, classify, elem_size, entry_ref, int16, int64,
  structure, time_spec, uint16, uint32, uint64, uint8, windows_time,
}

elements-append :
    (k : ElemKind) (n : ℕ) (xs ys : Bytes)
    → n * elem_size k ≤ length xs
    → elements k n (xs ++ ys) ≡ elements k n xs
elements-append k zero xs ys h = refl
elements-append k (suc n) xs ys h =
    let here : elem_size k ≤ length xs = omega arith in
    let rest : n * elem_size k ≤ length (drop (elem_size k) xs) =
      omega (arith, length-drop (elem_size k) xs) in
    rw
      (
        take-append_le (elem_size k) xs ys here,
        drop-append_le (elem_size k) xs ys here,
        elements-append k n (drop (elem_size k) xs) ys rest,
      )
      refl

struct_value-append :
    (tag : Tag) (v : Value) (xs ys : Bytes)
    → struct_width tag ≤ length xs
    → struct_value tag v (xs ++ ys) ≡ struct_value tag v xs
struct_value-append time_spec v xs ys h = rw (take-append_le 8 xs ys (omega arith)) refl
struct_value-append windows_time v xs ys h = rw (take-append_le 8 xs ys (omega arith)) refl
struct_value-append _ v xs ys h = refl

decode-append :
    (k : Kind) (tag : Tag) (v : Value) (xs ys : Bytes)
    → width k tag ≤ length xs
    → decode k tag v (xs ++ ys) ≡ decode k tag v xs
decode-append (structure n) tag v xs ys h = struct_value-append (classify n) v xs ys h
decode-append uint64 entry_ref v xs ys h = rw (take-append_le 6 xs ys (omega arith)) refl
decode-append uint64 _ v xs ys h = rw (take-append_le 8 xs ys (omega arith)) refl
decode-append uint8 _ v xs ys h = rw (take-append_le 1 xs ys (omega arith)) refl
decode-append int16 _ v xs ys h = rw (take-append_le 2 xs ys (omega arith)) refl
decode-append uint16 _ v xs ys h = rw (take-append_le 2 xs ys (omega arith)) refl
decode-append uint32 _ v xs ys h = rw (take-append_le 4 xs ys (omega arith)) refl
decode-append int64 _ v xs ys h = rw (take-append_le 8 xs ys (omega arith)) refl
decode-append boolean _ v xs ys h = refl
decode-append (array k n) _ v xs ys h = rw (elements-append k n xs ys h) refl
decode-append _ _ v xs ys h = refl

pub layout-append :
    (xs ys : Bytes) (fields : Struct)
    → size fields ≤ length xs
    → layout (xs ++ ys) fields ≡ layout xs fields
layout-append xs ys [] h = refl
layout-append xs ys (m ∷ ms) h =
    let w = width m.kind (classify m.name) in
    let rest : size ms ≤ length (drop w xs) = omega (arith, length-drop w xs) in
    rw
      (
        decode-append m.kind (classify m.name) m.value xs ys (omega arith),
        drop-append_le w xs ys (omega arith),
        layout-append (drop w xs) ys ms rest,
      )
      refl
