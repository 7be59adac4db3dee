-- ===== src/Utils/Layout.antt =====
-- What `Unmarshal` of utils/utils.go reads, told without its loop: every field at the sum of the
-- widths before it.
pub mod Reading
pub mod Room
pub mod Ends
pub mod Prefix
pub mod Local
use file_system_forensics.Base.{
  Bytes, List, [], drop, suc, take, zero, ℕ, ◌*◌, ◌+◌, ◌-◌, ◌<◌, ◌∷◌, ◌≤◌,
}
use file_system_forensics.Utils.Endian.{le}
use file_system_forensics.Utils.Unmarshal.{
  ElemKind, Kind, Struct, Tag, Value, array, boolean, child_vcn, classify, elem_size, entry_ref,
  int16, int64, key_pointer, num, nums, pointer, skipped, structure, time, time_spec, uint16,
  uint32, uint64, uint8, unsupported, windows_time,
}

abbrev pub struct_width : Tag → ℕ
struct_width time_spec = 12
struct_width windows_time = 8
struct_width _ = 0

-- The bytes that a field takes.
abbrev pub width : Kind → Tag → ℕ
width (structure n) tag = struct_width (classify n)
width pointer key_pointer = 17
width pointer _ = 0
width uint8 _ = 1
width int16 _ = 2
width uint16 _ = 2
width uint32 _ = 4
width int64 _ = 8
width uint64 entry_ref = 6
width uint64 _ = 8
width boolean _ = 1
width skipped _ = 0
width (array k n) _ = n * elem_size k

abbrev pub elements : ElemKind → ℕ → Bytes → List ℕ
elements k zero bs = []
elements k (suc n) bs = le (take (elem_size k) bs) ∷ elements k n (drop (elem_size k) bs)

abbrev pub struct_value : Tag → Value → Bytes → Value
struct_value time_spec v bs = time (le (take 8 bs)) 0
struct_value windows_time v bs = num (le (take 8 bs))
struct_value _ v bs = v

-- The value of a field whose bytes begin `bs`; `v` is the value that it had.
abbrev pub decode : Kind → Tag → Value → Bytes → Value
decode (structure n) tag v bs = struct_value (classify n) v bs
decode uint64 entry_ref v bs = num (le (take 6 bs))
decode uint64 _ v bs = num (le (take 8 bs))
decode uint8 _ v bs = num (le (take 1 bs))
decode int16 _ v bs = num (le (take 2 bs))
decode uint16 _ v bs = num (le (take 2 bs))
decode uint32 _ v bs = num (le (take 4 bs))
decode int64 _ v bs = num (le (take 8 bs))
decode boolean _ v bs = num 0
decode (array k n) _ v bs = nums (elements k n bs)
decode _ _ v bs = v

abbrev pub layout : Bytes → Struct → Struct
layout bs [] = []
layout bs (m ∷ ms) =
    record m { value = decode m.kind (classify m.name) m.value bs }
    ∷ layout (drop (width m.kind (classify m.name)) bs) ms

abbrev pub size : Struct → ℕ
size [] = 0
size (m ∷ ms) = width m.kind (classify m.name) + size ms

abbrev pub IsSupported : ElemKind → Type 0
IsSupported (unsupported _) = ⊥
IsSupported _ = Unit {0}

-- What a field asks of the bytes that are left: its width, one more for a file reference. The
-- field "ChildVCN" and arrays of unsupported elements are left out.
abbrev pub Has : Kind → Tag → ℕ → Type 0
Has uint64 entry_ref n = 6 < n
Has uint64 child_vcn n = ⊥
Has (array k w) tag n = IsSupported k × (w * elem_size k ≤ n)
Has k tag n = width k tag ≤ n

-- Every field has its bytes.
abbrev pub Fits : ℕ → Struct → Type 0
Fits n [] = Unit {0}
Fits n (m ∷ ms) = Has m.kind (classify m.name) n × Fits (n - width m.kind (classify m.name)) ms
