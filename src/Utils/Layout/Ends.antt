-- ===== src/Utils/Layout/Ends.antt =====
-- `Unmarshal` always ends: no step of it runs on fuel.
use Prim.Native.String.{String}
use file_system_forensics.Base.{
  Bytes, List, [], arith, drop, inl, inr, suc, zero, ℕ, ◌++◌, ◌+◌, ◌∷◌, ◌≢◌,
}
use file_system_forensics.Go.{
  Error, Result-cases, Slice, bind-ne-stuck, exceeded_buffer, exhausted_buffer, stuck,
  subslice-ne-stuck,
}
use file_system_forensics.Utils.Endian.{uint}
use file_system_forensics.Utils.Unmarshal.{
  ElemKind, Kind, Struct, Tag, array, array_step, boolean, child_vcn, child_vcn_step, classify,
  elem_size, element, entry_ref, fail, field_uint, fixed, int16, int64, key_pointer, leave,
  member_step, nested_value, pointer, set_to, six_bytes, skipped, struct_step, structure, time_spec,
  uint16, uint32, uint64, uint64_step, uint8, unmarshal, unmarshal_from, windows_time,
}

uint-ne-stuck : (n : ℕ) (bs : Bytes) → uint n bs ≢ stuck
unfolding uint
uint-ne-stuck n bs e = ground arith

fixed-ne-stuck : (n : ℕ) (err' : Error) (s : Slice) (idx : ℕ) → fixed n err' s idx ≢ stuck
unfolding fixed
fixed-ne-stuck n err' s idx e = ground arith

field_uint-ne-stuck : (n : String) (ms : Struct) → field_uint n ms ≢ stuck
unfolding field_uint
field_uint-ne-stuck n [] e = cc
field_uint-ne-stuck n (m ∷ ms) e = ground (arith, field_uint-ne-stuck n ms)

element-ne-stuck : (k : ElemKind) (bs : Bytes) → element k bs ≢ stuck
unfolding element
element-ne-stuck _ bs e = ground arith

array_step-ne-stuck :
    (k : ElemKind) (n : ℕ) (s : Slice) (idx : ℕ) (got : List ℕ) → array_step k n s idx got ≢ stuck
unfolding array_step
array_step-ne-stuck k zero s idx got e = cc
array_step-ne-stuck k (suc n) s idx got e = elim (Result-cases (element k (drop idx s.bytes))) [
  | inl (v, r) ↦ ground (arith, r, array_step-ne-stuck k n s (idx + elem_size k) (got ++ (v ∷ [])))
  | inr none_read ↦ ground (arith, none_read, element-ne-stuck k (drop idx s.bytes))
]

child_vcn-ne-stuck : (s : Slice) (ms : Struct) (idx : ℕ) → child_vcn_step s ms idx ≢ stuck
unfolding child_vcn_step
child_vcn-ne-stuck s ms idx e =
    ground (arith, field_uint-ne-stuck "Len" ms, field_uint-ne-stuck "Flags" ms)

nested_value-ne-stuck : (t : Tag) (bs : Bytes) → nested_value t bs ≢ stuck
unfolding nested_value
nested_value-ne-stuck time_spec bs e = ground arith
nested_value-ne-stuck windows_time bs e = ground arith
nested_value-ne-stuck _ bs e = cc

struct-ne-stuck : (t : Tag) (s : Slice) (idx : ℕ) → struct_step nested_value t s idx ≢ stuck
unfolding struct_step
struct-ne-stuck time_spec s idx =
    bind-ne-stuck _ _ (subslice-ne-stuck s idx (idx + 12))
      (λ sub _. bind-ne-stuck _ _ (nested_value-ne-stuck time_spec sub.bytes) (λ v _ e. cc))
struct-ne-stuck windows_time s idx =
    bind-ne-stuck _ _ (subslice-ne-stuck s idx (idx + 8))
      (λ sub _. bind-ne-stuck _ _ (nested_value-ne-stuck windows_time sub.bytes) (λ v _ e. cc))
struct-ne-stuck _ s idx = λ e. cc

six_bytes-ne-stuck : (s : Slice) (idx : ℕ) → six_bytes s idx ≢ stuck
unfolding six_bytes
six_bytes-ne-stuck s idx e = ground arith

uint64-ne-stuck :
    (t : Tag) (s : Slice) (ms : Struct) (idx : ℕ) → uint64_step nested_value t s ms idx ≢ stuck
unfolding uint64_step
uint64-ne-stuck entry_ref s ms idx = six_bytes-ne-stuck s idx
uint64-ne-stuck child_vcn s ms idx = child_vcn-ne-stuck s ms idx
uint64-ne-stuck _ s ms idx = fixed-ne-stuck 8 exceeded_buffer s idx

member_step-ne-stuck :
    (k : Kind) (t : Tag) (s : Slice) (ms : Struct) (idx : ℕ)
    → member_step nested_value s ms k t idx ≢ stuck
unfolding member_step
member_step-ne-stuck (structure n) t s ms idx = struct-ne-stuck (classify n) s idx
member_step-ne-stuck pointer key_pointer s ms idx = λ e. cc
member_step-ne-stuck pointer _ s ms idx = λ e. cc
member_step-ne-stuck uint64 t s ms idx = uint64-ne-stuck t s ms idx
member_step-ne-stuck boolean t s ms idx = λ e. cc
member_step-ne-stuck skipped t s ms idx = λ e. cc
member_step-ne-stuck (array k n) t s ms idx = array_step-ne-stuck k n s idx []
member_step-ne-stuck uint8 t s ms idx = fixed-ne-stuck 1 exhausted_buffer s idx
member_step-ne-stuck int16 t s ms idx = fixed-ne-stuck 2 exhausted_buffer s idx
member_step-ne-stuck uint16 t s ms idx = fixed-ne-stuck 2 exhausted_buffer s idx
member_step-ne-stuck uint32 t s ms idx = fixed-ne-stuck 4 exhausted_buffer s idx
member_step-ne-stuck int64 t s ms idx = fixed-ne-stuck 8 exhausted_buffer s idx

unmarshal_from-ne-stuck :
    (s : Slice) (todo done : Struct) (idx : ℕ) → unmarshal_from nested_value s done todo idx ≢ stuck
unfolding unmarshal_from
unmarshal_from-ne-stuck s [] done idx e = cc
unmarshal_from-ne-stuck s (m ∷ todo) done idx e =
    let step = member_step nested_value s (done ++ (m ∷ todo)) m.kind (classify m.name) idx in
    let never = member_step-ne-stuck m.kind (classify m.name) s (done ++ (m ∷ todo)) idx in
    elim (Result-cases step) [
      | inl (set_to v next, r) ↦
          ground
            (arith, r, unmarshal_from-ne-stuck s todo (done ++ (record m { value = v } ∷ [])) next)
      | inl (leave next, r) ↦
          ground (arith, r, unmarshal_from-ne-stuck s todo (done ++ (m ∷ [])) next)
      | inl (fail _ next, r) ↦ ground (arith, r)
      | inr stops ↦ ground (arith, stops, never)
    ]

pub unmarshal-ne-stuck : (s : Slice) (fields : Struct) → unmarshal s fields ≢ stuck
unfolding unmarshal
unmarshal-ne-stuck s fields = unmarshal_from-ne-stuck s fields [] 0
