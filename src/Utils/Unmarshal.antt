-- ===== src/Utils/Unmarshal.antt =====
-- `Unmarshal` of utils/utils.go. Go walks the fields of a struct by reflection; here a struct is
-- the list of its fields with their names, kinds and values, a signed value as its bit pattern.
use text.Mathlib.Text.{◌==◌ as str_eq}
use Prim.Native.String.{String}
use file_system_forensics.Base.{
  Bytes, List, Option, [], drop, false, if◌then◌else◌, leb, ltb, none, replicate, some, suc, true,
  zero, ℕ, ◌++◌, ◌+◌, ◌-◌, ◌==◌, ◌||◌, ◌∷◌,
}
use file_system_forensics.Go.{
  Error, Result, Slice, crash, err, exceeded_buffer, exhausted_buffer, full, invalid_field_length,
  len, ok, stuck, subslice, unsupported_element, ◌>>=◌,
}
use file_system_forensics.Utils.Endian.{uint}

pub data ElemKind : Type 0 where
  byte half word double signed_word signed_double : ElemKind
  unsupported : ℕ → ElemKind

-- `skipped` is any kind without a case in the switch: strings, slices, interfaces, int32.
pub data Kind : Type 0 where
  structure : String → Kind
  pointer uint8 int16 uint16 uint32 int64 uint64 boolean skipped : Kind
  array : ElemKind → ℕ → Kind

pub data Value : Type 0 where
  num : ℕ → Value
  nums : List ℕ → Value
  time : ℕ → ℕ → Value

pub record Member : Type 0 where
  pub name : String
  pub kind : Kind
  pub value : Value

abbrev pub Struct : Type 0
Struct = List Member

-- A field with its zero value.
abbrev zero_of : Kind → Value
zero_of (array _ n) = nums (replicate n 0)
zero_of (structure _) = time 0 0
zero_of _ = num 0

abbrev pub member : String → Kind → Member
member n k = record { name = n; kind = k; value = zero_of k }

-- The names that the switches test.
pub data Tag : Type 0 where
  entry_ref child_vcn key_pointer time_spec windows_time plain : Tag

unfoldable pub classify : String → Tag
classify n =
    if str_eq n "ParRef" || str_eq n "EntryRef"
    then entry_ref
    else if str_eq n "ChildVCN"
    then child_vcn
    else if str_eq n "Key" || str_eq n "DropProgress"
    then key_pointer
    else if str_eq n "TimeSpec"
    then time_spec
    else if str_eq n "WindowsTime"
    then windows_time
    else plain

-- `FieldByName(name).Uint()`: a panic where the struct has no such field.
unfoldable pub field_uint : String → Struct → Result ℕ
field_uint n [] = crash
field_uint n (m ∷ ms) = if str_eq m.name n then number m.value else field_uint n ms
  where
    number : Value → Result ℕ
    number (num v) = ok v
    number (nums vs) = crash
    number (time a b) = crash

-- What one field does: it gets a value, stays as it is, or ends the walk; the number is the index
-- after it.
pub data Step : Type 0 where
  set_to : Value → ℕ → Step
  leave : ℕ → Step
  fail : Error → ℕ → Step

-- A fixed width, tested against the end of the data.
unfoldable pub fixed : ℕ → Error → Slice → ℕ → Result Step
unfolding uint
fixed n e s idx =
    if ltb (len s) (idx + n)
    then ok (fail e idx)
    else uint n (drop idx s.bytes) >>= λ v. ok (set_to (num v) (idx + n))

-- "ParRef" and "EntryRef": six bytes, and the test asks for a seventh.
unfoldable pub six_bytes : Slice → ℕ → Result Step
unfolding uint
six_bytes s idx =
    if leb (len s) (idx + 6)
    then ok (fail exceeded_buffer idx)
    else uint 6 (drop idx s.bytes) >>= λ v. ok (set_to (num v) (idx + 6))

-- "ChildVCN": the last eight bytes of the entry, by the fields "Len" and "Flags" set before.
unfoldable pub child_vcn_step : Slice → Struct → ℕ → Result Step
unfolding field_uint subslice uint
child_vcn_step s fields idx = field_uint "Len" fields >>= λ field_len.
    field_uint "Flags" fields >>= λ flags.
    if leb (len s) field_len
    then ok (fail exceeded_buffer idx)
    else if ltb field_len 8
    then ok (fail invalid_field_length idx)
    else if flags == 1
    then (subslice s (field_len - 8) field_len >>= λ sub.
        uint 8 sub.bytes >>= λ v. ok (set_to (num v) idx))
    else ok (set_to (num 0) idx)

abbrev pub elem_size : ElemKind → ℕ
elem_size byte = 1
elem_size half = 2
elem_size word = 4
elem_size double = 8
elem_size signed_word = 4
elem_size signed_double = 8
elem_size (unsupported n) = n

unfoldable pub element : ElemKind → Bytes → Result ℕ
unfolding uint
element byte bs = uint 1 bs
element half bs = uint 2 bs
element word bs = uint 4 bs
element double bs = uint 8 bs
element signed_word bs = uint 4 bs
element signed_double bs = uint 8 bs
element (unsupported n) bs = err unsupported_element

-- The loop over an array; the array is set only if all its elements are there.
unfoldable pub array_step : ElemKind → ℕ → Slice → ℕ → List ℕ → Result Step
unfolding element
array_step k zero s idx got = ok (set_to (nums got) idx)
array_step k (suc n) s idx got = elim (ltb (len s) (idx + elem_size k)) [
  | true ↦ ok (fail exceeded_buffer idx)
  | false ↦ elim (element k (drop idx s.bytes)) [
    | ok v ↦ array_step k n s (idx + elem_size k) (got ++ (v ∷ []))
    | err e ↦ ok (fail e idx)
    | crash ↦ crash
    | stuck ↦ stuck
  ]
]

-- `nested` reads a struct field of the two known types from its own part of the data.
module _ (nested : Tag → Bytes → Result Value) where
  unfoldable pub struct_step : Tag → Slice → ℕ → Result Step
  unfolding subslice
  struct_step time_spec s idx = subslice s idx (idx + 12) >>= λ sub.
      nested time_spec sub.bytes >>= λ v. ok (set_to v (idx + 12))
  struct_step windows_time s idx = subslice s idx (idx + 8) >>= λ sub.
      nested windows_time sub.bytes >>= λ v. ok (set_to v (idx + 8))
  struct_step _ s idx = ok (leave idx)

  unfoldable pub pointer_step : Tag → ℕ → Result Step
  pointer_step key_pointer idx = ok (leave (idx + 17))
  pointer_step _ idx = ok (leave idx)

  unfoldable pub uint64_step : Tag → Slice → Struct → ℕ → Result Step
  unfolding six_bytes child_vcn_step fixed
  uint64_step entry_ref s fields idx = six_bytes s idx
  uint64_step child_vcn s fields idx = child_vcn_step s fields idx
  uint64_step _ s fields idx = fixed 8 exceeded_buffer s idx

  -- The switch on the field's kind.
  unfoldable pub member_step : Slice → Struct → Kind → Tag → ℕ → Result Step
  unfolding struct_step pointer_step uint64_step fixed array_step classify
  member_step s fields (structure type_name) tag idx = struct_step (classify type_name) s idx
  member_step s fields pointer tag idx = pointer_step tag idx
  member_step s fields uint8 tag idx = fixed 1 exhausted_buffer s idx
  member_step s fields int16 tag idx = fixed 2 exhausted_buffer s idx
  member_step s fields uint16 tag idx = fixed 2 exhausted_buffer s idx
  member_step s fields uint32 tag idx = fixed 4 exhausted_buffer s idx
  member_step s fields int64 tag idx = fixed 8 exhausted_buffer s idx
  member_step s fields uint64 tag idx = uint64_step tag s fields idx
  member_step s fields boolean tag idx = ok (set_to (num 0) (idx + 1))
  member_step s fields skipped tag idx = ok (leave idx)
  member_step s fields (array k n) tag idx = array_step k n s idx []

-- The struct after the walk, the index returned, and the error, which most callers drop.
pub record Parsed : Type 0 where
  pub members : Struct
  pub read : ℕ
  pub error : Option Error

-- The loop over the fields: those before `todo` are done.
unfoldable pub unmarshal_from :
    (Tag → Bytes → Result Value) → Slice → Struct → Struct → ℕ → Result Parsed
unfolding member_step
unmarshal_from nested s done [] idx = ok (record { members = done; read = idx; error = none })
unmarshal_from nested s done (m ∷ todo) idx = elim (ltb (len s) idx) [
  | true ↦ ok (record { members = done ++ (m ∷ todo); read = idx; error = some exhausted_buffer })
  | false ↦ member_step nested s (done ++ (m ∷ todo)) m.kind (classify m.name) idx >>= elim [
    | set_to v next ↦ unmarshal_from nested s (done ++ (record m { value = v } ∷ [])) todo next
    | leave next ↦ unmarshal_from nested s (done ++ (m ∷ [])) todo next
    | fail e next ↦ ok (record { members = done ++ (m ∷ todo); read = next; error = some e })
  ]
]

-- utils.TimeSpec {Sec int64; Nsec int32} and utils.WindowsTime {Stamp uint64}.
abbrev pub time_spec_fields : Struct
time_spec_fields = member "Sec" int64 ∷ member "Nsec" skipped ∷ []

abbrev pub windows_time_fields : Struct
windows_time_fields = member "Stamp" uint64 ∷ []

abbrev no_nested : Tag → Bytes → Result Value
no_nested _ _ = crash

abbrev time_of : Struct → Result Value
time_of fields = do
  sec ← field_uint "Sec" fields
  nsec ← field_uint "Nsec" fields
  ok (time sec nsec)

-- The recursive call on a nested struct, whose own fields are plain.
unfoldable pub nested_value : Tag → Bytes → Result Value
unfolding unmarshal_from field_uint
nested_value time_spec bs =
    unmarshal_from no_nested (full bs) [] time_spec_fields 0 >>= λ p. time_of p.members
nested_value windows_time bs = unmarshal_from no_nested (full bs) [] windows_time_fields 0 >>= λ p.
    field_uint "Stamp" p.members >>= λ v. ok (num v)
nested_value _ bs = crash

unfoldable pub unmarshal : Slice → Struct → Result Parsed
unfolding unmarshal_from nested_value
unmarshal s fields = unmarshal_from nested_value s [] fields 0

-- The number or the numbers in a field, for the callers that read one by its name; 0 and [] where
-- there is none.
unfoldable pub get_num : String → Struct → ℕ
get_num n [] = 0
get_num n (m ∷ ms) = if str_eq m.name n then number m.value else get_num n ms
  where
    number : Value → ℕ
    number (num v) = v
    number (nums vs) = 0
    number (time a b) = a

unfoldable pub get_nums : String → Struct → List ℕ
get_nums n [] = []
get_nums n (m ∷ ms) = if str_eq m.name n then numbers m.value else get_nums n ms
  where
    numbers : Value → List ℕ
    numbers (num v) = []
    numbers (nums vs) = vs
    numbers (time a b) = []
