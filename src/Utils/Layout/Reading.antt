-- ===== src/Utils/Layout/Reading.antt =====
-- `Unmarshal` of utils/utils.go gives the layout wherever the data is long enough.
use file_system_forensics.Base.{
  Bytes, List, [], ap, arith, drop, drop-drop, inl, inr, leb-false, length, length-drop,
  length-take, le→leb, ltb-false, none, refl, suc, take, take-take, zero, ℕ, ◌*◌, ◌++◌, ◌+◌, ◌-◌,
  ◌<◌, ◌∙◌, ◌∷◌, ◌≡◌, ◌≤◌, ◌⊎◌,
}
use file_system_forensics.Go.{
  Error, Result, Slice, crash, err, exceeded_buffer, exhausted_buffer, len, ok, stuck,
  subslice_width,
}
use file_system_forensics.Utils.Endian.{le, uint}
use file_system_forensics.Utils.Layout.{
  Fits, Has, IsSupported, decode, elements, layout, size, struct_value, struct_width, width,
}
use file_system_forensics.Utils.Unmarshal.{
  ElemKind, Kind, Member, Parsed, Step, Struct, Tag, Value, array, array_step, boolean, byte,
  child_vcn, classify, double, elem_size, element, entry_ref, fail, fixed, half, int16, int64,
  key_pointer, leave, member_step, nested_value, num, nums, pointer, set_to, signed_double,
  signed_word, six_bytes, skipped, struct_step, structure, time, time_spec, uint16, uint32, uint64,
  uint8, unmarshal, unmarshal_from, unsupported, windows_time, word,
}
use mathlib.Core.List.{append-nil, append_assoc}
use native.Mathlib.Nat.{zero-add}

uint_enough : (n : ℕ) (bs : Bytes) → n ≤ length bs → uint n bs ≡ ok (le (take n bs))
unfolding uint
uint_enough n bs h = rw (le→leb n (length bs) h)

fixed_enough :
    (n : ℕ) (e : Error) (s : Slice) (idx : ℕ)
    → idx + n ≤ len s
    → fixed n e s idx ≡ ok (set_to (num (le (take n (drop idx s.bytes)))) (idx + n))
unfolding fixed
fixed_enough n e s idx h = rw (
  ltb-false (len s) (idx + n) h,
  uint_enough n (drop idx s.bytes) (omega (arith, length-drop idx s.bytes)),
)

six_bytes_enough :
    (s : Slice) (idx : ℕ)
    → idx + 6 < len s
    → six_bytes s idx ≡ ok (set_to (num (le (take 6 (drop idx s.bytes)))) (idx + 6))
unfolding six_bytes
six_bytes_enough s idx h = rw (
  leb-false (len s) (idx + 6) h,
  uint_enough 6 (drop idx s.bytes) (omega (arith, length-drop idx s.bytes)),
)

rest_length : (s : Slice) (idx : ℕ) → length (drop idx s.bytes) ≡ len s - idx
rest_length s idx = length-drop idx s.bytes

element_enough :
    (k : ElemKind) (bs : Bytes)
    → IsSupported k
    → elem_size k ≤ length bs
    → element k bs ≡ ok (le (take (elem_size k) bs))
unfolding element
element_enough byte bs i h = uint_enough 1 bs h
element_enough half bs i h = uint_enough 2 bs h
element_enough word bs i h = uint_enough 4 bs h
element_enough double bs i h = uint_enough 8 bs h
element_enough signed_word bs i h = uint_enough 4 bs h
element_enough signed_double bs i h = uint_enough 8 bs h
element_enough (unsupported n) bs i h = absurd i

array_enough :
    (k : ElemKind) (n : ℕ) (s : Slice) (idx next : ℕ) (got : List ℕ)
    → IsSupported k
    → idx + n * elem_size k ≡ next
    → next ≤ len s
    → array_step k n s idx got ≡ ok (set_to (nums (got ++ elements k n (drop idx s.bytes))) next)
unfolding array_step
array_enough k zero s idx next got i e h = let e' : idx ≡ next = omega arith in rw (e', append-nil)
array_enough k (suc n) s idx next got i e h =
    let v : ℕ = le (take (elem_size k) (drop idx s.bytes)) in
    ground (
      arith,
      element_enough k (drop idx s.bytes) i (omega (arith, rest_length s idx)),
      array_enough k n s (idx + elem_size k) next (got ++ (v ∷ [])) i (omega arith) h,
      drop-drop idx (elem_size k) (idx + elem_size k) s.bytes refl,
      append_assoc got (v ∷ []) (elements k n (drop (elem_size k) (drop idx s.bytes))),
    )

nested_time_spec :
    (bs : Bytes) → 12 ≤ length bs → nested_value time_spec bs ≡ ok (time (le (take 8 bs)) 0)
unfolding nested_value
nested_time_spec bs h = ground arith

nested_windows_time :
    (bs : Bytes) → 8 ≤ length bs → nested_value windows_time bs ≡ ok (num (le (take 8 bs)))
unfolding nested_value
nested_windows_time bs h = ground arith

-- Where a step leads: to the value and the index after it, a field left alone keeping its value.
abbrev LandsAt : Step → Value → Value → ℕ → Type 0
LandsAt (set_to v n) old new next = (v ≡ new) × (n ≡ next)
LandsAt (leave n) old new next = (old ≡ new) × (n ≡ next)
LandsAt (fail e n) old new next = ⊥

-- A step that succeeds, with the place where it leads.
abbrev Reads : Result Step → Value → Value → ℕ → Type 0
Reads (ok st) old new next = LandsAt st old new next
Reads _ old new next = ⊥

fixed-Reads :
    (n : ℕ) (e : Error) (s : Slice) (idx : ℕ) (old : Value)
    → idx + n ≤ len s
    → Reads (fixed n e s idx) old (num (le (take n (drop idx s.bytes)))) (idx + n)
fixed-Reads n e s idx old h = rw (fixed_enough n e s idx h) (refl, refl)

struct-Reads :
    (tag : Tag) (s : Slice) (idx : ℕ) (old : Value)
    → idx ≤ len s
    → struct_width tag ≤ len s - idx
    → Reads
        (struct_step nested_value tag s idx)
        old
        (struct_value tag old (drop idx s.bytes))
        (idx + struct_width tag)
unfolding struct_step
struct-Reads time_spec s idx old p h =
    let room : 12 ≤ length (take 12 (drop idx s.bytes)) =
      omega (arith, length-take 12 (drop idx s.bytes), rest_length s idx) in
    rw
      (
        subslice_width s idx 12 (omega arith),
        nested_time_spec (take 12 (drop idx s.bytes)) room,
        take-take 8 12 (drop idx s.bytes) (omega arith),
      )
      (refl, refl)
struct-Reads windows_time s idx old p h =
    let room : 8 ≤ length (take 8 (drop idx s.bytes)) =
      omega (arith, length-take 8 (drop idx s.bytes), rest_length s idx) in
    rw
      (
        subslice_width s idx 8 (omega arith),
        nested_windows_time (take 8 (drop idx s.bytes)) room,
        take-take 8 8 (drop idx s.bytes) (omega arith),
      )
      (refl, refl)
struct-Reads _ s idx old p h = (refl, omega arith)

pub member-Reads :
    (k : Kind) (tag : Tag) (s : Slice) (fields : Struct) (idx : ℕ) (old : Value)
    → idx ≤ len s
    → Has k tag (len s - idx)
    → Reads
        (member_step nested_value s fields k tag idx)
        old
        (decode k tag old (drop idx s.bytes))
        (idx + width k tag)
unfolding member_step
member-Reads (structure n) tag s fields idx old p h = struct-Reads (classify n) s idx old p h
member-Reads pointer key_pointer s fields idx old p h = (refl, refl)
member-Reads pointer _ s fields idx old p h = (refl, omega arith)
member-Reads uint8 tag s fields idx old p h = fixed-Reads 1 exhausted_buffer s idx old (omega arith)
member-Reads int16 tag s fields idx old p h = fixed-Reads 2 exhausted_buffer s idx old (omega arith)
member-Reads uint16 tag s fields idx old p h =
    fixed-Reads 2 exhausted_buffer s idx old (omega arith)
member-Reads uint32 tag s fields idx old p h =
    fixed-Reads 4 exhausted_buffer s idx old (omega arith)
member-Reads int64 tag s fields idx old p h = fixed-Reads 8 exhausted_buffer s idx old (omega arith)
member-Reads uint64 entry_ref s fields idx old p h =
    rw (six_bytes_enough s idx (omega arith)) (refl, refl)
member-Reads uint64 child_vcn s fields idx old p h = absurd h
member-Reads uint64 _ s fields idx old p h = fixed-Reads 8 exceeded_buffer s idx old (omega arith)
member-Reads boolean tag s fields idx old p h = (refl, refl)
member-Reads skipped tag s fields idx old p h = (refl, omega arith)
member-Reads (array k n) tag s fields idx old p h =
    rw (array_enough k n s idx (idx + n * elem_size k) [] h.0 refl (omega arith)) (refl, refl)

pub Reads-cases :
    (r : Result Step) (old new : Value) (next : ℕ)
    → Reads r old new next
    → (r ≡ ok (set_to new next)) ⊎ ((r ≡ ok (leave next)) × (old ≡ new))
Reads-cases (ok (set_to v n)) old new next h = inl cc
Reads-cases (ok (leave n)) old new next h = inr (cc, h.0)
Reads-cases (ok (fail e n)) old new next h = absurd h
Reads-cases (err e) old new next h = absurd h
Reads-cases crash old new next h = absurd h
Reads-cases stuck old new next h = absurd h

module _ (s : Slice) (done todo : Struct) (m : Member) (idx next : ℕ) (p : idx ≤ len s) where
  pub unmarshal_set :
      (v : Value)
      → member_step nested_value s (done ++ (m ∷ todo)) m.kind (classify m.name) idx
        ≡ ok (set_to v next)
      → unmarshal_from nested_value s done (m ∷ todo) idx
        ≡ unmarshal_from nested_value s (done ++ (record m { value = v } ∷ [])) todo next
  unfolding unmarshal_from
  unmarshal_set v e = ground (arith, e)

  pub unmarshal_leave :
      member_step nested_value s (done ++ (m ∷ todo)) m.kind (classify m.name) idx ≡ ok (leave next)
      → unmarshal_from nested_value s done (m ∷ todo) idx
        ≡ unmarshal_from nested_value s (done ++ (m ∷ [])) todo next
  unfolding unmarshal_from
  unmarshal_leave e = ground (arith, e)

pub Has-width : (k : Kind) (tag : Tag) (n : ℕ) → Has k tag n → width k tag ≤ n
Has-width uint64 entry_ref n h = omega arith
Has-width uint64 child_vcn n h = absurd h
Has-width (array k w) tag n h = h.1
Has-width _ _ n h = h

unmarshal_from-layout :
    (s : Slice) (todo done : Struct) (idx : ℕ)
    → idx ≤ len s
    → Fits (len s - idx) todo
    → unmarshal_from nested_value s done todo idx
      ≡ ok (record {
        members = done ++ layout (drop idx s.bytes) todo;
        read = idx + size todo;
        error = none;
      })
unmarshal_from-layout s [] done idx p f = unfold unmarshal_from in ground (arith, append-nil done)
unmarshal_from-layout s (m ∷ todo) done idx p f =
    let tag : Tag = classify m.name in
    let w : ℕ = width m.kind tag in
    let v : Value = decode m.kind tag m.value (drop idx s.bytes) in
    let room : idx + w ≤ len s = omega (arith, Has-width m.kind tag (len s - idx) f.0) in
    let seam : drop w (drop idx s.bytes) ≡ drop (idx + w) s.bytes =
      drop-drop idx w (idx + w) s.bytes refl in
    let left : len s - idx - w ≡ len s - (idx + w) = omega arith in
    let rest : Fits (len s - (idx + w)) todo = rw left at f.1 in
    let m' : Member = record m { value = v } in
    let later = unmarshal_from-layout s todo (done ++ (m' ∷ [])) (idx + w) room rest in
    let target : Parsed = record {
      members = done ++ layout (drop idx s.bytes) (m ∷ todo);
      read = idx + size (m ∷ todo);
      error = none;
    } in
    let same : unmarshal_from nested_value s (done ++ (m' ∷ [])) todo (idx + w) ≡ ok target =
      ground
        (arith, later, append_assoc done (m' ∷ []) (layout (drop (idx + w) s.bytes) todo), seam) in
    elim (Reads-cases _ m.value v (idx + w)
      (member-Reads m.kind tag s (done ++ (m ∷ todo)) idx m.value p f.0)) [
        | inl e ↦ unmarshal_set s done todo m idx (idx + w) p v e ∙ same
        | inr (e, kept) ↦
            let unset : m ≡ m' = λ i. record m { value = kept i } in
            unmarshal_leave s done todo m idx (idx + w) p e
            ∙ ap (λ (x : Member). unmarshal_from nested_value s (done ++ (x ∷ [])) todo (idx + w))
                unset
            ∙ same
      ]

pub unmarshal-layout :
    (s : Slice) (fields : Struct)
    → Fits (len s) fields
    → unmarshal s fields
      ≡ ok (record { members = layout s.bytes fields; read = size fields; error = none })
unfolding unmarshal
unmarshal-layout s fields f =
    let whole : len s ≡ len s - 0 = omega arith in
    unmarshal_from-layout s fields [] 0 (omega arith) (rw whole at f)
    ∙ ap (λ (n : ℕ). ok (record { members = layout s.bytes fields; read = n; error = none }))
        (zero-add (size fields))
