-- ===== src/Go.antt =====
-- The part of Go that every component stands on: byte slices with their capacity, run-time panics
-- and error values. Not a file of the repository.
use file_system_forensics.Base.{
  Bool, Bytes, Option, [], ap, arith, drop, drop-append, drop-append_le, drop-drop, false,
  get_elem?, if◌then◌else◌, inl, inr, leb, length, length-append, length-drop, le→leb, ltb, none,
  refl, set, some, sym, take, take-append, take-append_le, true, ℕ, ◌&&◌, ◌++◌, ◌+◌, ◌-◌, ◌∙◌, ◌∷◌,
  ◌≡◌, ◌≢◌, ◌≤◌, ◌⊎◌,
}

-- The error values of the modelled functions, one for each message.
pub data Error : Type 0 where
  exhausted_buffer exceeded_buffer invalid_field_length unsupported_element : Error
  no_runlist negative_offset runlist_exceeds_buffer read_failed : Error
  record_is_zero corrupt_record not_valid_record fixup_data_short fixup_array_short : Error
  parent_reallocated record_not_found no_attribute : Error
  bad_fixup_count bad_fixup_offset index_data_exceeded no_indx_signature no_used_entries : Error
  bad_key_length bad_tweak_length ciphertext_short bad_nonce_length bad_tag_length : Error
  no_method bad_fvek_length bad_method bad_sector_size before_partition bad_block_multiple : Error
  entry_too_small bad_entry_size entry_exceeds unsupported_value : Error
  metadata_too_small bad_metadata_signature bad_digit no_vmk_key bad_vmk_method no_fvek : Error
  no_extended_partition not_located usn_data_short usn_name_exceeds checksum_failed : Error

-- What a Go call gives: its value, an error value, a run-time panic, or, for a loop run on fuel,
-- `stuck`, which is no Go outcome: the fuel ran out.
pub data Result {ℓ} (A : Type ℓ) : Type ℓ where
  crash stuck : Result A
  err : Error → Result A
  ok : A → Result A

infixl 5 ◌>>=◌
-- The call that follows, on the value of the first; anything else ends the chain.
abbrev pub ◌>>=◌ {ℓ ℓ'} : {A : Type ℓ} {B : Type ℓ'} → Result A → (A → Result B) → Result B
crash >>= next = crash
stuck >>= next = stuck
err why >>= next = err why
ok value >>= next = next value

-- A byte slice: the bytes up to its length, and those behind, up to its capacity.
pub record Slice : Type 0 where
  pub bytes : Bytes
  pub spare : Bytes

-- A slice that fills its array.
abbrev pub full : Bytes → Slice
full bs = record { bytes = bs; spare = [] }

abbrev pub len : Slice → ℕ
len s = length s.bytes

-- `s[lo:hi]`: Go checks `hi` against the capacity, so a slice can grow into what is behind it.
unfoldable pub subslice : Slice → ℕ → ℕ → Result Slice
subslice s lo hi =
    if leb lo hi && leb hi (length (s.bytes ++ s.spare))
    then ok (record {
      bytes = take (hi - lo) (drop lo (s.bytes ++ s.spare));
      spare = drop hi (s.bytes ++ s.spare);
    })
    else crash

-- `s[lo:]`.
abbrev pub suffix : Slice → ℕ → Result Slice
suffix s lo = subslice s lo (len s)

abbrev or_crash {ℓ} : {A : Type ℓ} → Option A → Result A
or_crash none = crash
or_crash (some a) = ok a

-- `s[i]`.
unfoldable pub at : Slice → ℕ → Result ℕ
at s i = or_crash (get_elem? s.bytes i)

-- `s[i] = v`.
unfoldable pub put : Slice → ℕ → ℕ → Result Slice
put s i v = if ltb i (len s) then ok (record s { bytes = set s.bytes i v }) else crash

-- `copy(dst, src)`: as many bytes as both have.
unfoldable pub copy : Bytes → Bytes → Bytes
copy [] src = []
copy (d ∷ ds) [] = d ∷ ds
copy (d ∷ ds) (s ∷ ss) = s ∷ copy ds ss

pub length-copy : (dst src : Bytes) → length (copy dst src) ≡ length dst
unfolding copy
length-copy [] src = refl
length-copy (d ∷ ds) [] = refl
length-copy (d ∷ ds) (s ∷ ss) = omega (arith, length-copy ds ss)

-- A source that is no longer is copied to the front.
pub copy_front :
    (dst src : Bytes) → length src ≤ length dst → copy dst src ≡ src ++ drop (length src) dst
unfolding copy
copy_front [] [] h = refl
copy_front [] (s ∷ ss) h = absurd (omega arith)
copy_front (d ∷ ds) [] h = refl
copy_front (d ∷ ds) (s ∷ ss) h = ap (◌∷◌ s) (copy_front ds ss (omega arith))

-- Within the length a subslice is the plain part of the bytes.
pub subslice_within :
    (s : Slice) (lo hi : ℕ)
    → lo ≤ hi
    → hi ≤ len s
    → subslice s lo hi
      ≡ ok (record { bytes = take (hi - lo) (drop lo s.bytes); spare = drop hi s.bytes ++ s.spare })
unfolding subslice
subslice_within s lo hi p q =
    rw
      (
        le→leb lo hi p,
        le→leb hi (length (s.bytes ++ s.spare)) (omega (arith, length-append s.bytes s.spare)),
      )
      (rw (drop-append_le lo s.bytes s.spare (omega arith), drop-append_le hi s.bytes s.spare q)
        (rw (
          take-append_le (hi - lo) (drop lo s.bytes) s.spare
            (omega (arith, length-drop lo s.bytes)))))

-- The same for a width.
pub subslice_width :
    (s : Slice) (lo n : ℕ)
    → lo + n ≤ len s
    → subslice s lo (lo + n)
      ≡ ok (record { bytes = take n (drop lo s.bytes); spare = drop (lo + n) s.bytes ++ s.spare })
subslice_width s lo n h =
    let e : lo + n - lo ≡ n = omega arith in rw e at (subslice_within s lo (lo + n) (omega arith) h)

-- A slice at the middle part of its bytes.
pub subslice_middle :
    (s : Slice) (a b c : Bytes) (lo hi : ℕ)
    → s.bytes ≡ a ++ (b ++ c)
    → lo ≡ length a
    → hi ≡ lo + length b
    → subslice s lo hi ≡ ok (record { bytes = b; spare = c ++ s.spare })
subslice_middle s a b c lo hi e p q =
    let whole : len s ≡ length a + (length b + length c) =
      rw e (omega (arith, length-append a (b ++ c), length-append b c)) in
    let cut : drop lo s.bytes ≡ b ++ c = rw e (drop-append a (b ++ c) lo p) in
    rw
      (
        q,
        subslice_width s lo (length b) (omega arith),
        cut,
        take-append b c (length b) refl,
        tail lo (length b) s.bytes cut,
      )
      refl
  where
    tail : (i n : ℕ) (xs : Bytes) → drop i xs ≡ b ++ c → drop (i + length b) xs ≡ c
    tail i n xs h =
        sym (drop-drop i (length b) (i + length b) xs refl)
        ∙ rw (h, drop-append b c (length b) refl)

pub at_middle :
    (s : Slice) (a c : Bytes) (x i : ℕ) → s.bytes ≡ a ++ (x ∷ c) → i ≡ length a → at s i ≡ ok x
unfolding at
at_middle s a c x i e p = rw (e, p, get_elem?-middle a c x)
  where
    get_elem?-middle : (a c : Bytes) (x : ℕ) → get_elem? (a ++ (x ∷ c)) (length a) ≡ some x
    get_elem?-middle [] c x = refl
    get_elem?-middle (y ∷ a) c x = get_elem?-middle a c x

-- To split on an outcome and keep the equation.
pub Result-cases {ℓ} :
    {A : Type ℓ} (r : Result A)
    → ((a : A) × (r ≡ ok a)) ⊎ ((r ≡ crash) ⊎ ((r ≡ stuck) ⊎ ((e : Error) × (r ≡ err e))))
Result-cases (ok a) = inl (a, refl)
Result-cases (err e) = inr (inr (inr (e, refl)))
Result-cases crash = inr (inl refl)
Result-cases stuck = inr (inr (inl refl))

-- A chain is stuck only where one of its links is.
pub bind-ne-stuck {ℓ κ} :
    {A : Type ℓ} {B : Type κ} (m : Result A) (f : A → Result B)
    → m ≢ stuck
    → ((a : A) → m ≡ ok a → f a ≢ stuck)
    → (m >>= f) ≢ stuck
bind-ne-stuck (ok a) f h k e = k a refl e
bind-ne-stuck (err x) f h k e = cc
bind-ne-stuck crash f h k e = cc
bind-ne-stuck stuck f h k e = h refl

pub subslice-ne-stuck : (s : Slice) (lo hi : ℕ) → subslice s lo hi ≢ stuck
unfolding subslice
subslice-ne-stuck s lo hi e = ground arith

pub ite_ne_stuck {ℓ} :
    {A : Type ℓ} (b : Bool) (x y : Result A) → x ≢ stuck → y ≢ stuck → (if b then x else y) ≢ stuck
ite_ne_stuck true x y h k = h
ite_ne_stuck false x y h k = k

pub ok-ne-stuck {ℓ} : {A : Type ℓ} (a : A) → ok a ≢ stuck
ok-ne-stuck a e = cc

pub err-ne-stuck {ℓ} : {A : Type ℓ} (e : Error) → ◌≢◌ {A = Result A} (err e) stuck
err-ne-stuck e h = cc

-- A value or an error value: neither a panic nor a loop cut short.
abbrev pub IsOutcome {ℓ} : {A : Type ℓ} → Result A → Type 0
IsOutcome (ok a) = Unit {0}
IsOutcome (err e) = Unit {0}
IsOutcome crash = ⊥
IsOutcome stuck = ⊥

pub outcome_cases {ℓ} :
    {A : Type ℓ} (r : Result A) → IsOutcome r → ((a : A) × (r ≡ ok a)) ⊎ ((e : Error) × (r ≡ err e))
outcome_cases (ok a) h = inl (a, refl)
outcome_cases (err e) h = inr (e, refl)
outcome_cases crash h = absurd h
outcome_cases stuck h = absurd h

pub subslice_inside :
    (s : Slice) (lo hi : ℕ) → lo ≤ hi → hi ≤ len s → (t : Slice) × (subslice s lo hi ≡ ok t)
subslice_inside s lo hi p q = (_, subslice_within s lo hi p q)
