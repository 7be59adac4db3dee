-- ===== src/Bitlocker/Datums/Nesting.antt =====
-- `CreateDatum` and `FVEVolumeMasterKey.Process` (disk/Bitlocker/datums) call each other as deep
-- as master keys nest: the nesting ends.
use file_system_forensics.Base.{
  Bool-cases, Bytes, Option, ap, arith, drop, inl, inr, length, length-drop, length-take, ltb, none,
  some, suc, take, zero, ℕ, ◌+◌, ◌-◌, ◌<◌, ◌==◌, ◌||◌, ◌∙◌, ◌≡◌, ◌≢◌, ◌≤◌,
}
use file_system_forensics.Bitlocker.Datums.{
  Datum, Datums, ValueType, aesccm_value, append_datum, create_by, create_datum, data_from,
  erased_value, external_key_datum, external_value, header_block_datum, key_datum, key_value,
  master_key_datum, nested_datums, no_datums, offset_value, process_aesccm, process_datum_header,
  process_external_key, process_header_block, process_key, process_master_key, process_stretch_key,
  stretch_key_datum, stretch_value, unicode_value, unsupported_value_type, use_value, value_type,
  vmk_value,
}
use file_system_forensics.Go.{
  Error, Result, Result-cases, Slice, bind-ne-stuck, ite_ne_stuck, len, ok, ok-ne-stuck, stuck,
  subslice, subslice-ne-stuck, subslice_inside, subslice_within, suffix, ◌>>=◌,
}
use file_system_forensics.Structures.Bitlocker.{
  datum_header, fve_external_key, fve_key, fve_stretch_key, fve_use_key, fve_volume_header_block,
  fve_volume_master_key,
}
use file_system_forensics.Utils.Layout.Ends.{unmarshal-ne-stuck}
use file_system_forensics.Utils.Unmarshal.{Parsed, Struct, get_num, unmarshal}

pub process_datum_header-ne-stuck : (raw : Slice) → process_datum_header raw ≢ stuck
unfolding process_datum_header
process_datum_header-ne-stuck raw e = elim (Result-cases (subslice raw 0 8)) [
  | inl (head, r) ↦ ground (arith, e, r, unmarshal-ne-stuck head datum_header)
  | inr ends ↦ ground (arith, e, ends, subslice-ne-stuck raw 0 8)
]

pub process_datum_header-size :
    (raw : Slice) (h : Struct)
    → process_datum_header raw ≡ ok h
    → (8 ≤ get_num "EntrySize" h) × (get_num "EntrySize" h ≤ len raw)
unfolding process_datum_header
process_datum_header-size raw h e = (ground (arith, e), ground (arith, e))

pub subslice-length :
    (s t : Slice) (lo hi : ℕ) → subslice s lo hi ≡ ok t → lo ≤ hi → hi ≤ len s → len t ≡ hi - lo
subslice-length s t lo hi e p q =
    let bytes = take (hi - lo) (drop lo s.bytes) in
    let same : t.bytes ≡ bytes = cc (e, subslice_within s lo hi p q) in
    ap length same ∙ omega (arith, length-take (hi - lo) (drop lo s.bytes), length-drop lo s.bytes)

pub suffix_inside : (s t : Slice) (lo : ℕ) → suffix s lo ≡ ok t → lo ≤ len s
unfolding subslice
suffix_inside s t lo e = ground arith

data_from-ne-stuck : (e : Option Error) (raw : Slice) (n : ℕ) → data_from e raw n ≢ stuck
unfolding data_from
data_from-ne-stuck (some x) raw n = ok-ne-stuck _
data_from-ne-stuck none raw n =
    bind-ne-stuck _ _ (subslice-ne-stuck raw n (len raw)) (λ rest _. ok-ne-stuck _)

module _ (create : Struct → Slice → Result Datum) (raw : Slice)
    (inner : (h : Struct) (part : Slice) → len part < len raw → create h part ≢ stuck) where
  nested_datums-ne-stuck :
      (fuel off : ℕ) (found : Datums)
      → len raw - off < fuel
      → nested_datums create fuel raw off found ≢ stuck
  unfolding nested_datums
  nested_datums-ne-stuck zero off found h e = absurd (omega arith)
  nested_datums-ne-stuck (suc fuel) off found h e = elim (Result-cases (suffix raw 28)) [
    | inr ends ↦ ground (arith, ends, subslice-ne-stuck raw 28 (len raw))
    | inl (body, b) ↦ elim (Bool-cases (ltb off (len body))) [
      | inr c ↦ ground (arith, b, c)
      | inl c ↦ elim (Result-cases (suffix raw (28 + off))) [
        | inr ends ↦ ground (arith, b, c, ends, subslice-ne-stuck raw (28 + off) (len raw))
        | inl (rest, r) ↦
            let at_rest = suffix_inside raw rest (28 + off) r in
            let left = subslice-length raw rest (28 + off) (len raw) r at_rest (omega arith) in
            elim (Result-cases (process_datum_header rest)) [
              | inr ends ↦ ground (arith, b, c, r, ends, process_datum_header-ne-stuck rest)
              | inl (header, d) ↦
                  let size = get_num "EntrySize" header in
                  let (least, most) = process_datum_header-size rest header d in
                  elim (Bool-cases (size == 0 || ltb (len raw) (off + size))) [
                    | inl q ↦ ground (arith, b, c, r, d, q)
                    | inr q ↦
                        let (part, t) =
                          subslice_inside raw (28 + off + 8) (28 + off + size) (omega arith)
                            (omega arith) in
                        let shorter =
                          subslice-length raw part (28 + off + 8) (28 + off + size) t (omega arith)
                            (omega arith) in
                        elim (Result-cases (create header part)) [
                          | inr ends ↦
                              ground
                                (arith, b, c, r, d, q, t, ends, inner header part (omega arith))
                          | inl (made, m) ↦ ground (
                            arith,
                            b,
                            c,
                            r,
                            d,
                            q,
                            t,
                            m,
                            e,
                            nested_datums-ne-stuck fuel (off + size) (append_datum found made)
                                (omega arith),
                          )
                        ]
                  ]
            ]
      ]
    ]
  ]

  process_master_key-ne-stuck : (header : Struct) → process_master_key create header raw ≢ stuck
  unfolding process_master_key
  process_master_key-ne-stuck header =
      bind-ne-stuck _ _ (unmarshal-ne-stuck raw fve_volume_master_key) (λ p _. by_error p p.error)
    where
      by_error :
          (p : Parsed) (e : Option Error)
          → (elim e [
            | some e ↦ ok (master_key_datum header p.members no_datums)
            | none ↦ nested_datums create (suc (len raw)) raw 0 no_datums >>= λ ds.
                ok (master_key_datum header p.members ds)
          ])
            ≢ stuck
      by_error p (some x) = ok-ne-stuck _
      by_error p none =
          bind-ne-stuck _ _ (nested_datums-ne-stuck (suc (len raw)) 0 no_datums (omega arith))
            (λ ds _. ok-ne-stuck _)

-- The datums that hold no others: fields, then the bytes behind them.
fields_then_data-ne-stuck :
    (raw : Slice) (fields : Struct) (n : ℕ) (make : Struct → Bytes → Datum)
    → (unmarshal raw fields >>= λ p. data_from p.error raw n >>= λ rest. ok (make p.members rest))
      ≢ stuck
fields_then_data-ne-stuck raw fields n make =
    bind-ne-stuck _ _ (unmarshal-ne-stuck raw fields)
      (λ p _. bind-ne-stuck _ _ (data_from-ne-stuck p.error raw n) (λ rest _. ok-ne-stuck _))

create_by-ne-stuck :
    (create : Struct → Slice → Result Datum) (v : ValueType) (header : Struct) (raw : Slice)
    → ((h : Struct) (part : Slice) → len part < len raw → create h part ≢ stuck)
    → create_by create v header raw ≢ stuck
unfolding create_by process_key process_stretch_key process_external_key process_header_block
    process_aesccm
create_by-ne-stuck create erased_value header raw inner = ok-ne-stuck _
create_by-ne-stuck create key_value header raw inner =
    ite_ne_stuck _ _ _ (ok-ne-stuck _) (fields_then_data-ne-stuck raw fve_key 4 (key_datum header))
create_by-ne-stuck create unicode_value header raw inner = ok-ne-stuck _
create_by-ne-stuck create stretch_value header raw inner =
    fields_then_data-ne-stuck raw fve_stretch_key 20 (stretch_key_datum header)
create_by-ne-stuck create use_value header raw inner =
    bind-ne-stuck _ _ (unmarshal-ne-stuck raw fve_use_key) (λ p _. ok-ne-stuck _)
create_by-ne-stuck create aesccm_value header raw inner =
    bind-ne-stuck _ _ (subslice-ne-stuck raw 0 12)
      (λ nonce _. bind-ne-stuck _ _ (subslice-ne-stuck raw 12 (len raw)) (λ rest _. ok-ne-stuck _))
create_by-ne-stuck create vmk_value header raw inner =
    process_master_key-ne-stuck create raw inner header
create_by-ne-stuck create external_value header raw inner =
    fields_then_data-ne-stuck raw fve_external_key 24 (external_key_datum header)
create_by-ne-stuck create offset_value header raw inner =
    fields_then_data-ne-stuck raw fve_volume_header_block 20 (header_block_datum header)
create_by-ne-stuck create unsupported_value_type header raw inner = λ e. cc

-- Whatever the bytes say, the datums are made in the end: master keys can nest no deeper than the
-- entry is long, and the loop over the entries of each takes at most a round for each byte.
pub create_datum-ends :
    (fuel : ℕ) (header : Struct) (raw : Slice)
    → len raw < fuel
    → create_datum fuel header raw ≢ stuck
unfolding create_datum
create_datum-ends zero header raw h e = absurd (omega arith)
create_datum-ends (suc fuel) header raw h e =
    create_by-ne-stuck (create_datum fuel) (value_type (get_num "ValueType" header)) header raw
      (λ g part shorter. create_datum-ends fuel g part (omega arith)) e
