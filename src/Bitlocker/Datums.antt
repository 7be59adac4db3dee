-- ===== src/Bitlocker/Datums.antt =====
-- The entries of BitLocker's metadata: disk/Bitlocker/datums/datums.go and vmk.go. A string is
-- kept as its UTF-16 code units, which a library call decodes.
pub mod Nesting
use file_system_forensics.Base.{
  Bool, Bytes, List, Option, [], bit_or, bit_xor, false, if◌then◌else◌, length, ltb, none, not,
  some, suc, true, zero, ℕ, ◌+◌, ◌==◌, ◌||◌, ◌∷◌,
}
use file_system_forensics.Go.{
  Error, Result, Slice, bad_entry_size, crash, entry_exceeds, entry_too_small, err, len, ok, stuck,
  subslice, suffix, unsupported_value, ◌>>=◌,
}
use file_system_forensics.Structures.Bitlocker.{
  datum_header, fve_external_key, fve_key, fve_stretch_key, fve_use_key, fve_volume_header_block,
  fve_volume_master_key,
}
use file_system_forensics.Utils.Endian.{code_units}
use file_system_forensics.Utils.Layout.{size}
use file_system_forensics.Utils.Unmarshal.{Parsed, Struct, get_num, unmarshal}

-- A Go value of the interface Datum, nil for an erased entry: the header, the fields that
-- `Unmarshal` sets, and the bytes behind them. A master key holds datums of its own.
mutual
  pub data Datum : Type 0 where
    erased : Datum
    key_datum stretch_key_datum external_key_datum header_block_datum :
        Struct → Struct → Bytes → Datum
    use_key_datum : Struct → Struct → Datum
    unicode_datum : Struct → List ℕ → Datum
    aesccm_datum : Struct → Bytes → Slice → Datum
    master_key_datum : Struct → Struct → Datums → Datum

  pub data Datums : Type 0 where
    no_datums : Datums
    datum_and : Datum → Datums → Datums

-- `append(vmk.Datums, datum)`.
unfoldable pub append_datum : Datums → Datum → Datums
append_datum no_datums d = datum_and d no_datums
append_datum (datum_and d ds) e = datum_and d (append_datum ds e)

-- `DatumHeader.Process`; the copy of the first eight bytes is `header_bytes` below.
unfoldable pub process_datum_header : Slice → Result Struct
process_datum_header raw =
    if ltb (len raw) 8
    then err entry_too_small
    else (subslice raw 0 8 >>= λ head. unmarshal head datum_header >>= λ p. no_error p >>= λ _.
        if ltb (get_num "EntrySize" p.members) 8
        then err bad_entry_size
        else if ltb (len raw) (get_num "EntrySize" p.members)
        then err entry_exceeds
        else ok p.members)
  where
    no_error : Parsed → Result (Unit {0})
    no_error p = elim p.error [ none ↦ ok tt | some e ↦ err e ]

-- The bytes from an offset, unless `Unmarshal` failed before.
unfoldable pub data_from : Option Error → Slice → ℕ → Result Bytes
data_from (some e) raw n = ok []
data_from none raw n = suffix raw n >>= λ rest. ok rest.bytes

-- The loop of `FVEVolumeMasterKey.Process` over the nested entries, with fuel; `create` makes the
-- datum of one of them.
unfoldable pub nested_datums :
    (Struct → Slice → Result Datum) → ℕ → Slice → ℕ → Datums → Result Datums
nested_datums create zero raw off found = stuck
nested_datums create (suc fuel) raw off found = suffix raw 28 >>= λ body.
    elim (ltb off (len body)) [
      | false ↦ ok found
      | true ↦ suffix raw (28 + off) >>= λ rest. elim (process_datum_header rest) [
        | err e ↦ ok found
        | crash ↦ crash
        | stuck ↦ stuck
        | ok header ↦
            let size = get_num "EntrySize" header in
            elim (size == 0 || ltb (len raw) (off + size)) [
              | true ↦ ok found
              | false ↦ subslice raw (28 + off + 8) (28 + off + size) >>= λ part.
                  elim (create header part) [
                    | err e ↦ ok found
                    | crash ↦ crash
                    | stuck ↦ stuck
                    | ok d ↦ nested_datums create fuel raw (off + size) (append_datum found d)
                  ]
            ]
      ]
    ]

-- The errors of the `Process` methods are dropped by `CreateDatum`.
unfoldable pub process_key : Struct → Slice → Result Datum
process_key header raw =
    if ltb (len raw) 32
    then ok (key_datum header fve_key [])
    else unmarshal raw fve_key >>= λ p.
        data_from p.error raw 4 >>= λ rest. ok (key_datum header p.members rest)

unfoldable pub process_stretch_key : Struct → Slice → Result Datum
process_stretch_key header raw = unmarshal raw fve_stretch_key >>= λ p.
    data_from p.error raw 20 >>= λ rest. ok (stretch_key_datum header p.members rest)

unfoldable pub process_external_key : Struct → Slice → Result Datum
process_external_key header raw = unmarshal raw fve_external_key >>= λ p.
    data_from p.error raw 24 >>= λ rest. ok (external_key_datum header p.members rest)

unfoldable pub process_header_block : Struct → Slice → Result Datum
process_header_block header raw = unmarshal raw fve_volume_header_block >>= λ p.
    data_from p.error raw 20 >>= λ rest. ok (header_block_datum header p.members rest)

unfoldable pub process_aesccm : Struct → Slice → Result Datum
process_aesccm header raw = subslice raw 0 12 >>= λ nonce.
    suffix raw 12 >>= λ rest. ok (aesccm_datum header nonce.bytes rest)

unfoldable pub process_master_key : (Struct → Slice → Result Datum) → Struct → Slice → Result Datum
unfolding nested_datums
process_master_key create header raw = unmarshal raw fve_volume_master_key >>= λ p. elim p.error [
  | some e ↦ ok (master_key_datum header p.members no_datums)
  | none ↦ nested_datums create (suc (len raw)) raw 0 no_datums >>= λ ds.
      ok (master_key_datum header p.members ds)
]

-- The value types of disk/Bitlocker/datums/flags.go that `CreateDatum` knows.
pub data ValueType : Type 0 where
  erased_value key_value unicode_value stretch_value use_value aesccm_value vmk_value : ValueType
  external_value offset_value unsupported_value_type : ValueType

unfoldable pub value_type : ℕ → ValueType
value_type v =
    if v == 0
    then erased_value
    else if v == 1
    then key_value
    else if v == 2
    then unicode_value
    else if v == 3
    then stretch_value
    else if v == 4
    then use_value
    else if v == 5
    then aesccm_value
    else if v == 8
    then vmk_value
    else if v == 9
    then external_value
    else if v == 15
    then offset_value
    else unsupported_value_type

-- One level of `CreateDatum`; `create` is the next.
unfoldable pub create_by :
    (Struct → Slice → Result Datum) → ValueType → Struct → Slice → Result Datum
unfolding process_key process_stretch_key process_external_key process_header_block process_aesccm
    process_master_key
create_by create erased_value header raw = ok erased
create_by create key_value header raw = process_key header raw
create_by create unicode_value header raw = ok (unicode_datum header (code_units raw.bytes))
create_by create stretch_value header raw = process_stretch_key header raw
create_by create use_value header raw =
    unmarshal raw fve_use_key >>= λ p. ok (use_key_datum header p.members)
create_by create aesccm_value header raw = process_aesccm header raw
create_by create vmk_value header raw = process_master_key create header raw
create_by create external_value header raw = process_external_key header raw
create_by create offset_value header raw = process_header_block header raw
create_by create unsupported_value_type header raw = err unsupported_value

-- `CreateDatum`; the fuel bounds how deep master keys nest.
unfoldable pub create_datum : ℕ → Struct → Slice → Result Datum
unfolding create_by value_type
create_datum zero header raw = stuck
create_datum (suc fuel) header raw =
    create_by (create_datum fuel) (value_type (get_num "ValueType" header)) header raw

-- `equal16`: the differences of all bytes are gathered before they are tested.
unfoldable pub gather : ℕ → Bytes → Bytes → ℕ
gather v [] bs = v
gather v (a ∷ xs) [] = v
gather v (a ∷ xs) (b ∷ bs) = gather (bit_or v (bit_xor a b)) xs bs

unfoldable pub equal16 : Bytes → Bytes → Bool
unfolding gather
equal16 a b = if not (length a == 16) || not (length b == 16) then false else gather 0 a b == 0
