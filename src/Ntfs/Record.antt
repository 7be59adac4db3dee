-- ===== src/Ntfs/Record.antt =====
-- `Record.Process` of FS/NTFS/MFT/MFT.go: signature, header, fixup and the walk over the
-- attributes. The parsers of the attributes' contents are the parameter `parse` of the type and the
-- content; the name of the attribute, which LoggedUtilityStream also looks at, is not passed to it, and
-- the links that an attribute list gives are not collected.
pub mod Walk
use file_system_forensics.Base.{
  Bool, List, Option, [], false, if◌then◌else◌, ltb, none, not, some, suc, true, zero, ℕ, ◌%◌, ◌&&◌,
  ◌*◌, ◌++◌, ◌+◌, ◌-◌, ◌==◌, ◌^◌, ◌∷◌,
}
use file_system_forensics.Go.{
  Result, Slice, corrupt_record, err, len, not_valid_record, ok, record_is_zero, stuck, subslice,
  suffix, ◌>>=◌,
}
use file_system_forensics.Ntfs.Attribute.{
  AttrType, Attribute, Header, NonResident, attr_type, header_of, is_known_non_resident,
  is_known_resident, is_last, is_non_resident, non_resident, non_resident_of, resident,
}
use file_system_forensics.Ntfs.FixUp.{process_fix_up_arrays, restore}
use file_system_forensics.Ntfs.Runs.{process}
use file_system_forensics.Structures.Ntfs.{
  atr_record_non_resident, atr_record_resident, attribute_header, mft_record,
}
use file_system_forensics.Utils.Endian.{le}
use file_system_forensics.Utils.Unmarshal.{Struct, get_num, unmarshal}

-- The header at the read pointer; `none` ends the walk.
unfoldable pub header_at : Slice → ℕ → Result (Option Header)
header_at bs ptr = subslice bs ptr (ptr + 4) >>= λ mark.
    if le mark.bytes == 0xffffffff
    then ok none
    else (subslice bs ptr (ptr + 16) >>= λ head. unmarshal head attribute_header >>= λ p.
        let h = header_of p.members in
        if h.attr_len == 0
        then ok none
        else if ltb (len bs) ((ptr + h.attr_len) % 2 ^ 16)
        then ok none
        else if is_last (attr_type h.type_code)
        then ok none
        else ok (some h))

-- The run list is read only where the attribute ends before the record does.
unfoldable pub with_run_list : Slice → ℕ → Header → NonResident → Result NonResident
with_run_list bs ptr h n =
    if ltb ((ptr + h.attr_len) % 2 ^ 16) (len bs) && ltb n.run_off h.attr_len
    then (subslice bs ((ptr + n.run_off) % 2 ^ 16) ((ptr + h.attr_len) % 2 ^ 16) >>= λ runs.
        process runs >>= λ (run_list, total).
        ok (record n { run_list = run_list; run_list_total_len_cl = total }))
    else ok n

module _ {Body : Type 0} (parse : AttrType → Slice → Result Body) where
  -- One round of the loop: `none` is a `break`, else the attribute found, if its type is known.
  unfoldable pub resident_attribute : Slice → ℕ → Header → Result (Option (List (Attribute Body)))
  resident_attribute bs ptr h = suffix bs (ptr + 16) >>= λ rest. subslice rest 0 8 >>= λ head.
      unmarshal head atr_record_resident >>= λ p.
      let content_size = get_num "ContentSize" p.members in
      let offset_content = get_num "OffsetContent" p.members in
      let start = (ptr + offset_content) % 2 ^ 16 in
      let end = (start + content_size) % 2 ^ 32 in
      if ltb h.attr_len (h.name_off + 2 * h.nlen)
      then ok none
      else (subslice bs ((ptr + h.name_off) % 2 ^ 16) ((ptr + h.name_off + 2 * h.nlen) % 2 ^ 16)
          >>= λ name.
              if ltb (len bs) end
              then ok none
              else if ltb ((h.attr_len + 2 ^ 32 - 16) % 2 ^ 32) content_size
              then ok none
              else if is_known_resident (attr_type h.type_code)
              then (subslice bs start end >>= λ content.
                  parse (attr_type h.type_code) content >>= λ body. ok (
                    some (
                      resident h
                        (record {
                          content_size = content_size;
                          offset_content = offset_content;
                          name = name.bytes;
                        })
                        body
                      ∷ [])))
              else ok (some []))

  unfoldable pub non_resident_attribute :
      Slice → ℕ → Header → Result (Option (List (Attribute Body)))
  unfolding with_run_list
  non_resident_attribute bs ptr h = subslice bs (ptr + 16) (ptr + 64) >>= λ head.
      unmarshal head atr_record_non_resident >>= λ p.
      let n = non_resident_of p.members in
      if ltb n.last_vcn n.start_vcn
      then ok none
      else if ltb h.attr_len n.run_off
      then ok none
      else if ltb n.run_off ((h.name_off + 2 * h.nlen % 2 ^ 8) % 2 ^ 16)
      then ok none
      else if ltb (len bs) ((ptr + n.run_off) % 2 ^ 16)
      then ok none
      else (with_run_list bs ptr h n >>= λ n'. ok (
          some
            (if is_known_non_resident (attr_type h.type_code) then non_resident h n' ∷ [] else [])))

  unfoldable pub attribute_at : Slice → ℕ → Header → Result (Option (List (Attribute Body)))
  unfolding resident_attribute non_resident_attribute
  attribute_at bs ptr h =
      if is_non_resident h then non_resident_attribute bs ptr h else resident_attribute bs ptr h

  -- The loop `for ReadPtr < 1024`, the pointer a uint16.
  unfoldable pub walk : ℕ → Slice → ℕ → List (Attribute Body) → Result (List (Attribute Body))
  walk zero bs ptr found = stuck
  walk (suc fuel) bs ptr found = elim (ltb ptr 1024) [
    | false ↦ ok found
    | true ↦ header_at bs ptr >>= elim [
      | none ↦ ok found
      | some h ↦ attribute_at bs ptr h >>= elim [
        | none ↦ ok found
        | some more ↦ walk fuel bs ((ptr + h.attr_len) % 2 ^ 16) (found ++ more)
      ]
    ]
  ]

-- The record that `Process` fills.
pub record MftRecord (Body : Type 0) : Type 0 where
  pub fields : Struct
  pub fixup_mismatch : Bool
  pub attributes : List (Attribute Body)
  pub buffer : Slice

-- The signature: zero, "baad", or "FILE".
unfoldable pub check_signature : Slice → Result (Unit {0})
unfolding subslice
check_signature bs = subslice bs 0 4 >>= λ sig.
    let v = le sig.bytes in
    if v == 0
    then err record_is_zero
    else if v == 0x64616162
    then err corrupt_record
    else if not (v == 0x454c4946)
    then err not_valid_record
    else ok tt

module _ {Body : Type 0} (parse : AttrType → Slice → Result Body) where
  -- `Process`, its loop with fuel.
  unfoldable pub process_record : ℕ → Slice → Result (MftRecord Body)
  process_record fuel bs = check_signature bs >>= λ _.
      (unmarshal bs mft_record >>= λ p.
      process_fix_up_arrays (get_num "UpdateFixUpArrOffset" p.members)
        (get_num "UpdateFixUpArrSize" p.members) bs
      >>= λ fix_up. restore fix_up bs >>= λ (bs', mismatch).
          walk parse fuel bs' (get_num "AttrOff" p.members) [] >>= λ attributes. ok (record {
            fields = p.members;
            fixup_mismatch = mismatch;
            attributes = attributes;
            buffer = bs';
          }))
