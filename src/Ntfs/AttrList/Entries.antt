-- ===== src/Ntfs/AttrList/Entries.antt =====
-- What `AttributeListEntries.Parse` (FS/NTFS/MFT/attributes/attrlist.go) makes of a list laid out
-- entry behind entry, and when its loop ends.
-- The fields that a header of 24 bytes holds, and those that it does not.
use file_system_forensics.Base.{
  All, Bool-cases, Bytes, List, [], ap, arith, drop, drop-append, drop-append_le, drop-drop, false,
  inl, inr, length, length-append, length-drop, length-take, ltb, ltb-false, map, none, refl, some,
  suc, sym, take, take-append_le, true, zero, ℕ, ◌%◌, ◌*◌, ◌++◌, ◌+◌, ◌-◌, ◌<◌, ◌^◌, ◌∙◌, ◌∷◌, ◌≡◌,
  ◌≢◌, ◌≤◌,
}
use file_system_forensics.Go.{
  Result-cases, Slice, bind-ne-stuck, exhausted_buffer, full, ite_ne_stuck, len, ok, ok-ne-stuck,
  stuck, subslice, subslice-ne-stuck, subslice_width,
}
use file_system_forensics.Ntfs.AttrList.{
  ListEntry, ends_list, entry_len, has_more, list_entry_at, parse_list,
}
use file_system_forensics.Structures.Ntfs.{attribute_list}
use file_system_forensics.Utils.Endian.{remove_nulls}
use file_system_forensics.Utils.Layout.{layout}
use file_system_forensics.Utils.Layout.Ends.{unmarshal-ne-stuck}
use file_system_forensics.Utils.Layout.Prefix.{unmarshal-prefix}
use file_system_forensics.Utils.Unmarshal.{
  Struct, array, byte, classify, fixed, get_num, member, member_step, skipped, uint16, uint64,
  uint8, unmarshal, unmarshal_from,
}
use mathlib.Core.List.{append-nil, append_assoc, flatten}

abbrev list_head : Struct
list_head =
    member "Type" (array byte 4)
    ∷ member "Len" uint16
    ∷ member "Namelen" uint8
    ∷ member "Nameoffset" uint8
    ∷ member "StartVcn" uint64
    ∷ member "ParRef" uint64
    ∷ member "ParSeq" uint16
    ∷ []

abbrev list_tail : Struct
list_tail = member "ID" uint8 ∷ member "Name" skipped ∷ []

-- The fields of an entry: the identifier is out of reach.
abbrev pub header_fields : Bytes → Struct
header_fields image = layout (take 24 image) list_head ++ list_tail

head_read :
    (bs rest : Bytes)
    → length bs ≡ 24
    → unmarshal (record { bytes = bs; spare = rest }) attribute_list
      ≡ ok (record {
        members = layout bs list_head ++ list_tail;
        read = 24;
        error = some exhausted_buffer;
      })
unfolding attribute_list classify unmarshal_from member_step fixed
head_read bs rest h =
    unmarshal-prefix (record { bytes = bs; spare = rest }) list_head list_tail (ground (arith, h))
    ∙ ground (arith, h)

abbrev pub entry_of : Bytes → ListEntry
entry_of image =
    let fields = header_fields image in
    record {
      fields = fields;
      name =
          remove_nulls
            (take (2 * get_num "Namelen" fields) (drop (get_num "Nameoffset" fields) image));
    }

-- The bytes of one entry: longer than the header, its own length in bytes 4 and 5, its name within.
abbrev pub IsImage : Bytes → Type 0
IsImage image =
    (24 < length image)
    × (length image ≤ 4096)
    × (get_num "Len" (header_fields image) ≡ length image)
    × (get_num "Nameoffset" (header_fields image) + 2 * get_num "Namelen" (header_fields image)
        ≤ length image)

part_of_rest :
    (s : Slice) (off i n : ℕ) (image post : Bytes)
    → drop off s.bytes ≡ image ++ post
    → i + n ≤ length image
    → take n (drop (off + i) s.bytes) ≡ take n (drop i image)
part_of_rest s off i n image post e h =
    rw (sym (drop-drop off i (off + i) s.bytes refl), e, drop-append_le i image post (omega arith))
      (take-append_le n (drop i image) post (omega (arith, length-drop i image)))

entry_read :
    (s : Slice) (off : ℕ) (image post : Bytes)
    → len s < 65536
    → drop off s.bytes ≡ image ++ post
    → IsImage image
    → list_entry_at s off ≡ ok (some (entry_of image))
unfolding list_entry_at
entry_read s off image post small e (long, short, l, named) =
    let no = get_num "Nameoffset" (header_fields image) in
    let nl = 2 * get_num "Namelen" (header_fields image) in
    let there : off + length image ≤ len s =
      omega (arith, length-drop off s.bytes, ap length e, length-append image post) in
    let rest = drop (off + 24) s.bytes ++ s.spare in
    let w : (off + 24) % 2 ^ 16 ≡ off + 24 = omega arith in
    let a : (off + no) % 2 ^ 16 ≡ off + no = omega arith in
    let b : (off + no + nl) % 2 ^ 16 ≡ off + no + nl = omega arith in
    let z : off + 0 ≡ off = omega arith in
    let head : take 24 (drop off s.bytes) ≡ take 24 image =
      ap (λ (i : ℕ). take 24 (drop i s.bytes)) (sym z)
      ∙ part_of_rest s off 0 24 image post e (omega arith) in
    let within : ltb (len s % 2 ^ 16) (off + no + nl) ≡ false = ltb-false _ _ (omega arith) in
    let first : subslice s off ((off + 24) % 2 ^ 16)
        ≡ ok (record { bytes = take 24 image; spare = rest }) =
      rw (w, subslice_width s off 24 (omega arith), head) refl in
    let fields = head_read (take 24 image) rest (omega (arith, length-take 24 image)) in
    let second = subslice_width s (off + no) nl (omega arith) in
    let named = part_of_rest s off no nl image post e (omega arith) in
    rw (first, fields, a, b, within, second, named) refl

entry_goes_on :
    (s : Slice) (off : ℕ) (image post : Bytes)
    → len s < 65536
    → drop off s.bytes ≡ image ++ post
    → IsImage image
    → (has_more s off ≡ true)
      × ((off + entry_len (entry_of image)) % 2 ^ 16 ≡ off + length image)
      × (ends_list (off + length image) (entry_len (entry_of image)) ≡ false)
unfolding has_more ends_list
entry_goes_on s off image post small e (long, short, l, named) =
    let there : off + length image ≤ len s =
      omega (arith, length-drop off s.bytes, ap length e, length-append image post) in
    let len_of : entry_len (entry_of image) ≡ length image = l in
    (ground arith, ground (arith, len_of), rw len_of (ground arith))

ends_there : (s : Slice) (off : ℕ) → len s < 65536 → off ≡ len s → has_more s off ≡ false
unfolding has_more
ends_there s off small e = ground arith

parse_list-images_from :
    (fuel : ℕ) (images : List Bytes) (s : Slice) (off : ℕ) (found : List ListEntry)
    → length images < fuel
    → len s < 65536
    → off ≤ len s
    → drop off s.bytes ≡ flatten images
    → All IsImage images
    → parse_list fuel s off found ≡ ok (found ++ map entry_of images)
unfolding parse_list flatten
parse_list-images_from zero images s off found h small below e all = absurd (omega arith)
parse_list-images_from (suc fuel) [] s off found h small below e all =
    let there : off ≡ len s = omega (arith, length-drop off s.bytes, ap length e) in
    let stops : has_more s off ≡ false = ends_there s off small there in
    ground (arith, stops, append-nil found)
parse_list-images_from (suc fuel) (image ∷ images) s off found h small below e (i, all) =
    let post = flatten images in
    let (more, step, goes) = entry_goes_on s off image post small e i in
    let next : drop (off + length image) s.bytes ≡ post =
      sym (drop-drop off (length image) (off + length image) s.bytes refl)
      ∙ rw (e, drop-append image post (length image) refl) refl in
    let there : off + length image ≤ len s =
      omega (arith, length-drop off s.bytes, ap length e, length-append image post) in
    ground (
      arith,
      more,
      entry_read s off image post small e i,
      step,
      goes,
      parse_list-images_from fuel images s (off + length image) (found ++ (entry_of image ∷ []))
          (omega arith) small there next all,
      append_assoc found (entry_of image ∷ []) (map entry_of images),
    )

-- A list of fewer than 2 ^ 16 bytes in which entry stands behind entry, each longer than its header
-- of 24 bytes, at most 4096 bytes and with its name inside it, is parsed into as many entries, in
-- order: of each, the fields of its own 24 bytes and its name from its own bytes, with the identifier
-- 0, whatever it is on the disk, since it stands behind the bytes that are read.
pub parse_list-images :
    (images : List Bytes) (fuel : ℕ)
    → length images < fuel
    → length (flatten images) < 65536
    → All IsImage images
    → parse_list fuel (full (flatten images)) 0 [] ≡ ok (map entry_of images)
parse_list-images images fuel h small all =
    parse_list-images_from fuel images (full (flatten images)) 0 [] h small (omega arith) refl all

list_entry_at-ne-stuck : (s : Slice) (off : ℕ) → list_entry_at s off ≢ stuck
unfolding list_entry_at
list_entry_at-ne-stuck s off = bind-ne-stuck _ _ (subslice-ne-stuck s _ _) (λ head _.
    bind-ne-stuck _ _ (unmarshal-ne-stuck head attribute_list) (λ p _.
      ite_ne_stuck _ _ _ (ok-ne-stuck _)
        (bind-ne-stuck _ _ (subslice-ne-stuck s _ _) (λ raw _. ok-ne-stuck _))))

goes_on_forward :
    (s : Slice) (off l : ℕ)
    → len s < 61464
    → has_more s off ≡ true
    → ends_list ((off + l) % 2 ^ 16) l ≡ false
    → (off < len s) × ((off + l) % 2 ^ 16 ≡ off + l) × (24 ≤ l)
unfolding has_more ends_list
goes_on_forward s off l small more goes = ground arith

-- Whatever its bytes, a list of fewer than 61464 bytes is parsed to an end: each round moves on by
-- at least 24 bytes. A longer one can move the 16-bit offset back to the start.
pub parse_list-ends :
    (fuel : ℕ) (s : Slice) (off : ℕ) (found : List ListEntry)
    → len s < 61464
    → len s - off < fuel
    → parse_list fuel s off found ≢ stuck
unfolding parse_list
parse_list-ends zero s off found small h e = absurd (omega arith)
parse_list-ends (suc fuel) s off found small h e = elim (Bool-cases (has_more s off)) [
  | inr stops ↦ ground (arith, stops)
  | inl more ↦ elim (Result-cases (list_entry_at s off)) [
    | inr stops ↦ ground (arith, more, stops, list_entry_at-ne-stuck s off)
    | inl (none, r) ↦ ground (arith, more, r)
    | inl (some entry, r) ↦
        elim (Bool-cases (ends_list ((off + entry_len entry) % 2 ^ 16) (entry_len entry))) [
          | inl ends ↦ ground (arith, more, r, ends)
          | inr goes ↦
              let (below, step, forward) =
                goes_on_forward s off (entry_len entry) small more goes in
              ground (
                arith,
                more,
                r,
                goes,
                step,
                parse_list-ends fuel s (off + entry_len entry) (found ++ (entry ∷ [])) small
                    (omega arith),
              )
        ]
  ]
]
