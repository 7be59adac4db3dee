-- ===== src/Btrfs/Chunks/System.antt =====
-- The loop of `ParseSystemChunks` (disk/volume/btrfs.go): what it makes of an array of pairs, and
-- what it does with a rest too short for a key.
-- A pair as it lies in the array: 17 bytes of key, 48 of chunk, 32 for each stripe.
use file_system_forensics.Base.{
  All, Bytes, List, [], ap, arith, drop, drop-all, drop-append, drop-append_le, drop-drop, false,
  length, length-append, length-drop, ltb, ltb-false, lt→ltb, map, none, refl, some, suc, sym,
  take-all, true, zero, ℕ, ◌*◌, ◌++◌, ◌+◌, ◌-◌, ◌<◌, ◌∙◌, ◌∷◌, ◌≡◌, ◌≤◌,
}
use file_system_forensics.Btrfs.Chunks.{
  ChunkItem, parse_chunk, parse_key, parse_stripes, parse_system_chunks,
}
use file_system_forensics.Go.{Slice, exceeded_buffer, len, ok, stuck, subslice_within, suffix}
use file_system_forensics.Ntfs.Index.Sectors.{image}
use file_system_forensics.Structures.Btrfs.{chunk_item, chunk_item_stripe, item_key}
use file_system_forensics.Utils.Layout.{layout}
use file_system_forensics.Utils.Layout.Local.{layout-append}
use file_system_forensics.Utils.Layout.Reading.{unmarshal-layout}
use file_system_forensics.Utils.Layout.Room.{Fits-exact}
use file_system_forensics.Utils.Unmarshal.{
  Struct, classify, fixed, get_num, member_step, uint64_step, unmarshal, unmarshal_from,
}
use mathlib.Core.List.{append-nil, append_assoc, flatten}

abbrev pub IsPair : Bytes → Type 0
IsPair image = length image ≡ 65 + 32 * get_num "NofStripes" (layout (drop 17 image) chunk_item)

unfoldable pub stripes_of : ℕ → Bytes → List Struct
stripes_of zero bs = []
stripes_of (suc n) bs = layout bs chunk_item_stripe ∷ stripes_of n (drop 32 bs)

abbrev pub pair_of : Bytes → Struct × ChunkItem
pair_of image =
    let fields = layout (drop 17 image) chunk_item in
    (
      layout image item_key,
      record {
        fields = fields;
        stripes = stripes_of (get_num "NofStripes" fields) (drop 65 image);
      },
    )

stripe_read :
    (s : Slice)
    → 32 ≤ len s
    → unmarshal s chunk_item_stripe
      ≡ ok (record { members = layout s.bytes chunk_item_stripe; read = 32; error = none })
unfolding chunk_item_stripe classify
stripe_read s h =
    unmarshal-layout s chunk_item_stripe
      (Fits-exact (len s) chunk_item_stripe (omega arith) (omega arith))

chunk_read :
    (s : Slice)
    → 48 ≤ len s
    → unmarshal s chunk_item
      ≡ ok (record { members = layout s.bytes chunk_item; read = 48; error = none })
unfolding chunk_item classify
chunk_read s h =
    unmarshal-layout s chunk_item (Fits-exact (len s) chunk_item (omega arith) (omega arith))

key_read :
    (s : Slice)
    → 17 ≤ len s
    → unmarshal s item_key
      ≡ ok (record { members = layout s.bytes item_key; read = 17; error = none })
unfolding item_key classify
key_read s h = unmarshal-layout s item_key (Fits-exact (len s) item_key (omega arith) (omega arith))

-- `s[off:]` within the length.
suffix_at :
    (s : Slice) (off : ℕ)
    → off ≤ len s
    → suffix s off ≡ ok (record { bytes = drop off s.bytes; spare = s.spare })
suffix_at s off h =
    rw
      (
        subslice_within s off (len s) h (omega arith),
        take-all (len s - off) (drop off s.bytes) (omega (arith, length-drop off s.bytes)),
        drop-all (len s) s.bytes (omega arith),
      )
      refl

stripes_read :
    (n : ℕ) (s : Slice) (off : ℕ) (found : List Struct)
    → off + 32 * n ≤ len s
    → parse_stripes n s off found ≡ ok (found ++ stripes_of n (drop off s.bytes), off + 32 * n)
unfolding parse_stripes stripes_of
stripes_read zero s off found h =
    let e : off + 32 * 0 ≡ off = omega arith in rw (append-nil found, e) refl
stripes_read (suc n) s off found h =
    let rest : Slice = record { bytes = drop off s.bytes; spare = s.spare } in
    let e : off + 32 + 32 * n ≡ off + 32 * suc n = omega arith in
    let one = layout (drop off s.bytes) chunk_item_stripe in
    ground (
      arith,
      suffix_at s off (omega arith),
      stripe_read rest (omega (arith, length-drop off s.bytes)),
      stripes_read n s (off + 32) (found ++ (one ∷ [])) (omega arith),
      append_assoc found (one ∷ []) (stripes_of n (drop (off + 32) s.bytes)),
      drop-drop off 32 (off + 32) s.bytes refl,
      e,
    )

stripes_of-append :
    (n : ℕ) (xs ys : Bytes) → 32 * n ≤ length xs → stripes_of n (xs ++ ys) ≡ stripes_of n xs
unfolding stripes_of chunk_item_stripe classify
stripes_of-append zero xs ys h = refl
stripes_of-append (suc n) xs ys h =
    let rest = stripes_of-append n (drop 32 xs) ys (omega (arith, length-drop 32 xs)) in
    rw
      (
        layout-append xs ys chunk_item_stripe (omega arith),
        drop-append_le 32 xs ys (omega arith),
        rest,
      )
      refl

-- A chunk at the start of a slice, with its stripes.
chunk_at_start :
    (s : Slice) (n : ℕ)
    → n ≡ get_num "NofStripes" (layout s.bytes chunk_item)
    → 48 + 32 * n ≤ len s
    → parse_chunk s
      ≡ ok (
        record { fields = layout s.bytes chunk_item; stripes = stripes_of n (drop 48 s.bytes) },
        48 + 32 * n,
      )
unfolding parse_chunk
chunk_at_start s n e h =
    ground (arith, e, chunk_read s (omega arith), stripes_read n s 48 [] (omega arith))

pair_of-append :
    (image post : Bytes)
    → IsPair image
    → (layout (image ++ post) item_key ≡ layout image item_key)
      × (layout (drop 17 (image ++ post)) chunk_item ≡ layout (drop 17 image) chunk_item)
      × (stripes_of
            (get_num "NofStripes" (layout (drop 17 image) chunk_item))
            (drop 65 (image ++ post))
          ≡ (pair_of image).1.stripes)
unfolding item_key chunk_item classify
pair_of-append image post h = (
  layout-append image post item_key (omega arith),
  rw (drop-append_le 17 image post (omega arith))
      (layout-append (drop 17 image) post chunk_item (omega (arith, length-drop 17 image))),
  rw (drop-append_le 65 image post (omega arith))
      (stripes_of-append _ (drop 65 image) post (omega (arith, length-drop 65 image))),
)

parse_system_chunks-from :
    (fuel : ℕ) (images : List Bytes) (s : Slice) (off : ℕ) (found : List (Struct × ChunkItem))
    → length images < fuel
    → off ≤ len s
    → drop off s.bytes ≡ flatten images
    → All IsPair images
    → parse_system_chunks fuel s off found ≡ ok (found ++ map pair_of images)
unfolding parse_system_chunks flatten parse_key
parse_system_chunks-from zero images s off found h le' e all = absurd (omega arith)
parse_system_chunks-from (suc fuel) [] s off found h le' e all =
    let there : ltb off (len s) ≡ false =
      ltb-false _ _ (omega (arith, length-drop off s.bytes, ap length e)) in
    ground (arith, there, append-nil found)
parse_system_chunks-from (suc fuel) (image ∷ images) s off found h le' e (i, all) =
    let post = flatten images in
    let n = get_num "NofStripes" (layout (drop 17 image) chunk_item) in
    let inside : off + length image ≤ len s =
      omega (arith, length-drop off s.bytes, ap length e, length-append image post) in
    let below : ltb off (len s) ≡ true = lt→ltb _ _ (omega arith) in
    let r1 : Slice = record { bytes = drop off s.bytes; spare = s.spare } in
    let r2 : Slice = record { bytes = drop (off + 17) s.bytes; spare = s.spare } in
    let (k, c, st) = pair_of-append image post i in
    let d17 : drop (off + 17) s.bytes ≡ drop 17 (image ++ post) =
      sym (drop-drop off 17 (off + 17) s.bytes refl) ∙ ap (drop 17) e in
    let d65 : drop 48 (drop (off + 17) s.bytes) ≡ drop 65 (image ++ post) =
      ap (drop 48) d17 ∙ drop-drop 17 48 65 (image ++ post) refl in
    let key : unmarshal r1 item_key
        ≡ ok (record { members = layout image item_key; read = 17; error = none }) =
      key_read r1 (omega (arith, length-drop off s.bytes)) ∙ rw (e, k) refl in
    let fields : layout (drop (off + 17) s.bytes) chunk_item ≡ layout (drop 17 image) chunk_item =
      rw (d17, c) refl in
    let chunk : parse_chunk r2 ≡ ok ((pair_of image).1, 48 + 32 * n) =
      chunk_at_start r2 n (sym (ap (get_num "NofStripes") fields))
        (omega (arith, length-drop (off + 17) s.bytes))
      ∙ rw (fields, d65, st) refl in
    let step : off + 17 + (48 + 32 * n) ≡ off + length image = omega arith in
    let next : drop (off + length image) s.bytes ≡ post =
      sym (drop-drop off (length image) (off + length image) s.bytes refl)
      ∙ rw (e, drop-append image post (length image) refl) refl in
    ground (
      arith,
      below,
      suffix_at s off (omega arith),
      key,
      suffix_at s (off + 17) (omega arith),
      chunk,
      step,
      parse_system_chunks-from fuel images s (off + length image) (found ++ (pair_of image ∷ []))
          (omega arith) inside next all,
      append_assoc found (pair_of image ∷ []) (map pair_of images),
    )

-- An array made of pairs one behind another, each with as many stripes as it says, is parsed into
-- exactly those pairs of key and chunk, in order.
pub parse_system_chunks-pairs :
    (images : List Bytes) (rest : Bytes) (fuel : ℕ)
    → length images < fuel
    → All IsPair images
    → parse_system_chunks fuel (record { bytes = flatten images; spare = rest }) 0 []
      ≡ ok (map pair_of images)
parse_system_chunks-pairs images rest fuel h all =
    parse_system_chunks-from fuel images (record { bytes = flatten images; spare = rest }) 0 [] h
      (omega arith) refl all

key_too_short :
    (s : Slice)
    → len s < 8
    → unmarshal s item_key
      ≡ ok (record { members = item_key; read = 0; error = some exceeded_buffer })
unfolding unmarshal unmarshal_from item_key classify member_step uint64_step fixed
key_too_short s h = ground (arith, h)

chunk_too_short :
    (s : Slice)
    → len s < 8
    → unmarshal s chunk_item
      ≡ ok (record { members = chunk_item; read = 0; error = some exceeded_buffer })
unfolding unmarshal unmarshal_from chunk_item classify member_step uint64_step fixed
chunk_too_short s h = ground (arith, h)

empty_chunk :
    (s : Slice) → len s < 8 → parse_chunk s ≡ ok (record { fields = chunk_item; stripes = [] }, 0)
unfolding parse_chunk parse_stripes chunk_item get_num
empty_chunk s h = rw (chunk_too_short s h) refl

-- With one to seven bytes left, too few for a field, no round moves on: the loop never ends and
-- appends an empty chunk each time.
pub parse_system_chunks-hangs :
    (fuel : ℕ) (s : Slice) (off : ℕ) (found : List (Struct × ChunkItem))
    → off < len s
    → len s < off + 8
    → parse_system_chunks fuel s off found ≡ stuck
unfolding parse_system_chunks parse_key
parse_system_chunks-hangs zero s off found lo hi = refl
parse_system_chunks-hangs (suc fuel) s off found lo hi =
    let rest : Slice = record { bytes = drop off s.bytes; spare = s.spare } in
    let short : len rest < 8 = omega (arith, length-drop off s.bytes) in
    let below : ltb off (len s) ≡ true = lt→ltb _ _ lo in
    let e0 : off + 0 ≡ off = omega arith in
    let blank : Struct × ChunkItem = (item_key, record { fields = chunk_item; stripes = [] }) in
    ground (
      arith,
      below,
      suffix_at s off (omega arith),
      key_too_short rest short,
      e0,
      empty_chunk rest short,
      parse_system_chunks-hangs fuel s off (found ++ (blank ∷ [])) lo hi,
    )
