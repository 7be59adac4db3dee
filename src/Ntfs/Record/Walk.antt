-- ===== src/Ntfs/Record/Walk.antt =====
-- The walk of `Record.Process` over the attributes (FS/NTFS/MFT/MFT.go): when its loop ends.
use file_system_forensics.Base.{
  List, arith, inl, inr, none, refl, some, suc, zero, ℕ, ◌%◌, ◌*◌, ◌++◌, ◌+◌, ◌-◌, ◌<◌, ◌==◌, ◌^◌,
  ◌≡◌, ◌≢◌,
}
use file_system_forensics.Go.{
  Result, Result-cases, Slice, bind-ne-stuck, ite_ne_stuck, len, ok, ok-ne-stuck, stuck, subslice,
  subslice-ne-stuck,
}
use file_system_forensics.Ntfs.Attribute.{
  AttrType, Attribute, Header, NonResident, attr_type, non_resident_of,
}
use file_system_forensics.Ntfs.Record.{
  attribute_at, header_at, non_resident_attribute, resident_attribute, walk, with_run_list,
}
use file_system_forensics.Ntfs.Runs.Total.{process-ne-stuck}
use file_system_forensics.Structures.Ntfs.{
  atr_record_non_resident, atr_record_resident, attribute_header,
}
use file_system_forensics.Utils.Endian.{le}
use file_system_forensics.Utils.Layout.Ends.{unmarshal-ne-stuck}
use file_system_forensics.Utils.Unmarshal.{get_num}

header_at-ne-stuck : (bs : Slice) (ptr : ℕ) → header_at bs ptr ≢ stuck
unfolding header_at
header_at-ne-stuck bs ptr = bind-ne-stuck _ _ (subslice-ne-stuck bs ptr (ptr + 4)) (λ mark _.
    ite_ne_stuck (le mark.bytes == 0xffffffff) _ _ (λ e. cc)
      (bind-ne-stuck _ _ (subslice-ne-stuck bs ptr (ptr + 16)) (λ head _.
        bind-ne-stuck _ _ (unmarshal-ne-stuck head attribute_header) (λ p _ e. ground arith))))

header_at-length :
    (bs : Slice) (ptr : ℕ) (h : Header) → header_at bs ptr ≡ ok (some h) → 0 < h.attr_len
unfolding header_at
header_at-length bs ptr h e = ground arith

module _ {Body : Type 0} (parse : AttrType → Slice → Result Body)
    (parse-ends : (t : AttrType) (content : Slice) → parse t content ≢ stuck) where
  resident-ne-stuck :
      (bs : Slice) (ptr : ℕ) (h : Header) → resident_attribute parse bs ptr h ≢ stuck
  unfolding resident_attribute
  resident-ne-stuck bs ptr h =
      bind-ne-stuck _ _ (subslice-ne-stuck bs (ptr + 16) (len bs)) (λ rest _.
        bind-ne-stuck _ _ (subslice-ne-stuck rest 0 8) (λ head _.
          bind-ne-stuck _ _ (unmarshal-ne-stuck head atr_record_resident) (λ p _.
            let size = get_num "ContentSize" p.members in
            let start = (ptr + get_num "OffsetContent" p.members) % 2 ^ 16 in
            let end = (start + size) % 2 ^ 32 in
            let from = (ptr + h.name_off) % 2 ^ 16 in
            let to = (ptr + h.name_off + 2 * h.nlen) % 2 ^ 16 in
            λ e. elim (Result-cases (subslice bs from to)) [
              | inl (name, r) ↦ elim (Result-cases (subslice bs start end)) [
                | inl (content, q) ↦ elim (Result-cases (parse (attr_type h.type_code) content)) [
                  | inl (body, b) ↦ ground (arith, r, q, b)
                  | inr stops ↦
                      ground (arith, r, q, stops, parse-ends (attr_type h.type_code) content)
                ]
                | inr stops ↦ ground (arith, r, stops, subslice-ne-stuck bs start end)
              ]
              | inr stops ↦ ground (arith, stops, subslice-ne-stuck bs from to)
            ])))

  with_run_list-ne-stuck :
      (bs : Slice) (ptr : ℕ) (h : Header) (n : NonResident) → with_run_list bs ptr h n ≢ stuck
  unfolding with_run_list
  with_run_list-ne-stuck bs ptr h n =
      ite_ne_stuck _ _ _
        (bind-ne-stuck _ _ (subslice-ne-stuck bs _ _)
          (λ runs _. bind-ne-stuck _ _ (process-ne-stuck runs) (λ r _. ok-ne-stuck _)))
        (ok-ne-stuck _)

  non_resident-ne-stuck :
      (bs : Slice) (ptr : ℕ) (h : Header) → non_resident_attribute parse bs ptr h ≢ stuck
  unfolding non_resident_attribute
  non_resident-ne-stuck bs ptr h =
      bind-ne-stuck _ _ (subslice-ne-stuck bs (ptr + 16) (ptr + 64)) (λ head _.
        bind-ne-stuck _ _ (unmarshal-ne-stuck head atr_record_non_resident) (λ p _ e.
          elim (Result-cases (with_run_list bs ptr h (non_resident_of p.members))) [
            | inl (n, r) ↦ ground (arith, r)
            | inr stops ↦
                ground (arith, stops, with_run_list-ne-stuck bs ptr h (non_resident_of p.members))
          ]))

  attribute_at-ne-stuck : (bs : Slice) (ptr : ℕ) (h : Header) → attribute_at parse bs ptr h ≢ stuck
  unfolding attribute_at
  attribute_at-ne-stuck bs ptr h =
      ite_ne_stuck _ _ _ (non_resident-ne-stuck bs ptr h) (resident-ne-stuck bs ptr h)

  -- A record in which no attribute's length leads past 16 bits is walked to the end: the loop takes at
  -- most one round for each byte before offset 1024, if the parsers of the contents end.
  pub walk-ends :
      (fuel : ℕ) (bs : Slice) (ptr : ℕ) (found : List (Attribute Body))
      → ((p : ℕ) (h : Header) → p < 1024 → header_at bs p ≡ ok (some h) → p + h.attr_len < 65536)
      → 1024 - ptr < fuel
      → walk parse fuel bs ptr found ≢ stuck
  unfolding walk
  walk-ends zero bs ptr found fits enough e = absurd (omega arith)
  walk-ends (suc fuel) bs ptr found fits enough e = elim (Result-cases (header_at bs ptr)) [
    | inl (none, r) ↦ ground (arith, r)
    | inl (some h, r) ↦ elim (Result-cases (attribute_at parse bs ptr h)) [
      | inl (none, q) ↦ ground (arith, r, q)
      | inl (some more, q) ↦ ground (
        arith,
        r,
        q,
        header_at-length bs ptr h r,
        fits ptr h,
        walk-ends fuel bs ((ptr + h.attr_len) % 2 ^ 16) (found ++ more) fits,
      )
      | inr stops ↦ ground (arith, r, stops, attribute_at-ne-stuck bs ptr h)
    ]
    | inr stops ↦ ground (arith, stops, header_at-ne-stuck bs ptr)
  ]

module _ {Body : Type 0} (parse : AttrType → Slice → Result Body) where
  -- Two places whose attributes lead to each other, which 16-bit pointers allow, keep the walk going
  -- for ever: no number of rounds ends it.
  pub walk_cycle :
      (fuel : ℕ) (bs : Slice) (p q : ℕ) (h k : Header) (found more more' : List (Attribute Body))
      → p < 1024
      → q < 1024
      → header_at bs p ≡ ok (some h)
      → header_at bs q ≡ ok (some k)
      → attribute_at parse bs p h ≡ ok (some more)
      → attribute_at parse bs q k ≡ ok (some more')
      → (p + h.attr_len) % 2 ^ 16 ≡ q
      → (q + k.attr_len) % 2 ^ 16 ≡ p
      → walk parse fuel bs p found ≡ stuck
  unfolding walk
  walk_cycle zero bs p q h k found more more' lp lq hp hq ap' aq sp sq = refl
  walk_cycle (suc fuel) bs p q h k found more more' lp lq hp hq ap' aq sp sq = ground (
    arith,
    hp,
    ap',
    walk_cycle fuel bs q p k h (found ++ more) more' more lq lp hq hp aq ap' sq sp,
  )
