-- ===== src/Ntfs/Index/Sectors.antt =====
-- The multi-sector protection of an index record (FS/NTFS/MFT/attributes/indexallocation.go): a
-- writer moves the last two bytes of each sector to the fixup array, the parser moves them back.
-- A sector: its first 510 bytes and its last two.
use file_system_forensics.Base.{
  All, Bytes, List, [], ap, arith, drop, false, length, length-append, ltb, ltb-false, lt→ltb, map,
  refl, set, suc, sym, take, true, zero, ℕ, ◌%◌, ◌*◌, ◌++◌, ◌+◌, ◌/◌, ◌<◌, ◌==◌, ◌^◌, ◌∙◌, ◌∷◌, ◌≡◌,
  ◌≤◌,
}
use file_system_forensics.Go.{
  Slice, at, at_middle, full, len, ok, put, subslice, subslice_width, ◌>>=◌,
}
use file_system_forensics.Ntfs.Index.{
  IndexFixUp, original_byte, pairs, process_index_fixups, restore_sector, restore_sectors,
}
use mathlib.Core.List.{append_assoc, flatten}

pub record Sector : Type 0 where
  pub body : Bytes
  pub first : ℕ
  pub second : ℕ

abbrev pub IsSector : Sector → Type 0
IsSector c = length c.body ≡ 510

abbrev pub original_of : Sector → Bytes
original_of c = c.first ∷ c.second ∷ []

-- The record as it is meant, and as the writer leaves it on the disk with its mark `a`, `b`.
unfoldable pub image : List Sector → Bytes
image [] = []
image (c ∷ cs) = c.body ++ (c.first ∷ c.second ∷ image cs)

unfoldable pub protect : ℕ → ℕ → List Sector → Bytes
protect a b [] = []
protect a b (c ∷ cs) = c.body ++ (a ∷ b ∷ protect a b cs)

-- The fixup array: the mark, then the bytes moved away.
unfoldable pub fixup_array : ℕ → ℕ → List Sector → Bytes
fixup_array a b cs = a ∷ b ∷ flatten (map original_of cs)

set-middle :
    (pre post : Bytes) (x v i : ℕ)
    → i ≡ length pre
    → set (pre ++ (x ∷ post)) i v ≡ pre ++ (v ∷ post)
set-middle [] post x v zero e = refl
set-middle [] post x v (suc i) e = absurd (omega arith)
set-middle (y ∷ pre) post x v zero e = absurd (omega arith)
set-middle (y ∷ pre) post x v (suc i) e = ap (◌∷◌ y) (set-middle pre post x v i (omega arith))

put-middle :
    (pre post rest : Bytes) (x v i : ℕ)
    → i ≡ length pre
    → put (record { bytes = pre ++ (x ∷ post); spare = rest }) i v
      ≡ ok (record { bytes = pre ++ (v ∷ post); spare = rest })
unfolding put
put-middle pre post rest x v i e =
    let below : ltb i (length (pre ++ (x ∷ post))) ≡ true =
      lt→ltb i _ (omega (arith, length-append pre (x ∷ post))) in
    rw (below, set-middle pre post x v i e) refl

original_byte-middle :
    (vs ws : List Bytes) (v : Bytes) (i j : ℕ)
    → i ≡ length vs
    → original_byte (vs ++ (v ∷ ws)) i j ≡ at (full v) j
unfolding original_byte
original_byte-middle [] ws v zero j e = refl
original_byte-middle [] ws v (suc i) j e = absurd (omega arith)
original_byte-middle (u ∷ vs) ws v zero j e = absurd (omega arith)
original_byte-middle (u ∷ vs) ws v (suc i) j e = original_byte-middle vs ws v i j (omega arith)

-- The second byte of a pair is behind a longer part.
regroup : (pre post : Bytes) (z b : ℕ) → pre ++ (z ∷ b ∷ post) ≡ (pre ++ (z ∷ [])) ++ (b ∷ post)
regroup pre post z b = sym (append_assoc pre (z ∷ []) (b ∷ post))

put-second :
    (pre post rest : Bytes) (z x v i : ℕ)
    → i ≡ length pre
    → put (record { bytes = pre ++ (z ∷ x ∷ post); spare = rest }) (i + 1) v
      ≡ ok (record { bytes = pre ++ (z ∷ v ∷ post); spare = rest })
put-second pre post rest z x v i e =
    let l : i + 1 ≡ length (pre ++ (z ∷ [])) = omega (arith, length-append pre (z ∷ [])) in
    rw (regroup pre post z x, regroup pre post z v)
      (put-middle (pre ++ (z ∷ [])) post rest x v (i + 1) l)

restore_one :
    (f : IndexFixUp) (vs ws : List Bytes) (pre post rest : Bytes) (a b x y i e : ℕ)
    → f.signature ≡ a ∷ b ∷ []
    → f.original_values ≡ vs ++ ((x ∷ y ∷ []) ∷ ws)
    → i ≡ length vs
    → e ≡ length pre
    → restore_sector f i e (record { bytes = pre ++ (a ∷ b ∷ post); spare = rest })
      ≡ ok (record { bytes = pre ++ (x ∷ y ∷ post); spare = rest })
unfolding restore_sector
restore_one f vs ws pre post rest a b x y i e sig orig li lp =
    let s : Slice = record { bytes = pre ++ (a ∷ b ∷ post); spare = rest } in
    let l : e + 1 ≡ length (pre ++ (a ∷ [])) = omega (arith, length-append pre (a ∷ [])) in
    let b0 : at s e ≡ ok a = at_middle s pre (b ∷ post) a e refl lp in
    let b1 : at s (e + 1) ≡ ok b =
      at_middle s (pre ++ (a ∷ [])) post b (e + 1) (regroup pre post a b) l in
    let s0 : at (full f.signature) 0 ≡ ok a =
      at_middle (full f.signature) [] (b ∷ []) a 0 sig refl in
    let s1 : at (full f.signature) 1 ≡ ok b =
      at_middle (full f.signature) (a ∷ []) [] b 1 sig refl in
    let v0 : original_byte f.original_values i 0 ≡ ok x = rw orig (
      original_byte-middle vs ws (x ∷ y ∷ []) i 0 li
      ∙ at_middle (full (x ∷ y ∷ [])) [] (y ∷ []) x 0 refl refl) in
    let v1 : original_byte f.original_values i 1 ≡ ok y = rw orig (
      original_byte-middle vs ws (x ∷ y ∷ []) i 1 li
      ∙ at_middle (full (x ∷ y ∷ [])) (x ∷ []) [] y 1 refl refl) in
    ground (
      arith,
      b0,
      b1,
      s0,
      s1,
      v0,
      v1,
      put-middle pre (b ∷ post) rest a x e lp,
      put-second pre post rest x b y e lp,
    )

restore_sectors-from :
    (cs : List Sector) (vs : List Bytes) (f : IndexFixUp) (pre rest : Bytes) (a b i : ℕ)
    → f.signature ≡ a ∷ b ∷ []
    → f.original_values ≡ vs ++ map original_of cs
    → i ≡ length vs
    → length pre ≡ i * 512
    → All IsSector cs
    → restore_sectors f (length cs) i (record { bytes = pre ++ protect a b cs; spare = rest })
      ≡ ok (record { bytes = pre ++ image cs; spare = rest })
unfolding restore_sectors protect image
restore_sectors-from [] vs f pre rest a b i sig orig li lp all = refl
restore_sectors-from (c ∷ cs) vs f pre rest a b i sig orig li lp (w, all) =
    let xy = original_of c in
    let joined : Bytes = pre ++ c.body in
    let at_end : i * 512 + 510 ≡ length joined = omega (arith, length-append pre c.body) in
    let one =
      restore_one f vs (map original_of cs) joined (protect a b cs) rest a b c.first c.second i
        (i * 512 + 510) sig orig li at_end in
    let lp' : length (joined ++ xy) ≡ suc i * 512 =
      omega (arith, length-append pre c.body, length-append joined xy) in
    let orig' : f.original_values ≡ (vs ++ (xy ∷ [])) ++ map original_of cs =
      orig ∙ sym (append_assoc vs (xy ∷ []) (map original_of cs)) in
    let li' : suc i ≡ length (vs ++ (xy ∷ [])) = omega (arith, length-append vs (xy ∷ [])) in
    let rest_of =
      restore_sectors-from cs (vs ++ (xy ∷ [])) f (joined ++ xy) rest a b (suc i) sig orig' li' lp'
        all in
    ground (
      arith,
      one,
      rest_of,
      append_assoc pre c.body (a ∷ b ∷ protect a b cs),
      append_assoc pre c.body (c.first ∷ c.second ∷ image cs),
      append_assoc joined xy (protect a b cs),
      append_assoc joined xy (image cs),
    )

length-protect :
    (a b : ℕ) (cs : List Sector) → All IsSector cs → length (protect a b cs) ≡ length cs * 512
unfolding protect
length-protect a b [] all = refl
length-protect a b (c ∷ cs) (w, all) =
    omega (arith, length-append c.body (a ∷ b ∷ protect a b cs), length-protect a b cs all)

pairs-originals : (cs : List Sector) → pairs (flatten (map original_of cs)) ≡ map original_of cs
unfolding pairs flatten
pairs-originals [] = refl
pairs-originals (c ∷ cs) = ap (◌∷◌ (original_of c)) (pairs-originals cs)

fixups_read :
    (s : Slice) (a b off : ℕ) (cs : List Sector)
    → length cs < 128
    → len s ≡ length cs * 512
    → off + 2 * (length cs + 1) ≤ len s
    → take (2 * (length cs + 1)) (drop off s.bytes) ≡ fixup_array a b cs
    → process_index_fixups off (length cs + 1) s
      ≡ ok (record { signature = a ∷ b ∷ []; original_values = map original_of cs })
unfolding process_index_fixups fixup_array
fixups_read s a b off cs few whole inside stored =
    let n = 2 * (length cs + 1) in
    let rest = drop (off + n) s.bytes ++ s.spare in
    let mid : (off + n) % 2 ^ 16 ≡ off + n = omega arith in
    let c0 : (length cs + 1 == 0) ≡ false = ground arith in
    let c1 : ltb 128 (length cs + 1) ≡ false = ltb-false _ _ (omega arith) in
    let c2 : ltb (len s) off ≡ false = ltb-false _ _ (omega arith) in
    let c3 : ltb (len s) (off + n) ≡ false = ltb-false _ _ inside in
    let c4 : ltb (off + n) off ≡ false = ltb-false _ _ (omega arith) in
    let array : Slice = record { bytes = fixup_array a b cs; spare = rest } in
    let cut : subslice s off (off + n) ≡ ok array =
      rw (subslice_width s off n inside, stored) refl in
    let sig = subslice_width array 0 2 (omega arith) in
    rw (mid, c0, c1, c2, c3, c4, cut, sig, pairs-originals cs) refl

-- A record of fewer than 128 sectors that a writer has protected, its fixup array inside it, is
-- restored by the parser to exactly the record that was meant; nothing behind it changes.
pub fixups-protect :
    (s : Slice) (a b off : ℕ) (cs : List Sector)
    → All IsSector cs
    → length cs < 128
    → s.bytes ≡ protect a b cs
    → off + 2 * (length cs + 1) ≤ len s
    → take (2 * (length cs + 1)) (drop off s.bytes) ≡ fixup_array a b cs
    → (process_index_fixups off (length cs + 1) s >>= λ f. restore_sectors f (len s / 512) 0 s)
      ≡ ok (record { bytes = image cs; spare = s.spare })
fixups-protect s a b off cs all few e inside stored =
    let whole : len s ≡ length cs * 512 = rw e (length-protect a b cs all) in
    let count : len s / 512 ≡ length cs = omega (arith, whole) in
    let same : s ≡ record { bytes = protect a b cs; spare = s.spare } =
      λ i. record s { bytes = e i } in
    let f : IndexFixUp = record { signature = a ∷ b ∷ []; original_values = map original_of cs } in
    rw (fixups_read s a b off cs few whole inside stored, count)
      (ap (restore_sectors f (length cs) 0) same
        ∙ restore_sectors-from cs [] f [] s.spare a b 0 refl refl refl refl all)
