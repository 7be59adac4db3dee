-- ===== src/Ntfs/Runs/Decode.antt =====
-- `RunList.Process` against an independent description of the encoding of data runs.
use file_system_forensics.Base.{
  All, Bytes, List, [], ap, arith, bit_and, length, length-append, ltb-false, lt→ltb, map, refl,
  some, suc, zero, ℕ, ◌%◌, ◌*◌, ◌++◌, ◌+◌, ◌/◌, ◌<◌, ◌^◌, ◌∙◌, ◌∷◌, ◌≡◌, ◌≤◌,
}
use file_system_forensics.Base.Bits.{high_nibble, low_nibble}
use file_system_forensics.Go.{Slice, at_middle, len, ok, subslice_middle}
use file_system_forensics.Ntfs.Runs.{Run, empty_run, link, process, process_from, read_run}
use file_system_forensics.Utils.Endian.{
  IsByte, le, le-lt_within, read_endian_int-twos, read_endian_uint-le, twos,
}
use mathlib.Core.List.{append-nil, append_assoc}

-- An encoded run: the bytes of its length and of its offset.
pub record Encoded : Type 0 where
  pub len_bytes : Bytes
  pub off_bytes : Bytes

-- At most eight bytes of length, one at least, and at most four of offset.
pub record IsEncoded (e : Encoded) : Type 0 where
  pub len_byte : All IsByte e.len_bytes
  pub off_byte : All IsByte e.off_bytes
  pub len_pos : 1 ≤ length e.len_bytes
  pub len_max : length e.len_bytes ≤ 8
  pub off_max : length e.off_bytes ≤ 4

abbrev pub encode_run : Encoded → Bytes
encode_run e = (length e.off_bytes * 16 + length e.len_bytes) ∷ (e.len_bytes ++ e.off_bytes)

abbrev pub encode : List Encoded → Bytes
encode [] = []
encode (e ∷ es) = encode_run e ++ encode es

-- What an encoded run means.
abbrev pub meaning : Encoded → Run
meaning e = record { offset = twos e.off_bytes; length_cl = le e.len_bytes }

abbrev pub total_from : ℕ → List Encoded → ℕ
total_from acc [] = acc
total_from acc (e ∷ es) = total_from ((acc + le e.len_bytes) % 2 ^ 64) es

header_nibbles :
    (m n : ℕ)
    → m ≤ 4
    → n ≤ 8
    → (bit_and (m * 16 + n) 0xf0 / 16 ≡ m) × (bit_and (m * 16 + n) 0x0f ≡ n)
header_nibbles m n p q =
    omega (arith, high_nibble (m * 16 + n) (omega arith), low_nibble (m * 16 + n) (omega arith))

le_word : (bs : Bytes) → All IsByte bs → length bs ≤ 8 → le bs < 2 ^ 64
le_word bs h l = le-lt_within 8 bs h l

-- The header of a run behind `pre` gives the run's meaning.
read_run-encode_run :
    (s : Slice) (pre post : Bytes) (e : Encoded) (i : ℕ)
    → IsEncoded e
    → s.bytes ≡ pre ++ (encode_run e ++ post)
    → i ≡ length pre
    → read_run s i ≡ ok (some (meaning e, i + length (encode_run e)))
unfolding read_run
read_run-encode_run s pre post e i v b p =
    let m : ℕ = length e.off_bytes in
    let n : ℕ = length e.len_bytes in
    let nibbles = header_nibbles m n v.off_max v.len_max in
    let head = at_middle s pre ((e.len_bytes ++ e.off_bytes) ++ post) (m * 16 + n) i b p in
    let split : s.bytes ≡ (pre ++ ((m * 16 + n) ∷ [])) ++ (e.len_bytes ++ (e.off_bytes ++ post)) =
      b ∙ simp append_assoc in
    let lengths =
      subslice_middle s (pre ++ ((m * 16 + n) ∷ [])) e.len_bytes (e.off_bytes ++ post) (i + 1)
        (i + n + 1) split (omega (arith, length-append pre ((m * 16 + n) ∷ []))) (omega arith) in
    let split' : s.bytes ≡ (pre ++ (((m * 16 + n) ∷ []) ++ e.len_bytes)) ++ (e.off_bytes ++ post) =
      b ∙ simp append_assoc in
    let offsets =
      subslice_middle s (pre ++ (((m * 16 + n) ∷ []) ++ e.len_bytes)) e.off_bytes post (i + 1 + n)
        (i + n + m + 1) split' (omega (arith, length-append pre ((m * 16 + n) ∷ e.len_bytes)))
        (omega arith) in
    ground (
      arith,
      nibbles,
      head,
      lengths,
      offsets,
      read_endian_int-twos e.off_bytes v.off_byte v.off_max,
      read_endian_uint-le e.len_bytes,
      le_word e.len_bytes v.len_byte v.len_max,
      length-append e.len_bytes e.off_bytes,
    )

-- What may stand behind the last run: nothing, or a zero byte.
abbrev pub IsEnd : Bytes → Type 0
IsEnd [] = Unit {0}
IsEnd (b ∷ bs) = b ≡ 0

-- One round on an encoded run.
process_from_step :
    (fuel : ℕ) (s : Slice) (pre post : Bytes) (e : Encoded) (i total : ℕ) (runs : List Run)
    → IsEncoded e
    → s.bytes ≡ pre ++ (encode_run e ++ post)
    → i ≡ length pre
    → process_from (suc fuel) s i total runs
      ≡ process_from fuel s
          (i + length (encode_run e))
          ((total + le e.len_bytes) % 2 ^ 64)
          (link i runs (meaning e))
unfolding process_from
process_from_step fuel s pre post e i total runs v b p =
    let inside : i < len s = rw b (omega (arith, length-append pre (encode_run e ++ post))) in
    ground (arith, read_run-encode_run s pre post e i v b p, lt→ltb i (len s) inside)

process_from_end :
    (fuel : ℕ) (s : Slice) (pre post : Bytes) (i total : ℕ) (runs : List Run)
    → s.bytes ≡ pre ++ post
    → i ≡ length pre
    → IsEnd post
    → process_from (suc fuel) s i total runs ≡ ok (runs, total)
unfolding process_from read_run
process_from_end fuel s pre [] i total runs b p h =
    let out : len s ≤ i = rw b (omega (arith, length-append pre [])) in
    ground (arith, ltb-false i (len s) out)
process_from_end fuel s pre (x ∷ post) i total runs b p h =
    ground (arith, at_middle s pre post x i b p, h)

process_from-encode :
    (es : List Encoded) (fuel : ℕ) (s : Slice) (pre post : Bytes) (i total : ℕ) (runs : List Run)
    → All IsEncoded es
    → s.bytes ≡ pre ++ (encode es ++ post)
    → suc i ≡ length pre
    → IsEnd post
    → length es < fuel
    → process_from fuel s (suc i) total runs ≡ ok (runs ++ map meaning es, total_from total es)
process_from-encode es zero s pre post i total runs v b p h f = absurd (omega arith)
process_from-encode [] (suc fuel) s pre post i total runs v b p h f =
    rw append-nil (process_from_end fuel s pre post (suc i) total runs b p h)
process_from-encode (e ∷ es) (suc fuel) s pre post i total runs v b p h f =
    let split : s.bytes ≡ pre ++ (encode_run e ++ (encode es ++ post)) = b ∙ simp append_assoc in
    let split' : s.bytes ≡ (pre ++ encode_run e) ++ (encode es ++ post) = b ∙ simp append_assoc in
    let next : suc i + length (encode_run e) ≡ suc (i + length (encode_run e)) = omega arith in
    let later =
      process_from-encode es fuel s (pre ++ encode_run e) post (i + length (encode_run e))
        ((total + le e.len_bytes) % 2 ^ 64) (runs ++ (meaning e ∷ [])) v.1 split'
        (omega (arith, length-append pre (encode_run e))) h (omega arith) in
    process_from_step fuel s pre (encode es ++ post) e (suc i) total runs v.0 split p
    ∙ ap
        (λ (j : ℕ).
          process_from fuel s j ((total + le e.len_bytes) % 2 ^ 64) (runs ++ (meaning e ∷ [])))
        next
    ∙ later
    ∙ ap (λ (t : List Run). ok (t, total_from total (e ∷ es)))
        (append_assoc runs (meaning e ∷ []) (map meaning es))

length-encode : (es : List Encoded) → All IsEncoded es → length es ≤ length (encode es)
length-encode [] v = omega arith
length-encode (e ∷ es) v =
    omega (arith, length-encode es v.1, length-append (encode_run e) (encode es))

-- A run list decodes to what it encodes: every run with its signed offset and its length, in order,
-- and the total of the lengths in 64 bits, whatever stands behind the terminating zero byte.
pub process-encode :
    (e : Encoded) (es : List Encoded) (post spare : Bytes)
    → All IsEncoded (e ∷ es)
    → IsEnd post
    → process (record { bytes = encode (e ∷ es) ++ post; spare = spare })
      ≡ ok (meaning e ∷ map meaning es, total_from 0 (e ∷ es))
unfolding process
process-encode e es post spare v h =
    let s : Slice = record { bytes = encode (e ∷ es) ++ post; spare = spare } in
    let split : s.bytes ≡ encode_run e ++ (encode es ++ post) =
      append_assoc (encode_run e) (encode es) post in
    let count : length es < len s =
      omega (arith, length-append (encode (e ∷ es)) post, length-encode (e ∷ es) v) in
    let start : 0 + length (encode_run e) ≡ length (encode_run e) = omega arith in
    process_from_step (len s) s [] (encode es ++ post) e 0 0 (empty_run ∷ []) v.0 split refl
    ∙ ap (λ (j : ℕ). process_from (len s) s j ((0 + le e.len_bytes) % 2 ^ 64) (meaning e ∷ []))
        start
    ∙ process_from-encode es (len s) s (encode_run e) post (length (e.len_bytes ++ e.off_bytes))
        ((0 + le e.len_bytes) % 2 ^ 64) (meaning e ∷ []) v.1 split refl h count
