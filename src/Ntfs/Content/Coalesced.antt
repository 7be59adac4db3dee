-- ===== src/Ntfs/Content/Coalesced.antt =====
-- `GetContent` of FS/NTFS/MFT/attributes/attributes.go reads neighbouring runs at once; the bytes
-- are those of the plain reading.
use file_system_forensics.Base.{
  ==_cases, Bool-cases, Bytes, List, [], ap, arith, drop, drop-drop, false, inl, inr, leb,
  leb-false, length, length-append, length-drop, length-replicate, length-take, ltb, ltb-false,
  ltb_cases, refl, replicate, suc, sym, true, zero, ℕ, ◌%◌, ◌*◌, ◌++◌, ◌+◌, ◌<◌, ◌==◌, ◌^◌, ◌∙◌,
  ◌∷◌, ◌≡◌, ◌≤◌, ◌⊎◌,
}
use file_system_forensics.Base.Int.{is_negative, negsuc, pos, pos-zero, pos_part, ℤ, ◌+ℤ◌, ◌==ℤ◌}
use file_system_forensics.Go.{Result, Slice, len, ok, ◌>>=◌}
use file_system_forensics.Ntfs.Content.{
  Reading, add_run, data_run, expected_next, flush, get_content, read_runs, sparse_run,
  start_pending,
}
use file_system_forensics.Ntfs.Content.Runwise.{
  OnDisk, content_of, fill_middle, run_bytes, stretch, total_size, write_middle,
}
use file_system_forensics.Ntfs.Content.State.{
  ==ℤ_pos, Goes, Holds, grown, ltb_ℤ_pos, mk, piece, place, room_for, run_bytes_le, started,
}
use file_system_forensics.Ntfs.Runs.{Run}
use mathlib.Core.List.{append-nil, append_assoc}
use native.Mathlib.Nat.{add-zero, div-eq_of_eq-mul_left}

module _ (disk : Bytes) (p cs : ℕ) (read_file : ℤ → ℕ → Result Bytes) (positive : 0 < cs)
    (reads : (o n : ℕ) → o + n ≤ length disk → read_file (pos o) n ≡ ok (stretch disk o n)) where
  flush-mk :
      (w rest spare : Bytes) (po n : ℕ)
      → n ≤ length rest
      → (n ≡ 0) ⊎ (p + po * cs + n ≤ length disk)
      → flush read_file (pos p) cs (mk w rest spare po n)
        ≡ ok (mk (w ++ stretch disk (p + po * cs) n) (drop n rest) spare po 0)
  unfolding flush
  flush-mk w rest spare po zero h bound = rw (append-nil w) refl
  flush-mk w rest spare po (suc n) h (inl z) = absurd (omega arith)
  flush-mk w rest spare po (suc n) h (inr b) =
      let from : ℕ = p + po * cs in
      let got : length (stretch disk from (suc n)) ≡ suc n =
        omega (arith, length-take (suc n) (drop from disk), length-drop from disk) in
      let written =
        write_middle w rest spare (stretch disk from (suc n)) (length w) (suc n) refl got h in
      let there : length w + suc n ≡ length (w ++ stretch disk from (suc n)) =
        omega (arith, got, length-append w (stretch disk from (suc n))) in
      let some_bytes : (suc n == 0) ≡ false = ground arith in
      rw
        (
          some_bytes,
          place disk p cs po,
          reads from (suc n) b,
          written,
          append_assoc w (stretch disk from (suc n)) (drop (suc n) rest),
          there,
        )
        refl

  flush-Holds :
      (spare out tail : Bytes) (st : Reading)
      → Holds disk p cs spare st out tail
      → (po : ℕ) × (flush read_file (pos p) cs st ≡ ok (mk out tail spare po 0))
  flush-Holds spare out tail st (w, rest, po, k, e, o, t, h, bound) = (
    po,
    ap (flush read_file (pos p) cs) e
        ∙ flush-mk w rest spare po (k * cs) h bound
        ∙ ap (λ (x : Bytes). ok (mk x (drop (k * cs) rest) spare po 0)) o
        ∙ ap (λ (x : Bytes). ok (mk out x spare po 0)) t,
  )

  restarted :
      (spare out tail : Bytes) (st : Reading) (c n : ℕ)
      → Holds disk p cs spare st out tail
      → n * cs ≤ length tail
      → p + c * cs + n * cs ≤ length disk
      → Goes disk p cs
          (flush read_file (pos p) cs st >>= λ st'. ok (start_pending (pos c) (n * cs) st'))
          spare
          (out ++ piece disk p cs c n)
          (drop (n * cs) tail)
  unfolding start_pending
  restarted spare out tail st c n holds h b =
      let (po, e) = flush-Holds spare out tail st holds in
      (mk out tail spare c (n * cs), rw e refl, started disk p cs spare out tail c n h b)

  expected_mk :
      (w rest spare : Bytes) (po k : ℕ)
      → expected_next read_file (pos p) cs (mk w rest spare po (k * cs)) ≡ ok (pos (po + k))
  unfolding expected_next ◌+ℤ◌
  expected_mk w rest spare po k =
      ground (arith, div-eq_of_eq-mul_left {n = cs} {m = k * cs} {k = k} positive refl)

  data_run-mk :
      (w rest spare out tail : Bytes) (po k c n : ℕ)
      → Holds disk p cs spare (mk w rest spare po (k * cs)) out tail
      → w ++ piece disk p cs po k ≡ out
      → drop (k * cs) rest ≡ tail
      → k * cs ≤ length rest
      → n * cs ≤ length tail
      → p + c * cs + n * cs ≤ length disk
      → Goes disk p cs
          (data_run read_file (pos p) cs (pos c) (n * cs) (mk w rest spare po (k * cs)))
          spare
          (out ++ piece disk p cs c n)
          (drop (n * cs) tail)
  unfolding data_run start_pending
  data_run-mk w rest spare out tail po k c n holds o t room h b =
      let again = restarted spare out tail (mk w rest spare po (k * cs)) c n holds h b in
      elim (==_cases (k * cs) 0) [
        | inl (empty, z) ↦
            let out_is : w ≡ out = sym (append-nil w) ∙ (rw z at o) in
            let tail_is : rest ≡ tail = rw z at t in
            rw empty (
              mk out tail spare c (n * cs),
              rw (out_is, tail_is) refl,
              started disk p cs spare out tail c n h b,
            )
        | inr (some_bytes, z) ↦
            rw (some_bytes, expected_mk w rest spare po k, ltb_ℤ_pos (po + k) c, ==ℤ_pos c (po + k))
              (elim (ltb_cases (po + k) c) [
                | inl (after, _) ↦ rw after again
                | inr (before, _) ↦ rw before (elim (==_cases c (po + k)) [
                  | inl (next, q) ↦ rw next (
                    mk w rest spare po (k * cs + n * cs),
                    refl,
                    rw q (grown disk p cs w rest spare out tail po k n o t h room (rw q at b)),
                  )
                  | inr (other, q) ↦ rw other again
                ])
              ])
      ]

  data_run-Holds :
      (spare out tail : Bytes) (st : Reading) (c n : ℕ)
      → Holds disk p cs spare st out tail
      → n * cs ≤ length tail
      → p + c * cs + n * cs ≤ length disk
      → Goes disk p cs
          (data_run read_file (pos p) cs (pos c) (n * cs) st)
          spare
          (out ++ piece disk p cs c n)
          (drop (n * cs) tail)
  data_run-Holds spare out tail st c n (w, rest, po, k, e, o, t, room, bound) h b = rw e (
      data_run-mk w rest spare out tail po k c n (w, rest, po, k, refl, o, t, room, bound) o t room
        h b)

  sparse_run-Holds :
      (spare out tail : Bytes) (st : Reading) (n : ℕ)
      → Holds disk p cs spare st out tail
      → n ≤ length tail
      → Goes disk p cs
          (sparse_run read_file (pos p) cs n st)
          spare
          (out ++ replicate n 0)
          (drop n tail)
  unfolding sparse_run
  sparse_run-Holds spare out tail st n holds h =
      let (po, e) = flush-Holds spare out tail st holds in
      let out' : Bytes = out ++ replicate n 0 in
      let there : length out + n ≡ length out' =
        omega (arith, length-append out (replicate n 0), length-replicate {A = ℕ} n 0) in
      let none_left : 0 ≡ 0 * cs = omega arith in
      (
        mk out' (drop n tail) spare po 0,
        rw
            (
              e,
              fill_middle n out tail spare (length out) refl h,
              there,
              append_assoc out (replicate n 0) (drop n tail),
            )
            refl,
        (
          out',
          drop n tail,
          po,
          0,
          ap (mk out' (drop n tail) spare po) none_left,
          rw (sym none_left, append-nil out') refl,
          rw (sym none_left) refl,
          omega arith,
          inl (omega arith),
        ),
      )

  add_run-Holds :
      (spare out tail : Bytes) (st : Reading) (current : ℤ) (run : Run)
      → Holds disk p cs spare st out tail
      → run.length_cl * cs ≤ length tail
      → length out + length tail < 2 ^ 63
      → is_negative current ≡ false
      → ((run.offset ==ℤ pos 0) ≡ true)
        ⊎ (p + pos_part current * cs + run.length_cl * cs ≤ length disk)
      → Goes disk p cs
          (add_run read_file (pos p) cs current run st)
          spare
          (out ++ run_bytes disk p cs current run)
          (drop (run.length_cl * cs) tail)
  unfolding add_run
  add_run-Holds spare out tail st (negsuc c) run holds h small q b = absurd cc
  add_run-Holds spare out tail st (pos c) run holds h small q b =
      let n : ℕ = run.length_cl * cs in
      let fits : n % 2 ^ 64 ≡ n = omega arith in
      let short : leb (2 ^ 63) n ≡ false = leb-false (2 ^ 63) n (omega arith) in
      let inside : ltb (len st.buffer) (st.data_read + n) ≡ false =
        ltb-false (len st.buffer) (st.data_read + n)
          (room_for disk p cs spare out tail st n holds h) in
      rw (fits, short, inside)
        (elim (Bool-cases (run.offset ==ℤ pos 0)) [
          | inl sparse ↦ rw sparse (sparse_run-Holds spare out tail st n holds h)
          | inr placed ↦ rw placed (elim b [
            | inl sparse ↦ absurd cc
            | inr on_disk ↦ data_run-Holds spare out tail st c run.length_cl holds h on_disk
          ])
        ])

  read_runs-Holds :
      (rest : List Run) (run : Run) (spare out tail : Bytes) (st : Reading) (current : ℤ)
      → Holds disk p cs spare st out tail
      → total_size disk p cs (run ∷ rest) ≤ length tail
      → length out + length tail < 2 ^ 63
      → is_negative current ≡ false
      → ((run.offset ==ℤ pos 0) ≡ true)
        ⊎ (p + pos_part current * cs + run.length_cl * cs ≤ length disk)
      → OnDisk disk p cs current rest
      → Goes disk p cs
          (read_runs read_file (pos p) cs run rest current st)
          spare
          (out ++ (run_bytes disk p cs current run ++ content_of disk p cs current rest))
          (drop (total_size disk p cs (run ∷ rest)) tail)
  unfolding read_runs
  read_runs-Holds [] run spare out tail st current holds h small q b v =
      rw (append-nil (run_bytes disk p cs current run), add-zero (run.length_cl * cs))
        (add_run-Holds spare out tail st current run holds (omega arith) small q b)
  read_runs-Holds (next ∷ rest) run spare out tail st current holds h small q b (q', b', v) =
      let n : ℕ = run.length_cl * cs in
      let (st', e, holds') =
        add_run-Holds spare out tail st current run holds (omega arith) small q b in
      let out' : Bytes = out ++ run_bytes disk p cs current run in
      let room : total_size disk p cs (next ∷ rest) ≤ length (drop n tail) =
        omega (arith, length-drop n tail) in
      let written : length out' ≤ length out + n = omega (
        arith,
        length-append out (run_bytes disk p cs current run),
        run_bytes_le disk p cs current run,
      ) in
      let later =
        read_runs-Holds rest next spare out' (drop n tail) st' (current +ℤ next.offset) holds' room
          (omega (arith, written, length-drop n tail)) q' b' v in
      let here : Bytes = run_bytes disk p cs current run in
      let there : Bytes =
        run_bytes disk p cs (current +ℤ next.offset) next
        ++ content_of disk p cs (current +ℤ next.offset) rest in
      let seam : drop (total_size disk p cs (next ∷ rest)) (drop n tail)
          ≡ drop (total_size disk p cs (run ∷ next ∷ rest)) tail =
        drop-drop n (total_size disk p cs (next ∷ rest)) (n + total_size disk p cs (next ∷ rest))
          tail refl in
      rw (e, q') (rw (append_assoc out here there, seam) at later)

  -- Where every run is on the disk and the destination has room for them all, `GetContent` gives
  -- exactly the bytes of the plain reading, run by run, sparse runs as zeros, and leaves what lies
  -- behind them in the destination as it was: reading neighbouring runs at once changes nothing.
  pub get_content-content_of :
      (run : Run) (rest : List Run) (dst : Slice)
      → OnDisk disk p cs (pos 0) (run ∷ rest)
      → total_size disk p cs (run ∷ rest) ≤ len dst
      → len dst < 2 ^ 63
      → get_content read_file (pos p) cs (run ∷ rest) dst
        ≡ ok (record {
          bytes =
              content_of disk p cs (pos 0) (run ∷ rest)
              ++ drop (total_size disk p cs (run ∷ rest)) dst.bytes;
          spare = dst.spare;
        })
  unfolding get_content
  get_content-content_of run rest dst (q, b, v) h small =
      let start : Reading = record {
        buffer = dst;
        data_read = 0;
        pending_offset = pos 0;
        pending_size = 0;
      } in
      let none_yet : 0 ≡ 0 * cs = omega arith in
      let holds : Holds disk p cs dst.spare start [] dst.bytes = (
        [],
        dst.bytes,
        0,
        0,
        ap (mk [] dst.bytes dst.spare 0) none_yet,
        rw (sym none_yet) refl,
        rw (sym none_yet) refl,
        omega arith,
        inl (omega arith),
      ) in
      let first : pos 0 +ℤ run.offset ≡ run.offset = pos-zero run.offset in
      let (st, e, after) =
        read_runs-Holds rest run dst.spare [] dst.bytes start (pos 0 +ℤ run.offset) holds h
          (omega arith) q b v in
      let (po, f) = flush-Holds dst.spare _ _ st after in
      let from : read_runs read_file (pos p) cs run rest run.offset start ≡ ok st =
        ap (λ (c : ℤ). read_runs read_file (pos p) cs run rest c start) (sym first) ∙ e in
      rw (from, f) refl
