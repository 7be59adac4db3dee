-- ===== src/Ntfs/Usn/Records.antt =====
-- What the scan of the change journal (FS/NTFS/usnjrnl/usnjrnl.go) sends on.
-- A record sent on: it was parsed at some offset, has a length, and ends in the cluster it begins
-- in.
use file_system_forensics.Base.{
  All, Bool-cases, List, [], arith, false, inl, inr, leb, ltb_cases, none, suc, zero, ℕ, ◌%◌, ◌++◌,
  ◌+◌, ◌-◌, ◌<◌, ◌==◌, ◌∷◌, ◌≡◌, ◌≤◌,
}
use file_system_forensics.Go.{IsOutcome, Slice, len, ok, outcome_cases, subslice_inside, suffix}
use file_system_forensics.Ntfs.Usn.{UsnRecord, parse_usn, passed_over, process_cluster, usn_length}
use file_system_forensics.Structures.Ntfs.{usn_record}
use file_system_forensics.Utils.Layout.{layout}
use file_system_forensics.Utils.Layout.Reading.{unmarshal-layout}
use file_system_forensics.Utils.Unmarshal.{classify, get_num, unmarshal}
use native.Mathlib.Nat.{mod-lt}

abbrev pub IsPlaced : ℕ → Slice → UsnRecord → Type 0
IsPlaced cluster_size s r =
    (p : ℕ) × (rest : Slice) × (suffix s p ≡ ok rest)
    × (parse_usn rest ≡ ok r)
    × (0 < usn_length r)
    × (p % cluster_size + usn_length r ≤ cluster_size)

usn_read :
    (s : Slice)
    → 60 ≤ len s
    → unmarshal s usn_record
      ≡ ok (record { members = layout s.bytes usn_record; read = 60; error = none })
unfolding usn_record classify
usn_read s h = unmarshal-layout s usn_record (ground (arith, h))

parse_usn-IsOutcome : (s : Slice) → IsOutcome (parse_usn s)
unfolding parse_usn
parse_usn-IsOutcome s = elim (ltb_cases (len s) 60) [
  | inl (c, _) ↦ rw c tt
  | inr (c, room) ↦
      let fields = layout s.bytes usn_record in
      let start = get_num "FnameOffset" fields in
      let read_to = start + get_num "FnameLen" fields in
      rw (c, usn_read s room)
        (elim (Bool-cases (get_num "Length" fields == 0)) [
          | inl z ↦ rw z tt
          | inr z ↦ rw z (elim (Bool-cases (leb (len s) read_to)) [
            | inl q ↦ rw q tt
            | inr q ↦
                let (name, e) = subslice_inside s start read_to (omega arith) (ground (arith, q)) in
                rw (q, e) tt
          ])
        ])
]

-- The next record to be sent, if it is not passed over, is placed.
passed_over-IsPlaced :
    (cluster_size : ℕ) (s rest : Slice) (off : ℕ) (r : UsnRecord)
    → 0 < cluster_size
    → suffix s off ≡ ok rest
    → parse_usn rest ≡ ok r
    → passed_over cluster_size off (usn_length r) ≡ false
    → IsPlaced cluster_size s r
unfolding passed_over
passed_over-IsPlaced cluster_size s rest off r positive e q kept =
    let below : off % cluster_size < cluster_size = mod-lt off positive in
    (off, rest, e, q, ground (arith, kept), ground (arith, kept, below))

All-append_one :
    (P : UsnRecord → Type 0) (xs : List UsnRecord) (x : UsnRecord)
    → All P xs
    → P x
    → All P (xs ++ (x ∷ []))
All-append_one P [] x all p = (p, tt)
All-append_one P (y ∷ xs) x (q, all) p = (q, All-append_one P xs x all p)

-- The scan of one message ends, whatever its bytes, after at most one round for each byte and with
-- no panic, and every record that it sends was parsed from the message, has a length other than
-- zero, and does not cross the end of the cluster that it begins in.
pub process_cluster-IsPlaced :
    (fuel cluster_size : ℕ) (s : Slice) (off : ℕ) (found : List UsnRecord)
    → 0 < cluster_size
    → len s - off < fuel
    → All (IsPlaced cluster_size s) found
    → (rs : List UsnRecord) × (process_cluster fuel cluster_size s off found ≡ ok rs)
      × All (IsPlaced cluster_size s) rs
unfolding process_cluster
process_cluster-IsPlaced zero cluster_size s off found positive h all = absurd (omega arith)
process_cluster-IsPlaced (suc fuel) cluster_size s off found positive h all =
    elim (ltb_cases off (len s)) [
      | inr (c, _) ↦ (found, ground (arith, c), all)
      | inl (c, below) ↦
          let (rest, e) = subslice_inside s off (len s) (omega arith) (omega arith) in
          elim (outcome_cases (parse_usn rest) (parse_usn-IsOutcome rest)) [
            | inr (x, q) ↦ (found, ground (arith, c, e, q), all)
            | inl (r, q) ↦ elim (Bool-cases (passed_over cluster_size off (usn_length r))) [
              | inl past ↦
                  let (rs, same, placed) =
                    process_cluster-IsPlaced fuel cluster_size s (off + 1) found positive
                      (omega arith) all in
                  (rs, ground (arith, c, e, q, past, same), placed)
              | inr kept ↦
                  let one = passed_over-IsPlaced cluster_size s rest off r positive e q kept in
                  let (_, _, _, _, forward, _) = one in
                  let (rs, same, placed) =
                    process_cluster-IsPlaced fuel cluster_size s (off + usn_length r)
                      (found ++ (r ∷ [])) positive (omega arith)
                      (All-append_one (IsPlaced cluster_size s) found r all one) in
                  (rs, ground (arith, c, e, q, kept, same), placed)
            ]
          ]
    ]
