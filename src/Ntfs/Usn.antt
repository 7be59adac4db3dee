-- ===== src/Ntfs/Usn.antt =====
-- The change journal: FS/NTFS/usnjrnl/usnjrnl.go. A cluster is one message of the channel, the
-- records go to the other channel in the order of the list.
pub mod Records
use file_system_forensics.Base.{
  Bool, List, [], false, if◌then◌else◌, leb, ltb, suc, true, zero, ℕ, ◌%◌, ◌++◌, ◌+◌, ◌-◌, ◌==◌,
  ◌||◌, ◌∷◌,
}
use file_system_forensics.Go.{
  Result, Slice, crash, err, len, ok, stuck, subslice, suffix, usn_data_short, usn_name_exceeds,
  ◌>>=◌,
}
use file_system_forensics.Structures.Ntfs.{usn_record}
use file_system_forensics.Utils.Endian.{code_units}
use file_system_forensics.Utils.Unmarshal.{Struct, get_num, unmarshal}

pub record UsnRecord : Type 0 where
  pub fields : Struct
  pub fname : List ℕ

abbrev pub usn_length : UsnRecord → ℕ
usn_length r = get_num "Length" r.fields

-- `Record.Parse`: a record of length zero is no error.
unfoldable pub parse_usn : Slice → Result UsnRecord
parse_usn s =
    if ltb (len s) 60
    then err usn_data_short
    else (unmarshal s usn_record >>= λ p.
        let start = get_num "FnameOffset" p.members in
        let read_to = start + get_num "FnameLen" p.members in
        if get_num "Length" p.members == 0
        then ok (record { fields = p.members; fname = [] })
        else if leb (len s) read_to
        then err usn_name_exceeds
        else (subslice s start read_to >>= λ name.
            ok (record { fields = p.members; fname = code_units name.bytes })))

-- Whether a record is passed over: without a length, or longer than what is left of its cluster.
unfoldable pub passed_over : ℕ → ℕ → ℕ → Bool
passed_over cluster_size off l = l == 0 || ltb (cluster_size - off % cluster_size) l

-- The inner loop of `AsyncProcess` over one message, with fuel. The cluster size is not zero, or
-- the remainder would panic.
unfoldable pub process_cluster : ℕ → ℕ → Slice → ℕ → List UsnRecord → Result (List UsnRecord)
process_cluster zero cluster_size s off found = stuck
process_cluster (suc fuel) cluster_size s off found = elim (ltb off (len s)) [
  | false ↦ ok found
  | true ↦ suffix s off >>= λ rest. elim (parse_usn rest) [
    | err e ↦ ok found
    | crash ↦ crash
    | stuck ↦ stuck
    | ok r ↦ elim (passed_over cluster_size off (usn_length r)) [
      | true ↦ process_cluster fuel cluster_size s (off + 1) found
      | false ↦ process_cluster fuel cluster_size s (off + usn_length r) (found ++ (r ∷ []))
    ]
  ]
]

-- `AsyncProcess` over all the messages.
unfoldable pub async_process : ℕ → ℕ → List Slice → List UsnRecord → Result (List UsnRecord)
unfolding process_cluster
async_process fuel cluster_size [] found = ok found
async_process fuel cluster_size (s ∷ clusters) found =
    process_cluster fuel cluster_size s 0 found >>= λ found'.
    async_process fuel cluster_size clusters found'
