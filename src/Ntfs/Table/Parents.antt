-- ===== src/Ntfs/Table/Parents.antt =====
-- `FindParentRecords` of FS/NTFS/MFT/Table.go: what its loop writes does not change what it looks up.
use file_system_forensics.Base.{
  Bool, List, Option, [], ap, arith, false, get_elem?, inl, inr, ltb_cases, length, length-append,
  map, none, refl, some, suc, true, zero, ℕ, ◌%◌, ◌&&◌, ◌==◌, ◌||◌, ◌-◌, ==_cases, ◌++◌, ◌+◌, ◌^◌,
  ◌∙◌, ◌∷◌, ◌≡◌,
}
use file_system_forensics.Go.{Result, crash, err, ok, stuck, ◌>>=◌}
use file_system_forensics.Ntfs.Table.{
  TableRecord, find_parent, find_parent_records, find_parents_from, get_record, judge, or_not_found,
  parent_by, set_parent, update,
}
use mathlib.Core.List.{append_assoc}

-- The two fields that `GetRecord` reads, alike in two tables.
abbrev SameKeys : List TableRecord → List TableRecord → Type 0
SameKeys [] [] = Unit {0}
SameKeys (x ∷ xs) (y ∷ ys) = (x.entry ≡ y.entry) × (x.seq ≡ y.seq) × SameKeys xs ys
SameKeys _ _ = ⊥

SameKeys-refl : (xs : List TableRecord) → SameKeys xs xs
SameKeys-refl [] = tt
SameKeys-refl (x ∷ xs) = (refl, refl, SameKeys-refl xs)

SameKeys-at :
    (d : List TableRecord) (r r' : TableRecord) (rest o : List TableRecord)
    → r'.entry ≡ r.entry
    → r'.seq ≡ r.seq
    → SameKeys (d ++ (r ∷ rest)) o
    → SameKeys (d ++ (r' ∷ rest)) o
SameKeys-at [] r r' rest [] p q h = h
SameKeys-at [] r r' rest (y ∷ o) p q (e, s, h) = (p ∙ e, q ∙ s, h)
SameKeys-at (x ∷ d) r r' rest [] p q h = h
SameKeys-at (x ∷ d) r r' rest (y ∷ o) p q (e, s, h) = (e, s, SameKeys-at d r r' rest o p q h)

get_record_same :
    (xs ys : List TableRecord) (i ref_entry ref_seq : ℕ)
    → SameKeys xs ys
    → (or_not_found (get_elem? xs i) >>= λ r. judge ref_entry ref_seq r)
      ≡ (or_not_found (get_elem? ys i) >>= λ r. judge ref_entry ref_seq r)
unfolding judge
get_record_same [] [] i e s h = refl
get_record_same [] (y ∷ ys) i e s h = absurd h
get_record_same (x ∷ xs) [] i e s h = absurd h
get_record_same (x ∷ xs) (y ∷ ys) zero e s (p, q, h) = rw (p, q) refl
get_record_same (x ∷ xs) (y ∷ ys) (suc i) e s (p, q, h) = get_record_same xs ys i e s h

parent_by_same :
    (xs ys : List TableRecord) (r : TableRecord) (o : Option (ℕ × ℕ))
    → SameKeys xs ys
    → parent_by xs r o ≡ parent_by ys r o
unfolding get_record
parent_by_same xs ys r none h = refl
parent_by_same xs ys r (some (par_ref, par_seq)) h =
    ap (set_parent r) (get_record_same xs ys (par_ref % 2 ^ 32) (par_ref % 2 ^ 32) par_seq h)

find_parent_same :
    (xs ys : List TableRecord) (r : TableRecord)
    → SameKeys xs ys
    → find_parent xs r ≡ find_parent ys r
unfolding find_parent
find_parent_same xs ys r h = parent_by_same xs ys r r.file_name_ref h

abbrev KeepsKeys : TableRecord → TableRecord → Type 0
KeepsKeys r r' = (r'.entry ≡ r.entry) × (r'.seq ≡ r.seq)

set_parent-keeps : (r : TableRecord) (o : Result ℕ) → KeepsKeys r (set_parent r o)
set_parent-keeps r (ok i) = (refl, refl)
set_parent-keeps r (err e) = (refl, refl)
set_parent-keeps r crash = (refl, refl)
set_parent-keeps r stuck = (refl, refl)

parent_by-keeps :
    (records : List TableRecord) (r : TableRecord) (o : Option (ℕ × ℕ))
    → KeepsKeys r (parent_by records r o)
parent_by-keeps records r none = (refl, refl)
parent_by-keeps records r (some (par_ref, par_seq)) =
    set_parent-keeps r (get_record records (par_ref % 2 ^ 32) par_seq)

find_parent-keeps :
    (records : List TableRecord) (r : TableRecord) → KeepsKeys r (find_parent records r)
unfolding find_parent
find_parent-keeps records r = parent_by-keeps records r r.file_name_ref

update_middle :
    (d rest : List TableRecord) (r : TableRecord) (f : TableRecord → TableRecord)
    → update (d ++ (r ∷ rest)) (length d) f ≡ d ++ (f r ∷ rest)
update_middle [] rest r f = refl
update_middle (x ∷ d) rest r f = ap (λ (t : List TableRecord). x ∷ t) (update_middle d rest r f)

find_parents_from-map :
    (todo d records : List TableRecord)
    → SameKeys (d ++ todo) records
    → find_parents_from (length todo) (length d) (d ++ todo) ≡ d ++ map (find_parent records) todo
unfolding find_parents_from
find_parents_from-map [] d records h = refl
find_parents_from-map (r ∷ todo) d records h =
    let r' : TableRecord = find_parent records r in
    let same : find_parent (d ++ (r ∷ todo)) r ≡ r' =
      find_parent_same (d ++ (r ∷ todo)) records r h in
    let (p, q) = find_parent-keeps records r in
    let kept : SameKeys (d ++ (r' ∷ todo)) records = SameKeys-at d r r' todo records p q h in
    let next : length (d ++ (r' ∷ [])) ≡ length d + 1 = length-append d (r' ∷ []) in
    let kept' : SameKeys ((d ++ (r' ∷ [])) ++ todo) records =
      rw (append_assoc d (r' ∷ []) todo) kept in
    let later = find_parents_from-map todo (d ++ (r' ∷ [])) records kept' in
    ap (find_parents_from (length todo) (length d + 1)) (
      update_middle d todo r (find_parent (d ++ (r ∷ todo)))
      ∙ ap (λ (x : TableRecord). d ++ (x ∷ todo)) same)
    ∙ (rw
        (
          next,
          append_assoc d (r' ∷ []) todo,
          append_assoc d (r' ∷ []) (map (find_parent records) todo),
        )
        at later)

-- The record that a reference names: at its number, with that number, and with the sequence number
-- of the reference or the next one, as 16-bit numbers.
abbrev pub is_meant : ℕ → ℕ → Option TableRecord → Bool
is_meant i seq none = false
is_meant i seq (some p) =
    p.entry == i && ((p.seq + 2 ^ 16 - seq) % 2 ^ 16 == 0 || (p.seq + 2 ^ 16 - seq) % 2 ^ 16 == 1)

-- A record with a parent, if there is one, every field written out.
abbrev pub adopted : TableRecord → ℕ → Bool → TableRecord
adopted r i false = r
adopted r i true = record {
  entry = r.entry;
  seq = r.seq;
  file_name_ref = r.file_name_ref;
  linked_records_info = r.linked_records_info;
  parent = some i;
  linked_records = r.linked_records;
  origin_linked_record = r.origin_linked_record;
}

-- A record with the parent that its FileName attribute names, in 32 bits, if the table has it.
abbrev pub with_parent_of : List TableRecord → TableRecord → Option (ℕ × ℕ) → TableRecord
with_parent_of records r none = r
with_parent_of records r (some (par_ref, par_seq)) =
    adopted r (par_ref % 2 ^ 32)
      (is_meant (par_ref % 2 ^ 32) par_seq (get_elem? records (par_ref % 2 ^ 32)))

abbrev pub with_parent : List TableRecord → TableRecord → TableRecord
with_parent records r = with_parent_of records r r.file_name_ref

judge-meant :
    (i seq : ℕ) (r : TableRecord) (o : Option TableRecord)
    → set_parent r (or_not_found o >>= judge i seq) ≡ adopted r i (is_meant i seq o)
unfolding judge
judge-meant i seq r none = refl
judge-meant i seq r (some p) = elim (==_cases p.entry i) [
  | inr (other, _) ↦ rw other refl
  | inl (same, _) ↦ elim (ltb_cases 1 ((p.seq + 2 ^ 16 - seq) % 2 ^ 16)) [
    | inl (far, d) ↦
        let zero_ : ((p.seq + 2 ^ 16 - seq) % 2 ^ 16 == 0) ≡ false = ground (arith, d) in
        let one : ((p.seq + 2 ^ 16 - seq) % 2 ^ 16 == 1) ≡ false = ground (arith, d) in
        rw (same, far, zero_, one) refl
    | inr (near, d) ↦ elim (==_cases ((p.seq + 2 ^ 16 - seq) % 2 ^ 16) 0) [
      | inl (zero_, _) ↦ rw (same, near, zero_) refl
      | inr (other, n) ↦
          let one : ((p.seq + 2 ^ 16 - seq) % 2 ^ 16 == 1) ≡ true = ground (arith, d, n) in
          rw (same, near, other, one) refl
    ]
  ]
]

parent_by-with_parent :
    (records : List TableRecord) (r : TableRecord) (o : Option (ℕ × ℕ))
    → parent_by records r o ≡ with_parent_of records r o
unfolding get_record
parent_by-with_parent records r none = refl
parent_by-with_parent records r (some (par_ref, par_seq)) =
    judge-meant (par_ref % 2 ^ 32) par_seq r (get_elem? records (par_ref % 2 ^ 32))

map-with_parent :
    (records rs : List TableRecord) → map (find_parent records) rs ≡ map (with_parent records) rs
unfolding find_parent
map-with_parent records [] = refl
map-with_parent records (r ∷ rs) =
    rw (parent_by-with_parent records r r.file_name_ref, map-with_parent records rs) refl

-- `FindParentRecords` sets the parent of every record whose FileName attribute names a record of the
-- table as it was before, whatever the loop has written by then: the record at the number, with that
-- number and with the sequence number named or the next one. It changes nothing else.
pub find_parent_records-map :
    (records : List TableRecord) → find_parent_records records ≡ map (with_parent records) records
unfolding find_parent_records
find_parent_records-map records =
    find_parents_from-map records [] records (SameKeys-refl records)
    ∙ map-with_parent records records
