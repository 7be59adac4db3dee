-- ===== src/Utils/Layout/Prefix.antt =====
-- `Unmarshal` of utils/utils.go on the first fields of a struct, whatever the rest does: for the
-- callers that hand it a slice too short for the whole struct.
-- The fields `todo` are set from their own bytes; the walk goes on behind them.
use file_system_forensics.Base.{
  [], ap, arith, drop, drop-drop, inl, inr, refl, ℕ, ◌++◌, ◌+◌, ◌-◌, ◌∙◌, ◌∷◌, ◌≡◌, ◌≤◌,
}
use file_system_forensics.Go.{Slice, len}
use file_system_forensics.Utils.Layout.{Fits, decode, layout, size, width}
use file_system_forensics.Utils.Layout.Reading.{
  Has-width, Reads-cases, member-Reads, unmarshal_leave, unmarshal_set,
}
use file_system_forensics.Utils.Unmarshal.{
  Member, Struct, Tag, Value, classify, nested_value, unmarshal, unmarshal_from,
}
use mathlib.Core.List.{append-nil, append_assoc}
use native.Mathlib.Nat.{zero-add}

unmarshal_from-prefix :
    (s : Slice) (todo more done : Struct) (idx : ℕ)
    → idx ≤ len s
    → Fits (len s - idx) todo
    → unmarshal_from nested_value s done (todo ++ more) idx
      ≡ unmarshal_from nested_value s
          (done ++ layout (drop idx s.bytes) todo)
          more
          (idx + size todo)
unmarshal_from-prefix s [] more done idx p f =
    let e : idx + 0 ≡ idx = omega arith in rw (e, append-nil done) refl
unmarshal_from-prefix s (m ∷ todo) more done idx p f =
    let tag : Tag = classify m.name in
    let w : ℕ = width m.kind tag in
    let v : Value = decode m.kind tag m.value (drop idx s.bytes) in
    let room : idx + w ≤ len s = omega (arith, Has-width m.kind tag (len s - idx) f.0) in
    let seam : drop w (drop idx s.bytes) ≡ drop (idx + w) s.bytes =
      drop-drop idx w (idx + w) s.bytes refl in
    let left : len s - idx - w ≡ len s - (idx + w) = omega arith in
    let rest : Fits (len s - (idx + w)) todo = rw left at f.1 in
    let m' : Member = record m { value = v } in
    let e : idx + w + size todo ≡ idx + size (m ∷ todo) = omega arith in
    let same : unmarshal_from nested_value s (done ++ (m' ∷ [])) (todo ++ more) (idx + w)
        ≡ unmarshal_from nested_value s (done ++ layout (drop idx s.bytes) (m ∷ todo)) more
            (idx + size (m ∷ todo)) =
      unmarshal_from-prefix s todo more (done ++ (m' ∷ [])) (idx + w) room rest
      ∙ rw (append_assoc done (m' ∷ []) (layout (drop (idx + w) s.bytes) todo), seam, e) refl in
    elim (Reads-cases _ m.value v (idx + w)
      (member-Reads m.kind tag s (done ++ (m ∷ (todo ++ more))) idx m.value p f.0)) [
        | inl r ↦ unmarshal_set s done (todo ++ more) m idx (idx + w) p v r ∙ same
        | inr (r, kept) ↦
            let unset : m ≡ m' = λ i. record m { value = kept i } in
            unmarshal_leave s done (todo ++ more) m idx (idx + w) p r
            ∙ ap
                (λ (x : Member).
                  unmarshal_from nested_value s (done ++ (x ∷ [])) (todo ++ more) (idx + w))
                unset
            ∙ same
      ]

-- The fields that have their bytes are set from them, and then the walk meets the others.
pub unmarshal-prefix :
    (s : Slice) (front more : Struct)
    → Fits (len s) front
    → unmarshal s (front ++ more)
      ≡ unmarshal_from nested_value s (layout s.bytes front) more (size front)
unfolding unmarshal
unmarshal-prefix s front more f =
    let whole : len s ≡ len s - 0 = omega arith in
    unmarshal_from-prefix s front more [] 0 (omega arith) (rw whole at f)
    ∙ ap (unmarshal_from nested_value s (layout s.bytes front) more) (zero-add (size front))
