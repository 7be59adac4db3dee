-- ===== src/Views/Filters/Selection.antt =====
-- What a chain of filters (filtermanager) selects.
use file_system_forensics.Base.{
  Bool, List, [], false, length, not, refl, true, ◌&&◌, ◌||◌, ◌∷◌, ◌≡◌, ◌≤◌,
}
use file_system_forensics.Utils.Endian.{filter_by}
use file_system_forensics.Views.Filters.{
  Filter, RecordView, deleted_filter, entries_filter, extensions_filter, folders_filter,
  name_filter, orphans_filter, path_filter, prefixes_suffixes_filter,
}

module _ {A : Type 0} where
  filter_by-same :
      (f g : A → Bool) (xs : List A) → ((x : A) → f x ≡ g x) → filter_by f xs ≡ filter_by g xs
  unfolding filter_by
  filter_by-same f g [] h = refl
  filter_by-same f g (x ∷ xs) h = rw (h x, filter_by-same f g xs h) refl

module _ {R S : Type 0} (view : RecordView R S) where
  unfoldable pub all_affixes : List S → List S → R → Bool
  all_affixes [] suffixes r = true
  all_affixes (p ∷ prefixes) [] r = false
  all_affixes (p ∷ prefixes) (s ∷ suffixes) r =
      (view.has_prefix r p && view.has_suffix r s) && all_affixes prefixes suffixes r

  -- What a filter asks of one record.
  unfoldable pub passes : Filter S → R → Bool
  unfolding all_affixes
  passes (name_filter filenames) r = view.has_filenames r filenames
  passes (path_filter path) r = view.has_path r path
  passes (orphans_filter include) r = not include || (view.is_deleted r && view.has_parent r)
  passes (deleted_filter include) r = not include || view.is_deleted r
  passes (folders_filter include) r = include || not (view.is_folder r)
  passes (prefixes_suffixes_filter prefixes suffixes) r = all_affixes prefixes suffixes r
  passes _ r = false

  unfoldable pub passes_all : List (Filter S) → R → Bool
  unfolding passes
  passes_all [] r = true
  passes_all (f ∷ filters) r = passes f r && passes_all filters r

-- The filters that only select: not those that gather by a list of extensions or of numbers; and
-- every prefix has its suffix.
abbrev pub IsSelecting : {S : Type 0} → Filter S → Type 0
IsSelecting (extensions_filter extensions) = ⊥
IsSelecting (entries_filter entries) = ⊥
IsSelecting (prefixes_suffixes_filter prefixes suffixes) = length prefixes ≤ length suffixes
IsSelecting _ = Unit {0}
