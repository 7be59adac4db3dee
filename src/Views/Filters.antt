-- ===== src/Views/Filters.antt =====
-- The filters: FS/metadata.go, filters/filters.go and filtermanager. The tests that a file system's
-- records offer are the interface `RecordView`; S is the type of strings.
pub mod Selection
use file_system_forensics.Base.{Bool, List, [], if◌then◌else◌, not, ◌&&◌, ◌++◌, ◌∷◌}
use file_system_forensics.Base.Int.{ℤ, ◌==ℤ◌}
use file_system_forensics.Go.{Result, crash, ok, ◌>>=◌}
use file_system_forensics.Utils.Endian.{filter_by}

-- The methods of `Record` (FS/metadata.go) that filters call.
pub record RecordView (R S : Type 0) : Type 0 where
  pub has_filename_extension : R → S → Bool
  pub has_filenames : R → List S → Bool
  pub has_path : R → S → Bool
  pub has_parent : R → Bool
  pub has_suffix : R → S → Bool
  pub has_prefix : R → S → Bool
  pub is_deleted : R → Bool
  pub is_folder : R → Bool
  pub get_id : R → ℤ

-- The structs that implement `Filter`, but for the one that reads signatures from the disk.
pub data Filter (S : Type 0) : Type 0 where
  name_filter : List S → Filter S
  path_filter : S → Filter S
  extensions_filter : List S → Filter S
  orphans_filter deleted_filter folders_filter : Bool → Filter S
  prefixes_suffixes_filter : List S → List S → Filter S
  entries_filter : List ℤ → Filter S

module _ {R S : Type 0} (view : RecordView R S) where
  -- `FilterByExtensions`: the records with the first extension, then those with the next.
  unfoldable pub filter_by_extensions : List S → List R → List R
  unfolding filter_by
  filter_by_extensions [] records = []
  filter_by_extensions (extension ∷ rest) records =
      filter_by (λ r. view.has_filename_extension r extension) records
      ++ filter_by_extensions rest records

  -- The loop of `EntriesFilter` with `FilterByEntries`.
  unfoldable pub filter_by_entries : List ℤ → List R → List R
  unfolding filter_by
  filter_by_entries [] records = []
  filter_by_entries (entry ∷ rest) records =
      filter_by (λ r. view.get_id r ==ℤ entry) records ++ filter_by_entries rest records

  -- The loop of `PrefixesSuffixesFilter`: a prefix without its suffix is an index out of range.
  unfoldable pub filter_by_prefixes : List S → List S → List R → Result (List R)
  unfolding filter_by
  filter_by_prefixes [] suffixes records = ok records
  filter_by_prefixes (prefix ∷ prefixes) [] records = crash
  filter_by_prefixes (prefix ∷ prefixes) (suffix_ ∷ suffixes) records =
      filter_by_prefixes prefixes suffixes
        (filter_by (λ r. view.has_prefix r prefix && view.has_suffix r suffix_) records)

  -- `Execute` of each filter.
  unfoldable pub execute : Filter S → List R → Result (List R)
  unfolding filter_by filter_by_extensions filter_by_entries filter_by_prefixes
  execute (name_filter filenames) records =
      ok (filter_by (λ r. view.has_filenames r filenames) records)
  execute (path_filter path) records = ok (filter_by (λ r. view.has_path r path) records)
  execute (extensions_filter extensions) records = ok (filter_by_extensions extensions records)
  execute (orphans_filter include) records =
      ok (
        if include
        then filter_by (λ r. view.is_deleted r && view.has_parent r) records
        else records)
  execute (deleted_filter include) records =
      ok (if include then filter_by (λ r. view.is_deleted r) records else records)
  execute (folders_filter include) records =
      ok (if not include then filter_by (λ r. not (view.is_folder r)) records else records)
  execute (prefixes_suffixes_filter prefixes suffixes) records =
      filter_by_prefixes prefixes suffixes records
  execute (entries_filter entries) records = ok (filter_by_entries entries records)

  -- `FilterManager.ApplyFilters`.
  unfoldable pub apply_filters : List (Filter S) → List R → Result (List R)
  unfolding execute
  apply_filters [] records = ok records
  apply_filters (f ∷ filters) records = execute f records >>= λ left. apply_filters filters left
