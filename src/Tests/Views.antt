-- ===== src/Tests/Views.antt =====
-- Inputs for the filters and the directory tree.
use mathlib.Core.List.Permᴰ
use file_system_forensics.Base.{List, [], false, if◌then◌else◌, ltb, true, ℕ, ◌%◌, ◌==◌, ◌∷◌}
use file_system_forensics.Base.Int.{pos, ℤ}
use file_system_forensics.Utils.Endian.{filter_by}
use file_system_forensics.Views.Filters.{
  Filter, RecordView, folders_filter, orphans_filter, prefixes_suffixes_filter,
}
use file_system_forensics.Views.Tree.{Node, TreeView, build, children, collect}
use file_system_forensics.Views.Tree.Order.{build-rearranged, is_child_of, is_orphan}
use mathlib.Core.List.{Permᴰ, reverse}

abbrev number : ℕ → ℤ
number n = pos n

-- Records that are told by their number alone: even ones are deleted, and have every name.
abbrev numbers_view : RecordView ℕ ℕ
numbers_view = record {
  has_filename_extension = λ r s. r == s;
  has_filenames = λ r names. true;
  has_path = λ r s. ltb s r;
  has_parent = λ r. ltb 3 r;
  has_suffix = λ r s. true;
  has_prefix = λ r s. ltb r s;
  is_deleted = λ r. r % 2 == 0;
  is_folder = λ r. r == 6;
  get_id = number;
}

abbrev chain : List (Filter ℕ)
chain =
    orphans_filter true ∷ folders_filter false ∷ prefixes_suffixes_filter (9 ∷ []) (0 ∷ 1 ∷ []) ∷ []

-- Number 5 is the root, 8 lies under 7, and the parent of 9 is not there.
abbrev parents_view : TreeView ℕ
parents_view = record {
  get_id = number;
  is_base = λ r. true;
  get_parent_id = λ r. if r == 8 then number 7 else if r == 9 then number 77 else number 5;
}

abbrev listing : List ℕ
listing = 5 ∷ 7 ∷ 8 ∷ 9 ∷ []

abbrev backwards : List (Node ℕ) → List (Node ℕ)
backwards nodes = reverse nodes

collected_backwards :
    Permᴰ (backwards (collect parents_view listing [])) (collect parents_view listing [])
collected_backwards = Permᴰ.reverse (collect parents_view listing [])

build-rearranged_example :
    Permᴰ
      (build parents_view backwards listing).orphaned_nodes
      (filter_by (is_orphan (collect parents_view listing [])) (collect parents_view listing []))
    × Permᴰ (children (build parents_view backwards listing).links (number 7)) (
        filter_by
          (is_child_of (collect parents_view listing []) (number 7))
          (collect parents_view listing []))
build-rearranged_example =
    build-rearranged parents_view backwards listing (number 7) collected_backwards
