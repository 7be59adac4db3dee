-- ===== src/Ntfs/Attribute.antt =====
-- Attribute headers of FS/NTFS/MFT/attributes/attributes.go: the type names, the predicates on
-- them, and the resident and non-resident parts of a header.
use file_system_forensics.Base.{Bool, Bytes, List, [], false, if◌then◌else◌, true, ℕ, ◌==◌, ◌||◌}
use file_system_forensics.Ntfs.Runs.{Run}
use file_system_forensics.Utils.Unmarshal.{Struct, get_num}

-- The names of `AttrTypes`; a type without a name prints as its number.
pub data AttrType : Type 0 where
  standard_information attribute_list_type file_name object_id_type security_descriptor : AttrType
  volume_name volume_information data_stream index_root_type index_allocation_type : AttrType
  bit_map reparse_point ea_information_type extended_attribute_type : AttrType
  logged_utility_stream txf_data_type last unknown : AttrType

-- `GetType`.
unfoldable pub attr_type : ℕ → AttrType
attr_type t =
    if t == 0x10
    then standard_information
    else if t == 0x20
    then attribute_list_type
    else if t == 0x30
    then file_name
    else if t == 0x40
    then object_id_type
    else if t == 0x50
    then security_descriptor
    else if t == 0x60
    then volume_name
    else if t == 0x70
    then volume_information
    else if t == 0x80
    then data_stream
    else if t == 0x90
    then index_root_type
    else if t == 0xa0
    then index_allocation_type
    else if t == 0xb0
    then bit_map
    else if t == 0xc0
    then reparse_point
    else if t == 0xd0 || t == 0xf0
    then ea_information_type
    else if t == 0xe0
    then extended_attribute_type
    else if t == 0x100
    then logged_utility_stream
    else if t == 0x110
    then txf_data_type
    else if t == 0xffffffff
    then last
    else unknown

-- `IsLast`.
unfoldable pub is_last : AttrType → Bool
is_last last = true
is_last _ = false

-- The types that `Process` parses when they are resident, and those that it keeps when they are not.
unfoldable pub is_known_resident : AttrType → Bool
is_known_resident index_allocation_type = false
is_known_resident txf_data_type = false
is_known_resident last = false
is_known_resident unknown = false
is_known_resident _ = true

unfoldable pub is_known_non_resident : AttrType → Bool
is_known_non_resident data_stream = true
is_known_non_resident index_allocation_type = true
is_known_non_resident bit_map = true
is_known_non_resident attribute_list_type = true
is_known_non_resident reparse_point = true
is_known_non_resident extended_attribute_type = true
is_known_non_resident _ = false

-- AttributeHeader without its two pointers.
pub record Header : Type 0 where
  pub type_code : ℕ
  pub attr_len : ℕ
  pub non_resident : ℕ
  pub nlen : ℕ
  pub name_off : ℕ

unfoldable pub header_of : Struct → Header
unfolding get_num
header_of fields = record {
  type_code = get_num "Type" fields;
  attr_len = get_num "AttrLen" fields;
  non_resident = get_num "NoNResident" fields;
  nlen = get_num "Nlen" fields;
  name_off = get_num "NameOff" fields;
}

-- `IsNoNResident`.
unfoldable pub is_non_resident : Header → Bool
is_non_resident h = h.non_resident == 1

-- ATRrecordResident; its name as the UTF-16 bytes.
pub record Resident : Type 0 where
  pub content_size : ℕ
  pub offset_content : ℕ
  pub name : Bytes

-- ATRrecordNoNResident; no run list is the empty one.
pub record NonResident : Type 0 where
  pub start_vcn : ℕ
  pub last_vcn : ℕ
  pub run_off : ℕ
  pub actual_length : ℕ
  pub run_list : List Run
  pub run_list_total_len_cl : ℕ

unfoldable pub non_resident_of : Struct → NonResident
unfolding get_num
non_resident_of fields = record {
  start_vcn = get_num "StartVcn" fields;
  last_vcn = get_num "LastVcn" fields;
  run_off = get_num "RunOff" fields;
  actual_length = get_num "ActualLength" fields;
  run_list = [];
  run_list_total_len_cl = 0;
}

-- The attribute that `SetHeader` completes: its header's part and what `Parse` made of its content,
-- which waits for the clusters where the attribute is not resident.
pub data Attribute (Body : Type 0) : Type 0 where
  resident : Header → Resident → Body → Attribute Body
  non_resident : Header → NonResident → Attribute Body
