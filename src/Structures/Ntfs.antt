-- ===== src/Structures/Ntfs.antt =====
-- The on-disk structures of FS/NTFS: records, attributes, index nodes and the change journal, as `Unmarshal` sees
-- them: each field with its name and its kind, in the order of the Go struct.
use file_system_forensics.Base.{[], ◌∷◌}
use file_system_forensics.Utils.Unmarshal.{
  Struct, array, boolean, byte, int16, int64, member, pointer, skipped, structure, uint16, uint32,
  uint64, uint8,
}

-- Record of FS/NTFS/MFT/MFT.go.
unfoldable pub mft_record : Struct
mft_record =
    member "Signature" (array byte 4)
    ∷ member "UpdateFixUpArrOffset" uint16
    ∷ member "UpdateFixUpArrSize" uint16
    ∷ member "Lsn" uint64
    ∷ member "Seq" uint16
    ∷ member "Linkcount" uint16
    ∷ member "AttrOff" uint16
    ∷ member "Flags" uint16
    ∷ member "Size" uint32
    ∷ member "AllocSize" uint32
    ∷ member "BaseRef" uint64
    ∷ member "NextAttrID" uint16
    ∷ member "F1" uint16
    ∷ member "Entry" uint32
    ∷ member "FixUp" pointer
    ∷ member "Attributes" skipped
    ∷ member "LinkedRecordsInfo" skipped
    ∷ member "LinkedRecords" skipped
    ∷ member "OriginLinkedRecord" pointer
    ∷ member "I30LSize" uint64
    ∷ member "I30PSize" uint64
    ∷ member "Parent" pointer
    ∷ member "FixupMismatch" boolean
    ∷ []

-- AttributeHeader of FS/NTFS/MFT/attributes/attributes.go.
unfoldable pub attribute_header : Struct
attribute_header =
    member "Type" uint32
    ∷ member "AttrLen" uint16
    ∷ member "Uknown" (array byte 2)
    ∷ member "NoNResident" uint8
    ∷ member "Nlen" uint8
    ∷ member "NameOff" uint16
    ∷ member "Flags" uint16
    ∷ member "ID" uint16
    ∷ member "ATRrecordResident" pointer
    ∷ member "ATRrecordNoNResident" pointer
    ∷ []

-- ATRrecordResident of FS/NTFS/MFT/attributes/attributes.go.
unfoldable pub atr_record_resident : Struct
atr_record_resident =
    member "ContentSize" uint32
    ∷ member "OffsetContent" uint16
    ∷ member "IdxFlags" uint16
    ∷ member "Name" skipped
    ∷ []

-- ATRrecordNoNResident of FS/NTFS/MFT/attributes/attributes.go.
unfoldable pub atr_record_non_resident : Struct
atr_record_non_resident =
    member "StartVcn" uint64
    ∷ member "LastVcn" uint64
    ∷ member "RunOff" uint16
    ∷ member "Compusize" uint16
    ∷ member "F1" uint32
    ∷ member "AllocatedLength" uint64
    ∷ member "ActualLength" uint64
    ∷ member "InitLength" uint64
    ∷ member "RunList" pointer
    ∷ member "RunListTotalLenCl" uint64
    ∷ []

-- FNAttribute of FS/NTFS/MFT/attributes/fnattr.go.
unfoldable pub fn_attribute : Struct
fn_attribute =
    member "ParRef" uint64
    ∷ member "ParSeq" uint16
    ∷ member "Crtime" (structure "WindowsTime")
    ∷ member "Mtime" (structure "WindowsTime")
    ∷ member "MFTmtime" (structure "WindowsTime")
    ∷ member "Atime" (structure "WindowsTime")
    ∷ member "AllocFsize" uint64
    ∷ member "RealFsize" uint64
    ∷ member "Flags" uint32
    ∷ member "Reparse" uint32
    ∷ member "Nlen" uint8
    ∷ member "Nspace" uint8
    ∷ member "Fname" skipped
    ∷ member "HexFlag" boolean
    ∷ member "UnicodeHack" boolean
    ∷ member "Header" pointer
    ∷ []

-- AttributeList of FS/NTFS/MFT/attributes/attrlist.go.
unfoldable pub attribute_list : Struct
attribute_list =
    member "Type" (array byte 4)
    ∷ member "Len" uint16
    ∷ member "Namelen" uint8
    ∷ member "Nameoffset" uint8
    ∷ member "StartVcn" uint64
    ∷ member "ParRef" uint64
    ∷ member "ParSeq" uint16
    ∷ member "ID" uint8
    ∷ member "Name" skipped
    ∷ []

-- NodeHeader of FS/NTFS/MFT/attributes/indexallocation.go.
unfoldable pub node_header : Struct
node_header =
    member "OffsetEntryList" uint32
    ∷ member "OffsetEndUsedEntryList" uint32
    ∷ member "OffsetEndEntryListBuffer" uint32
    ∷ member "Flags" uint32
    ∷ []

-- IndexAllocation of FS/NTFS/MFT/attributes/indexallocation.go.
unfoldable pub index_allocation : Struct
index_allocation =
    member "Signature" (array byte 4)
    ∷ member "FixupArrayOffset" uint16
    ∷ member "NumFixupEntries" uint16
    ∷ member "LSN" int64
    ∷ member "VCN" int64
    ∷ member "Nodeheader" pointer
    ∷ member "IndexEntries" skipped
    ∷ member "FixUp" pointer
    ∷ []

-- IndexEntry of FS/NTFS/MFT/attributes/indexroot.go.
unfoldable pub index_entry : Struct
index_entry =
    member "ParRef" uint64
    ∷ member "ParSeq" uint16
    ∷ member "Len" uint16
    ∷ member "ContentLen" uint16
    ∷ member "Flags" uint32
    ∷ member "ChildVCN" uint64
    ∷ member "Fnattr" pointer
    ∷ []

-- IndexRoot of FS/NTFS/MFT/attributes/indexroot.go.
unfoldable pub index_root : Struct
index_root =
    member "Type" (array byte 4)
    ∷ member "CollationSortingRule" (array byte 4)
    ∷ member "Sizebytes" uint32
    ∷ member "Sizeclusters" uint8
    ∷ member "Nodeheader" pointer
    ∷ member "Header" pointer
    ∷ member "IndexEntries" skipped
    ∷ []

-- SIAttribute of FS/NTFS/MFT/attributes/siattr.go.
unfoldable pub si_attribute : Struct
si_attribute =
    member "Crtime" (structure "WindowsTime")
    ∷ member "Mtime" (structure "WindowsTime")
    ∷ member "MFTmtime" (structure "WindowsTime")
    ∷ member "Atime" (structure "WindowsTime")
    ∷ member "FileAttributes" uint32
    ∷ member "Maxver" uint32
    ∷ member "Ver" uint32
    ∷ member "ClassID" uint32
    ∷ member "OwnID" uint32
    ∷ member "SecID" uint32
    ∷ member "Quota" uint64
    ∷ member "USN" uint64
    ∷ member "Header" pointer
    ∷ []

-- ObjectID of FS/NTFS/MFT/attributes/objectid.go.
unfoldable pub object_id : Struct
object_id =
    member "ObjGUID" (array byte 16)
    ∷ member "OrigVolGUID" (array byte 16)
    ∷ member "OrigObjGUID" (array byte 16)
    ∷ member "OrigDomGUID" (array byte 16)
    ∷ member "Header" pointer
    ∷ []

-- VolumeInfo of FS/NTFS/MFT/attributes/volattributes.go.
unfoldable pub volume_info : Struct
volume_info =
    member "F1" uint64
    ∷ member "MajVer" uint8
    ∷ member "MinVer" uint8
    ∷ member "Flags" uint16
    ∷ member "F2" uint32
    ∷ member "Header" pointer
    ∷ []

-- Reparse of FS/NTFS/MFT/attributes/reparse.go.
unfoldable pub reparse : Struct
reparse =
    member "Flags" (array byte 4)
    ∷ member "Size" uint16
    ∷ member "Unused" (array byte 2)
    ∷ member "Data" skipped
    ∷ member "Header" pointer
    ∷ member "Symbolink" pointer
    ∷ []

-- SymbolikReparse of FS/NTFS/MFT/attributes/reparse.go.
unfoldable pub symbolik_reparse : Struct
symbolik_reparse =
    member "SubstituteNameOffset" uint16
    ∷ member "SubstituteNameLen" uint16
    ∷ member "PrintNameOffset" int16
    ∷ member "PrintNameLen" uint16
    ∷ member "Flags" (array byte 4)
    ∷ member "Header" pointer
    ∷ member "Name" skipped
    ∷ member "PrintName" skipped
    ∷ []

-- EA_INFORMATION of FS/NTFS/MFT/attributes/eaattr.go.
unfoldable pub ea_information : Struct
ea_information =
    member "SizeOfEntry" uint16
    ∷ member "NofEA" uint16
    ∷ member "Size" uint32
    ∷ member "Header" pointer
    ∷ []

-- ExtendedAttribute of FS/NTFS/MFT/attributes/eaattr.go.
unfoldable pub extended_attribute : Struct
extended_attribute =
    member "NextAttrOffset" skipped
    ∷ member "Flags" uint8
    ∷ member "NofChars" uint8
    ∷ member "DataSize" uint16
    ∷ member "Name" skipped
    ∷ member "Value" skipped
    ∷ member "Header" pointer
    ∷ []

-- TXFDATA of FS/NTFS/MFT/attributes/loggedutility.go.
unfoldable pub txf_data : Struct
txf_data =
    member "ParRef" uint64
    ∷ member "ParSeq" uint16
    ∷ member "Flags" (array byte 8)
    ∷ member "USN" uint64
    ∷ member "TxId" uint64
    ∷ member "LSN_NTFS_Metadata" uint64
    ∷ member "LSN_User_Data" uint64
    ∷ member "LSN_Directory_Index" uint64
    ∷ []

-- Record of FS/NTFS/usnjrnl/usnjrnl.go.
unfoldable pub usn_record : Struct
usn_record =
    member "Length" uint32
    ∷ member "MajorVer" uint16
    ∷ member "MinorVer" uint16
    ∷ member "EntryRef" uint64
    ∷ member "EntrySeq" uint16
    ∷ member "ParRef" uint64
    ∷ member "ParSeq" uint16
    ∷ member "USN" uint64
    ∷ member "EventTime" (structure "WindowsTime")
    ∷ member "ReasonFlag" uint32
    ∷ member "SourceInfo" uint32
    ∷ member "SecurityId" uint32
    ∷ member "FileAttrs" uint32
    ∷ member "FnameLen" uint16
    ∷ member "FnameOffset" uint16
    ∷ member "Fname" skipped
    ∷ []

-- VBR of disk/volume/ntfs.go.
unfoldable pub vbr : Struct
vbr =
    member "JumpInstruction" (array byte 3)
    ∷ member "Signature" (array byte 4)
    ∷ member "NotUsed1" (array byte 4)
    ∷ member "BytesPerSector" uint16
    ∷ member "SectorsPerCluster" uint8
    ∷ member "NotUsed2" (array byte 26)
    ∷ member "TotalSectors" uint64
    ∷ member "MFTOffset" uint64
    ∷ member "MFTMirrOffset" uint64
    ∷ []
