-- ===== src/Structures/Journal.antt =====
-- The on-disk structures of FS/NTFS/LogFile and FS/NTFS/VSS: the log file and the shadow copies, as `Unmarshal` sees
-- them: each field with its name and its kind, in the order of the Go struct.
use file_system_forensics.Base.{[], ◌∷◌}
use file_system_forensics.Utils.Unmarshal.{
  Struct, array, byte, int64, member, pointer, skipped, structure, uint16, uint32, uint64,
}

-- LogRecordHeader of FS/NTFS/LogFile/logrecords.go.
unfoldable pub log_record_header : Struct
log_record_header =
    member "LSN" uint64
    ∷ member "PreviousLSN" uint64
    ∷ member "UndoNextLSN" uint64
    ∷ member "ClientDataLength" uint32
    ∷ member "ClientSeqNumber" uint16
    ∷ member "ClientID" uint16
    ∷ member "RecordType" uint32
    ∷ member "TranscationID" uint32
    ∷ member "Flags" uint16
    ∷ member "Reserved" (array byte 6)
    ∷ []

-- LogRecord of FS/NTFS/LogFile/logrecords.go.
unfoldable pub log_record : Struct
log_record =
    member "RedoOperation" uint16
    ∷ member "UndoOperation" uint16
    ∷ member "RedoOffset" uint16
    ∷ member "RedoLength" uint16
    ∷ member "UndoOffset" uint16
    ∷ member "UndoLength" uint16
    ∷ member "TargetAttributeOffset" uint16
    ∷ member "LCNsTOFollow" uint16
    ∷ member "RecordOffset" uint16
    ∷ member "AttributeOffset" uint16
    ∷ member "MFTClusterIndex" uint16
    ∷ member "Reserved1" (array byte 2)
    ∷ member "TargetVCN" uint32
    ∷ member "Reserved2" (array byte 4)
    ∷ member "TargetLCN" uint32
    ∷ member "Reserved3" (array byte 4)
    ∷ []

-- RSTR of FS/NTFS/LogFile/rstr.go.
unfoldable pub rstr : Struct
rstr =
    member "Signature" (array byte 4)
    ∷ member "UpdateFixUpArrOffset" uint16
    ∷ member "UpdateFixUpArrSize" uint16
    ∷ member "CheckDiskLSN" uint64
    ∷ member "SystemPageSize" uint32
    ∷ member "LogPageSize" uint32
    ∷ member "RestartAreaOffset" uint16
    ∷ member "MinorVersion" uint16
    ∷ member "MajorVersion" uint16
    ∷ member "FixUp" pointer
    ∷ member "RestartAreas" skipped
    ∷ []

-- RestartAreaHeader of FS/NTFS/LogFile/rstr.go.
unfoldable pub restart_area_header : Struct
restart_area_header =
    member "CurrentLSN" uint64
    ∷ member "LogClientCount" uint16
    ∷ member "ClientFreeList" uint16
    ∷ member "ClientInUseList" uint16
    ∷ member "Flags" uint16
    ∷ member "SeqNumberBits" uint32
    ∷ member "ClientArrayLength" uint16
    ∷ member "ClientArrayOffset" uint16
    ∷ member "FileSize" uint64
    ∷ member "LastLSNDataLen" uint32
    ∷ member "LogRecordHeaderLen" uint16
    ∷ member "LogPageDataOffset" uint16
    ∷ member "RestartLogOpenCount" uint32
    ∷ member "ClientRecords" skipped
    ∷ []

-- ClientRecord of FS/NTFS/LogFile/rstr.go.
unfoldable pub client_record : Struct
client_record =
    member "OldestLSN" uint64
    ∷ member "RestartLSN" uint64
    ∷ member "PrevClient" uint16
    ∷ member "NextClient" uint16
    ∷ member "SeqNumber" uint16
    ∷ member "Reserved" (array byte 6)
    ∷ member "ClientNameLength" uint32
    ∷ member "ClientName" skipped
    ∷ []

-- RCRD of FS/NTFS/LogFile/rcrd.go.
unfoldable pub rcrd : Struct
rcrd =
    member "Signature" (array byte 4)
    ∷ member "UpdateFixUpArrOffset" uint16
    ∷ member "UpdateFixUpArrSize" uint16
    ∷ member "LastLSNORFileOffset" uint64
    ∷ member "Flags" uint32
    ∷ member "PageCount" uint16
    ∷ member "PagePosition" uint16
    ∷ member "NextRecordOffset" uint16
    ∷ member "Reserved1" (array byte 6)
    ∷ member "LastEndLSN" uint64
    ∷ member "LogRecordHeaders" skipped
    ∷ member "FixUp" pointer
    ∷ []

-- StoreHeader of FS/NTFS/VSS/store.go.
unfoldable pub store_header : Struct
store_header =
    member "VssGUID" (array byte 16)
    ∷ member "Version" uint32
    ∷ member "RecordType" uint32
    ∷ member "ShadowOffset" uint64
    ∷ member "CurrentOffset" uint64
    ∷ member "NextOffset" uint64
    ∷ member "StoreSize" uint64
    ∷ member "Uknown" (array byte 72)
    ∷ []

-- StoreBlockDescriptor of FS/NTFS/VSS/store.go.
unfoldable pub store_block_descriptor : Struct
store_block_descriptor =
    member "OriginalDataBlockOffset" uint64
    ∷ member "ShadowDataBlockOffset" uint64
    ∷ member "StoreDataBlockOffset" uint64
    ∷ member "Flags" uint32
    ∷ member "AllocationBitmap" (array byte 4)
    ∷ []

-- StoreInfo of FS/NTFS/VSS/store.go.
unfoldable pub store_info : Struct
store_info =
    member "UknownGUID" (array byte 16)
    ∷ member "ShadowCopyGUID" (array byte 16)
    ∷ member "ShadowCopySetGUID" (array byte 16)
    ∷ member "SnapshotContext" (array byte 4)
    ∷ member "Uknown1" (array byte 4)
    ∷ member "AttributeFlags" uint32
    ∷ member "Uknown2" (array byte 4)
    ∷ member "OperatingMachineNameSize" uint16
    ∷ member "OperatingMachineName" skipped
    ∷ member "ServiceMachineNameSize" uint16
    ∷ member "ServiceMachineName" skipped
    ∷ []

-- StoreBlockRangeEntry of FS/NTFS/VSS/store.go.
unfoldable pub store_block_range_entry : Struct
store_block_range_entry =
    member "StartOffset" uint64 ∷ member "ShadowOffset" uint64 ∷ member "RangeSize" uint64 ∷ []

-- Header of FS/NTFS/VSS/shadow.go.
unfoldable pub shadow_header : Struct
shadow_header =
    member "GUID" (array byte 16)
    ∷ member "Version" uint32
    ∷ member "RecordType" uint32
    ∷ member "CurrentOffset" uint64
    ∷ member "Uknown" (array byte 16)
    ∷ member "CatalogOffset" int64
    ∷ member "MaxSize" uint64
    ∷ member "VolumeID" (array byte 16)
    ∷ member "ShadowCopyStorageVolumeID" (array byte 16)
    ∷ []

-- CatalogHeader of FS/NTFS/VSS/shadow.go.
unfoldable pub catalog_header : Struct
catalog_header =
    member "VssGUID" (array byte 16)
    ∷ member "Version" uint32
    ∷ member "RecordType" uint32
    ∷ member "ShadowOffset" int64
    ∷ member "CurrentOffset" int64
    ∷ member "NextOffset" int64
    ∷ []

-- CatalogEntry1 of FS/NTFS/VSS/shadow.go.
unfoldable pub catalog_entry1 : Struct
catalog_entry1 = member "EntryType" uint64 ∷ member "Uknown" (array byte 120) ∷ []

-- CatalogEntry2 of FS/NTFS/VSS/shadow.go.
unfoldable pub catalog_entry2 : Struct
catalog_entry2 =
    member "EntryType" uint64
    ∷ member "VolumeSize" uint64
    ∷ member "StoreGUID" (array byte 16)
    ∷ member "Uknown" (array byte 16)
    ∷ member "CreationTime" (structure "WindowsTime")
    ∷ member "Uknown2" (array byte 72)
    ∷ []

-- CatalogEntry3 of FS/NTFS/VSS/shadow.go.
unfoldable pub catalog_entry3 : Struct
catalog_entry3 =
    member "EntryType" uint64
    ∷ member "StoreBlockListOffset" uint64
    ∷ member "StoreGUID" (array byte 16)
    ∷ member "StoreHeaderOffset" uint64
    ∷ member "StoreBlockRangeListOffset" uint64
    ∷ member "StoreBitmapOffset" uint64
    ∷ member "ParRef" uint64
    ∷ member "ParSeq" uint16
    ∷ member "AllocatedSize" uint64
    ∷ member "StorePrevBitmapOffset" uint64
    ∷ member "Uknown" (array byte 48)
    ∷ []
