-- ===== src/Structures/Bitlocker.antt =====
-- The structures of a BitLocker volume: disk/Bitlocker/datums, metadata.go and bitlocker.go.
-- DatumHeader of disk/Bitlocker/datums/datums.go.
use file_system_forensics.Base.{[], ◌∷◌}
use file_system_forensics.Utils.Unmarshal.{
  Struct, array, byte, double, member, pointer, skipped, structure, uint16, uint32, uint64, uint8,
}

unfoldable pub datum_header : Struct
datum_header =
    member "EntrySize" uint16
    ∷ member "EntryType" uint16
    ∷ member "ValueType" uint16
    ∷ member "Version" uint16
    ∷ member "Raw" skipped
    ∷ []

-- FVEKey of disk/Bitlocker/datums/datums.go.
unfoldable pub fve_key : Struct
fve_key =
    member "Header" pointer
    ∷ member "EncryptionMethod" (array byte 4)
    ∷ member "KeyData" skipped
    ∷ []

-- FVEStretchKey of disk/Bitlocker/datums/datums.go.
unfoldable pub fve_stretch_key : Struct
fve_stretch_key =
    member "Header" pointer
    ∷ member "EncryptionMethod" (array byte 4)
    ∷ member "Salt" (array byte 16)
    ∷ member "EncryptedKey" skipped
    ∷ []

-- FVEUseKey of disk/Bitlocker/datums/datums.go.
unfoldable pub fve_use_key : Struct
fve_use_key = member "Header" pointer ∷ member "Algorithm" uint16 ∷ member "Padding" uint16 ∷ []

-- FVEExternalKey of disk/Bitlocker/datums/datums.go.
unfoldable pub fve_external_key : Struct
fve_external_key =
    member "Header" pointer
    ∷ member "KeyIdentifier" (array byte 16)
    ∷ member "LastModificationTime" (structure "WindowsTime")
    ∷ member "Properties" skipped
    ∷ []

-- FVEVolumeHeaderBlock of disk/Bitlocker/datums/datums.go.
unfoldable pub fve_volume_header_block : Struct
fve_volume_header_block =
    member "Header" pointer
    ∷ member "BlockOffset" uint64
    ∷ member "BlockSize" uint64
    ∷ member "Unknown1" uint16
    ∷ member "Unknown2" uint16
    ∷ member "AdditionalData" skipped
    ∷ []

-- FVEVolumeMasterKey of disk/Bitlocker/datums/vmk.go.
unfoldable pub fve_volume_master_key : Struct
fve_volume_master_key =
    member "Header" pointer
    ∷ member "KeyIdentifier" (array byte 16)
    ∷ member "LastModificationTime" (structure "WindowsTime")
    ∷ member "Unknown" uint16
    ∷ member "ProtectionType" uint16
    ∷ member "Datums" skipped
    ∷ []

-- FVEMetadataBlockHeaderV2 of disk/Bitlocker/metadata.go.
unfoldable pub fve_metadata_block_header_v2 : Struct
fve_metadata_block_header_v2 =
    member "Signature" (array byte 8)
    ∷ member "Size" uint16
    ∷ member "Version" uint16
    ∷ member "ProtectionStatus" uint16
    ∷ member "ProtectionStatusCopy" uint16
    ∷ member "EncryptedVolumeSize" uint64
    ∷ member "ConvertSize" uint32
    ∷ member "NumberOfHeaderSectors" uint32
    ∷ member "FVEMetadataOffsets" (array double 3)
    ∷ member "VolumeHeaderOffset" uint64
    ∷ member "DataSets" pointer
    ∷ []

-- FVEMetadataHeaderV1 of disk/Bitlocker/metadata.go; FVEMetadataHeaderV3 has the same fields.
unfoldable pub fve_metadata_header : Struct
fve_metadata_header =
    member "MetadataSize" uint32
    ∷ member "Version" uint32
    ∷ member "MetadataHeaderSize" uint32
    ∷ member "MetadataSizeCopy" uint32
    ∷ member "VolumeIdentifier" (array byte 16)
    ∷ member "NextNonceCounter" uint32
    ∷ member "EncryptionMethod" (array byte 4)
    ∷ member "CreationTime" (structure "WindowsTime")
    ∷ []

-- VolumeHeaderWindows7 of disk/Bitlocker/bitlocker.go.
unfoldable pub volume_header_windows7 : Struct
volume_header_windows7 =
    member "BootEntryPoint" (array byte 3)
    ∷ member "FileSystemSignature" (array byte 8)
    ∷ member "BytesPerSector" uint16
    ∷ member "SectorsPerCluster" uint8
    ∷ member "ReservedSectors" uint16
    ∷ member "FATs" uint8
    ∷ member "RootDirEntries" uint16
    ∷ member "TotalSectors16" uint16
    ∷ member "MediaDescriptor" uint8
    ∷ member "SectorsPerFAT" uint16
    ∷ member "SectorsPerTrack" uint16
    ∷ member "NumberOfHeads" uint16
    ∷ member "HiddenSectors" uint32
    ∷ member "TotalSectors32" uint32
    ∷ member "SectorsPerFAT32" uint32
    ∷ member "FATFlags" uint16
    ∷ member "Version" uint16
    ∷ member "RootDirCluster" uint32
    ∷ member "FSInfoSector" uint16
    ∷ member "BackupBootSector" uint16
    ∷ member "Reserved" (array byte 12)
    ∷ member "PhysicalDriveNumber" uint8
    ∷ member "ReservedByte" uint8
    ∷ member "ExtendedBootSig" uint8
    ∷ member "VolumeSerialNumber" uint32
    ∷ member "VolumeLabel" (array byte 11)
    ∷ member "FileSystemType" (array byte 8)
    ∷ member "Bootcode" (array byte 70)
    ∷ member "BitLockerID" (array byte 16)
    ∷ member "FVEMetadataOffsets" (array double 3)
    ∷ member "AdditionalBootcode" (array byte 307)
    ∷ member "UnknownBytes" (array byte 3)
    ∷ member "BootSignature" (array byte 2)
    ∷ []

-- BitlockerValidations of disk/Bitlocker/bitlocker.go.
unfoldable pub bitlocker_validations : Struct
bitlocker_validations = member "Size" uint16 ∷ member "Version" uint16 ∷ member "Crc32" uint32 ∷ []
