-- ===== src/Structures/Disk.antt =====
-- The on-disk structures of disk: partition tables, software RAID and LVM labels, as `Unmarshal` sees
-- them: each field with its name and its kind, in the order of the Go struct.
use file_system_forensics.Base.{[], ◌∷◌}
use file_system_forensics.Utils.Unmarshal.{
  Struct, array, byte, int64, member, pointer, skipped, uint16, uint32, uint64, uint8,
}

-- GPTHeader of disk/partition/GPT/gpt.go.
unfoldable pub gpt_header : Struct
gpt_header =
    member "StartSignature" (array byte 8)
    ∷ member "Revision" (array byte 4)
    ∷ member "HeaderSize" uint32
    ∷ member "HeaderCRC" uint32
    ∷ member "Reserved" (array byte 4)
    ∷ member "CurrentLBA" uint64
    ∷ member "BackupLBA" uint64
    ∷ member "FirstUsableLBA" uint64
    ∷ member "LastUsableLBA" uint64
    ∷ member "DiskGUID" (array byte 16)
    ∷ member "PartitionsStartLBA" uint64
    ∷ member "NofPartitions" uint32
    ∷ member "PartitionSize" uint32
    ∷ member "PartionArrayCRC" uint32
    ∷ member "Reserved2" (array byte 418)
    ∷ member "EndSignature" (array byte 2)
    ∷ []

-- Partition of disk/partition/GPT/gpt.go.
unfoldable pub gpt_partition : Struct
gpt_partition =
    member "PartitionTypeGUID" (array byte 16)
    ∷ member "PartitionGUID" (array byte 16)
    ∷ member "StartLBA" uint64
    ∷ member "EndLBA" uint64
    ∷ member "Atttributes" (array byte 8)
    ∷ member "Name" skipped
    ∷ member "Volume" skipped
    ∷ member "Raid" pointer
    ∷ member "BitLockerVolume" pointer
    ∷ []

-- MBR of disk/partition/MBR/mbr.go.
unfoldable pub mbr_sector : Struct
mbr_sector =
    member "BootCode" (array byte 446)
    ∷ member "Partitions" skipped
    ∷ member "ExtendedPartitions" skipped
    ∷ member "Signature" skipped
    ∷ []

-- Partition of disk/partition/MBR/mbr.go.
unfoldable pub mbr_partition : Struct
mbr_partition =
    member "Flag" uint8
    ∷ member "StartCHS" (array byte 3)
    ∷ member "Type" uint8
    ∷ member "EndCHS" (array byte 3)
    ∷ member "StartLBA" uint32
    ∷ member "Size" uint32
    ∷ member "Volume" skipped
    ∷ []

-- Superblock of disk/raid/mdraid.go.
unfoldable pub raid_superblock : Struct
raid_superblock =
    member "Magic" (array byte 4)
    ∷ member "MajorVersion" uint32
    ∷ member "FeatureMap" uint32
    ∷ member "Pad0" (array byte 4)
    ∷ member "UUID" (array byte 16)
    ∷ member "RaidName" (array byte 32)
    ∷ member "CTime" uint64
    ∷ member "RaidLevel" uint32
    ∷ member "RaidLayout" uint32
    ∷ member "Size" uint64
    ∷ member "ChunkSize" uint32
    ∷ member "DevicesNum" uint32
    ∷ member "Uknown" (array byte 32)
    ∷ member "DataOffset" uint64
    ∷ member "DataSize" uint64
    ∷ member "SuperOffset" uint64
    ∷ member "Uknown2" (array byte 8)
    ∷ member "DevNum" uint32
    ∷ member "NofCorrectedReads" uint32
    ∷ member "DeviceUUID" (array byte 16)
    ∷ member "DeviceFlags" uint8
    ∷ member "BBlogShift" uint8
    ∷ member "BBlogSize" uint16
    ∷ member "BBlogOffset" uint32
    ∷ member "UTime" uint64
    ∷ member "Events" uint64
    ∷ member "ReSyncOffset" uint64
    ∷ member "SBChksum" (array byte 4)
    ∷ member "MaxDevices" uint32
    ∷ member "Pad32" (array byte 32)
    ∷ member "DevRoles" skipped
    ∷ []

-- PhysicalVolLabelHeader of disk/volume/lvm.go.
unfoldable pub physical_vol_label_header : Struct
physical_vol_label_header =
    member "Signature" (array byte 8)
    ∷ member "SectorNum" uint64
    ∷ member "Chksum" (array byte 4)
    ∷ member "HeaderSize" uint32
    ∷ member "IndicatorType" (array byte 8)
    ∷ []

-- PhysicalVolHeader of disk/volume/lvm.go.
unfoldable pub physical_vol_header : Struct
physical_vol_header =
    member "UUID" (array byte 32)
    ∷ member "VolSize" uint64
    ∷ member "DataAreaDescriptors" skipped
    ∷ []

-- DataAreaDescriptor of disk/volume/lvm.go.
unfoldable pub data_area_descriptor : Struct
data_area_descriptor = member "OffsetB" int64 ∷ member "LenB" uint64 ∷ []

-- MetadataAreaHeader of disk/volume/lvm.go.
unfoldable pub metadata_area_header : Struct
metadata_area_header =
    member "Chksum" (array byte 4)
    ∷ member "Signature" (array byte 16)
    ∷ member "Version" uint32
    ∷ member "Offset" int64
    ∷ member "Size" int64
    ∷ member "RawLocationDescriptors" skipped
    ∷ []

-- RawLocationDescriptor of disk/volume/lvm.go.
unfoldable pub raw_location_descriptor : Struct
raw_location_descriptor =
    member "Offset" int64
    ∷ member "Len" uint64
    ∷ member "Chksum" (array byte 4)
    ∷ member "Flags" uint64
    ∷ []
