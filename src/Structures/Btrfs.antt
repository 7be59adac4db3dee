-- ===== src/Structures/Btrfs.antt =====
-- The on-disk structures of FS/BTRFS and disk/volume/btrfs.go: nodes, items and the superblock, as `Unmarshal` sees
-- them: each field with its name and its kind, in the order of the Go struct.
use file_system_forensics.Base.{[], ◌∷◌}
use file_system_forensics.Utils.Unmarshal.{
  Struct, array, byte, member, pointer, skipped, structure, uint16, uint32, uint64, uint8,
}

-- Key of FS/BTRFS/genericnode.go.
unfoldable pub generic_key : Struct
generic_key = member "ObjectID" uint64 ∷ member "ItemType" uint8 ∷ member "Offset" uint64 ∷ []

-- Header of FS/BTRFS/genericnode.go.
unfoldable pub node_head : Struct
node_head =
    member "Chksum" (array byte 32)
    ∷ member "FsUUID" (array byte 16)
    ∷ member "LogicalAddressNode" uint64
    ∷ member "Flags" (array byte 7)
    ∷ member "BackRef" uint8
    ∷ member "ChunkTreeUUID" (array byte 16)
    ∷ member "Generation" uint64
    ∷ member "Owner" uint64
    ∷ member "NofItems" uint32
    ∷ member "Level" uint8
    ∷ []

-- Item of FS/BTRFS/leafnode/structures.go.
unfoldable pub leaf_item : Struct
leaf_item = member "Key" pointer ∷ member "DataOffset" uint32 ∷ member "DataLen" uint32 ∷ []

-- Key of FS/BTRFS/internalnode/structures.go.
unfoldable pub internal_key : Struct
internal_key = member "ObjectID" uint64 ∷ member "ItemType" uint8 ∷ member "Offset" uint64 ∷ []

-- BlockPointer of FS/BTRFS/internalnode/structures.go.
unfoldable pub block_pointer : Struct
block_pointer =
    member "Key" pointer ∷ member "LogicalAddressRefHeader" uint64 ∷ member "Generation" uint64 ∷ []

-- ExtentItem of FS/BTRFS/attributes/extentitem.go.
unfoldable pub extent_item : Struct
extent_item =
    member "RefCount" uint64
    ∷ member "Generation" uint64
    ∷ member "Flags" uint64
    ∷ member "InlineRef" pointer
    ∷ member "ExtentDataRef" pointer
    ∷ member "ExtentDataRefKey" pointer
    ∷ []

-- ExtentDataRef of FS/BTRFS/attributes/extentitem.go.
unfoldable pub extent_data_ref : Struct
extent_data_ref =
    member "Root" uint64
    ∷ member "ObjectID" uint64
    ∷ member "Offset" uint64
    ∷ member "Count" uint32
    ∷ []

-- InlineRef of FS/BTRFS/attributes/extentitem.go.
unfoldable pub inline_ref : Struct
inline_ref = member "Type" uint8 ∷ member "Offset" uint64 ∷ []

-- Key of FS/BTRFS/attributes/key.go.
unfoldable pub item_key : Struct
item_key = member "ObjectID" uint64 ∷ member "ItemType" uint8 ∷ member "Offset" uint64 ∷ []

-- RootRef of FS/BTRFS/attributes/rootref.go.
unfoldable pub root_ref : Struct
root_ref =
    member "DirID" uint64
    ∷ member "Index" uint64
    ∷ member "Length" uint16
    ∷ member "Name" skipped
    ∷ []

-- RootBackRef of FS/BTRFS/attributes/rootref.go.
unfoldable pub root_back_ref : Struct
root_back_ref =
    member "DirID" uint64
    ∷ member "Index" uint64
    ∷ member "Length" uint16
    ∷ member "Name" skipped
    ∷ []

-- InodeRef of FS/BTRFS/attributes/inoderef.go.
unfoldable pub inode_ref : Struct
inode_ref = member "Index" uint64 ∷ member "Length" uint16 ∷ member "Name" skipped ∷ []

-- DevExtentItem of FS/BTRFS/attributes/devextent.go.
unfoldable pub dev_extent_item : Struct
dev_extent_item =
    member "ChunkTree" uint64
    ∷ member "ChunkObjectID" uint64
    ∷ member "ChunkOffset" uint64
    ∷ member "Length" uint64
    ∷ member "UUID" (array byte 16)
    ∷ []

-- DevItem of FS/BTRFS/attributes/devitem.go.
unfoldable pub dev_item : Struct
dev_item =
    member "DeviceID" uint64
    ∷ member "NofBytes" uint64
    ∷ member "NofUsedBytes" uint64
    ∷ member "OptimalIOAlignment" uint32
    ∷ member "OptimalIOWidth" uint32
    ∷ member "MinimailIOSize" uint32
    ∷ member "Type" uint64
    ∷ member "Generation" uint64
    ∷ member "StartOffset" uint64
    ∷ member "DevGroup" uint32
    ∷ member "SeekSpeed" uint8
    ∷ member "Bandwidth" uint8
    ∷ member "DeviceUUID" (array byte 16)
    ∷ member "FilesystemUUID" (array byte 16)
    ∷ []

-- ExtentData of FS/BTRFS/attributes/extentdata.go.
unfoldable pub extent_data : Struct
extent_data =
    member "Generation" uint64
    ∷ member "DecodedSize" uint64
    ∷ member "Compression" uint8
    ∷ member "Encryption" uint8
    ∷ member "OtherEncoding" uint16
    ∷ member "Type" uint8
    ∷ member "ExtentDataRem" pointer
    ∷ member "InlineData" skipped
    ∷ []

-- ExtentDataRem of FS/BTRFS/attributes/extentdata.go.
unfoldable pub extent_data_rem : Struct
extent_data_rem =
    member "LogicalAddress" uint64
    ∷ member "Psize" uint64
    ∷ member "Offset" uint64
    ∷ member "LSize" uint64
    ∷ []

-- BlockGroupItem of FS/BTRFS/attributes/blockgroupitem.go.
unfoldable pub block_group_item : Struct
block_group_item = member "Used" uint64 ∷ member "ChunkObjectID" uint64 ∷ member "Flags" uint64 ∷ []

-- RootItem of FS/BTRFS/attributes/rootitem.go.
unfoldable pub root_item : Struct
root_item =
    member "Inode" pointer
    ∷ member "Generation" uint64
    ∷ member "RootDirID" uint64
    ∷ member "Bytenr" uint64
    ∷ member "ByteLimit" uint64
    ∷ member "BytesUsed" uint64
    ∷ member "LastSnapshot" uint64
    ∷ member "Flags" uint64
    ∷ member "Refs" uint32
    ∷ member "DropProgress" pointer
    ∷ member "DropLevel" uint8
    ∷ member "Level" uint8
    ∷ member "GenV2" uint64
    ∷ member "Uuid" (array byte 16)
    ∷ member "ParentUuid" (array byte 16)
    ∷ member "ReceivedUuid" (array byte 16)
    ∷ member "CtransID" uint64
    ∷ member "OtransID" uint64
    ∷ member "StransID" uint64
    ∷ member "RtransID" uint64
    ∷ member "ATime" (structure "TimeSpec")
    ∷ member "CTime" (structure "TimeSpec")
    ∷ member "MTime" (structure "TimeSpec")
    ∷ member "OTime" (structure "TimeSpec")
    ∷ []

-- ChunkItem of FS/BTRFS/attributes/chunkitem.go.
unfoldable pub chunk_item : Struct
chunk_item =
    member "Size" uint64
    ∷ member "Owner" uint64
    ∷ member "StripeLen" uint64
    ∷ member "Type" uint64
    ∷ member "OptimalIOAlignment" uint32
    ∷ member "OptimalIOWidth" uint32
    ∷ member "MinimalIOSize" uint32
    ∷ member "NofStripes" uint16
    ∷ member "NofSubStripes" uint16
    ∷ member "Stripes" skipped
    ∷ []

-- ChunkItemStripe of FS/BTRFS/attributes/chunkitem.go.
unfoldable pub chunk_item_stripe : Struct
chunk_item_stripe =
    member "DeviceID" uint64 ∷ member "Offset" uint64 ∷ member "DeviceUUID" (array byte 16) ∷ []

-- DirIndex of FS/BTRFS/attributes/dirindex.go.
unfoldable pub dir_index : Struct
dir_index =
    member "Transid" uint64
    ∷ member "DataLen" uint16
    ∷ member "NameLen" uint16
    ∷ member "Type" uint8
    ∷ member "Name" skipped
    ∷ []

-- InodeItem of FS/BTRFS/attributes/inodeitem.go.
unfoldable pub inode_item : Struct
inode_item =
    member "Generation" uint64
    ∷ member "Transid" uint64
    ∷ member "StSize" uint64
    ∷ member "StBlock" uint64
    ∷ member "BlockGroup" uint64
    ∷ member "StNlink" uint32
    ∷ member "StUid" uint32
    ∷ member "StGid" uint32
    ∷ member "StMode" uint32
    ∷ member "StRdev" uint64
    ∷ member "Flags" uint64
    ∷ member "Sequence" uint64
    ∷ member "Reserved" (array byte 32)
    ∷ member "ATime" (structure "TimeSpec")
    ∷ member "CTime" (structure "TimeSpec")
    ∷ member "MTime" (structure "TimeSpec")
    ∷ member "OTime" (structure "TimeSpec")
    ∷ []

-- DirItem of FS/BTRFS/attributes/diritem.go.
unfoldable pub dir_item : Struct
dir_item =
    member "Transid" uint64
    ∷ member "DataLen" uint16
    ∷ member "NameLen" uint16
    ∷ member "Type" uint8
    ∷ member "Name" skipped
    ∷ member "XattValue" skipped
    ∷ []

-- Superblock of disk/volume/btrfs.go.
unfoldable pub superblock : Struct
superblock =
    member "Chksum" (array byte 32)
    ∷ member "UUID" (array byte 16)
    ∷ member "PhysicalAddress" uint64
    ∷ member "Flags" uint64
    ∷ member "Signature" (array byte 8)
    ∷ member "Generation" uint64
    ∷ member "LogicalAddressRootTree" uint64
    ∷ member "LogicalAddressRootChunkTree" uint64
    ∷ member "LogicalAddressLogRootTree" uint64
    ∷ member "LogRootTransid" uint64
    ∷ member "VolumeSizeB" uint64
    ∷ member "VolumeUsedSizeB" uint64
    ∷ member "ObjectID" uint64
    ∷ member "NofVolumeDevices" uint64
    ∷ member "SectorSize" uint32
    ∷ member "NodeSize" uint32
    ∷ member "LeafSize" uint32
    ∷ member "StripeSize" uint32
    ∷ member "SystemChunkArrSize" uint32
    ∷ member "ChunkRootGeneration" uint64
    ∷ member "CompatFlags" uint64
    ∷ member "CompatROFlags" uint64
    ∷ member "InCompatFlags" uint64
    ∷ member "CsumType" uint16
    ∷ member "RootLevel" uint8
    ∷ member "ChunkRootLevel" uint8
    ∷ member "LogRootLevel" uint8
    ∷ member "DevItemArea" (array byte 98)
    ∷ member "Label" (array byte 256)
    ∷ member "Reserved" (array byte 256)
    ∷ member "SystemChunkArr" (array byte 2048)
    ∷ []
