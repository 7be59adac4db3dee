-- ===== src/Lib.antt =====
-- File System Forensics reads disks: it finds partitions (MBR, GPT), opens volumes, decrypts BitLocker
-- sectors, and parses the metadata of NTFS and BTRFS out of byte buffers. Disk bytes come from a
-- DiskReader; nearly every structure is filled by `Unmarshal` from utils/utils.go, which walks a Go
-- struct by reflection; the MFT package turns 1024-byte records into a table, whose records refer to
-- each other by number and sequence; the content of a file is read through its run list.
--
-- Base and its children hold what every part shares: Boolean tests, lists measured by native numbers,
-- masks of bytes, integers. Go holds Go's own behaviour: slices with their capacity, panics and errors
-- as the values of `Result`. In `Result`, `stuck` is no outcome of Go but the end of the fuel.
--
-- Which file models which part:
--   Utils/Endian     utils/utils.go: ToUint16, ToUint32, ReadEndianInt, ReadEndianUInt, Bytereverse
--   Utils/Unmarshal  utils/utils.go: Unmarshal, a struct as the list of its fields
--   Utils/Layout     the layout of a struct, told without the loop of Unmarshal
--   Structures       the on-disk structs of FS/NTFS, FS/BTRFS and disk, field by field
--   Ntfs/Runs        FS/NTFS/MFT/attributes/attributes.go: RunList.Process; MFT.go: GetAllocatedClusters
--   Ntfs/Content     FS/NTFS/MFT/attributes/attributes.go: GetContent
--   Ntfs/FixUp       FS/NTFS/MFT/MFT.go: ProcessFixUpArrays and the check of the last two bytes
--   Ntfs/Attribute   FS/NTFS/MFT/attributes/attributes.go: attribute headers
--   Ntfs/Record      FS/NTFS/MFT/MFT.go: Record.Process
--   Ntfs/Bitmap      FS/NTFS/MFT/MFT.go: the bits of GetClustersStatus
--   Ntfs/Table       FS/NTFS/MFT/Table.go: lookup, parents, links, workers
--   Ntfs/Area        disk/volume/ntfs.go: CollectMFTArea, ProcessMFT; MFT.go: GetRunList
--   Ntfs/AttrList    FS/NTFS/MFT/attributes/attrlist.go
--   Ntfs/Index       FS/NTFS/MFT/attributes/indexroot.go, indexallocation.go
--   Ntfs/Usn         FS/NTFS/usnjrnl/usnjrnl.go
--   Btrfs/Chunks     disk/volume/btrfs.go: ParseSystemChunks, UpdateChunkMaps,
--                    LocatePhysicalOffsetSize; FS/BTRFS/attributes/chunkitem.go, key.go
--   Btrfs/Nodes      FS/BTRFS/genericnode.go, leafnode/structures.go, internalnode/structures.go
--   Btrfs/Trees      disk/volume/btrfs.go: DiscoverTrees
--   Btrfs/Descent    disk/volume/btrfs.go: CreateNode, ParseTreeNode; FS/BTRFS/btrfs.go: Stack
--   Bitlocker/Xts    disk/Bitlocker/decryption/aes-xts.go
--   Bitlocker/Ccm    disk/Bitlocker/decryption/aes-ccm.go
--   Bitlocker/Reader readers/reader_decrypting.go
--   Bitlocker/Datums disk/Bitlocker/datums: the entries, CreateDatum, nested master keys
--   Bitlocker/Metadata  disk/Bitlocker/metadata.go: ParseEntries; bitlocker.go: Volume.Process
--   Bitlocker/Keys   disk/Bitlocker/bitlocker.go: StretchKey, DeriveKeyFromRecoveryKey
--   Bitlocker/Unlock disk/Bitlocker/bitlocker.go: DecryptVMK, DecryptFVEK, Decrypt
--   Disk/Mbr         disk/partition/MBR/mbr.go
--   Disk/Gpt         disk/partition/GPT/gpt.go
--   Views/Filters    FS/metadata.go, filters/filters.go, filtermanager/manager.go
--   Views/Tree       tree/builder.go: Tree.Build
--   Tests            concrete inputs
--
-- Fuel: RunList.Process takes two bytes a round and LocatePartitions sixteen, so the length of the
-- input is enough, and both are given it; ProcessMFT takes a record a round. The walk over the attributes has its fuel as an argument,
-- since its 16-bit pointer can wrap; so have the loops over attribute lists, index nodes, the change
-- journal and system chunks, and the descent into a BTRFS tree, which a damaged disk can make endless.
-- The loops over BitLocker entries get the length of the input plus one, as entries have at least
-- eight bytes, and master keys nest no deeper. All other loops recurse on their input.
--
-- A Go map is the list of its pairs in the order of an iteration, and what is said of it is said of
-- every order, but for the map of BTRFS trees, which is its lookup function; the stack of BTRFS nodes is a list whose last element is the top.
--
-- Words keep their wrap-around (`% 2 ^ w`); signed values that `Unmarshal` reads are bit patterns;
-- cluster offsets are unbounded integers, and so are the sizes that are summed up before a read.
-- A destination slice is at most 2 ^ 63 bytes long.
--
-- Parameters: the disk reader, AES with its CBC and counter modes, the string functions of Go, the
-- parsers of attribute contents and of BTRFS data items, SHA-256 and the CRC. Goroutines are a
-- sequence of their bodies in the order in which they run; what two of them do at once to one counter,
-- and a worker that panics, is left out.
--
-- Not modelled: the contents of the other attributes beyond their layouts, the log file and shadow
-- copy loops, the map of files of a BTRFS tree and LVM, which are further parsers of the same kind;
-- DecryptData of BitLocker, which has no effect; and reports, export, logging, signatures, the command
-- line and system calls, which are input and output.
pub mod Base
pub mod Go
pub mod Utils
pub mod Structures
pub mod Ntfs
pub mod Bitlocker
pub mod Disk
pub mod Btrfs
pub mod Views
pub mod Tests
