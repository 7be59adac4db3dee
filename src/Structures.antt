-- ===== src/Structures.antt =====
-- The on-disk structures that `Unmarshal` of utils/utils.go fills, by the part of the program.
pub mod Ntfs
pub mod Journal
pub mod Btrfs
pub mod Disk
pub mod Bitlocker
