-- ===== src/Btrfs.antt =====
-- BTRFS volumes: FS/BTRFS and disk/volume/btrfs.go.
pub mod Chunks
pub mod Nodes
pub mod Descent
pub mod Trees
