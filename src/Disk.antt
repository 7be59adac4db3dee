-- ===== src/Disk.antt =====
-- disk: partition tables.
pub mod Mbr
pub mod Gpt
