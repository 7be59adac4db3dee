-- ===== src/Views.antt =====
-- What is done with the records of any file system: FS/metadata.go, filters, filtermanager, tree.
pub mod Filters
pub mod Tree
