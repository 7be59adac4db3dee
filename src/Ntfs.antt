-- ===== src/Ntfs.antt =====
-- FS/NTFS/MFT: run lists, records and the table of records.
pub mod Runs
pub mod FixUp
pub mod Attribute
pub mod Content
pub mod Bitmap
pub mod Record
pub mod Table
pub mod Area
pub mod AttrList
pub mod Index
pub mod Usn
