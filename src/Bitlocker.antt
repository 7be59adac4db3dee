-- ===== src/Bitlocker.antt =====
-- disk/Bitlocker/decryption and readers/reader_decrypting.go: decryption of BitLocker volumes. AES,
-- Go's crypto/aes, is a parameter.
pub mod Xts
pub mod Reader
pub mod Ccm
pub mod Datums
pub mod Metadata
pub mod Keys
pub mod Unlock
