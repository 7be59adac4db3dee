-- ===== src/Utils.antt =====
-- utils/utils.go: the byte-order helpers, and `Unmarshal`, which every on-disk structure goes through.
pub mod Endian
pub mod Unmarshal
pub mod Layout
