-- ===== src/Tests.antt =====
-- Concrete inputs on which the theorems about each part apply.
mod Reading
mod Ntfs
mod Walk
mod Table
mod Area
mod Volumes
mod Lists
mod Btrfs
mod Trees
mod Bitlocker
mod Views
