-- ===== src/Filesystem.antt =====
-- Programs that ask what a directory holds.
pub mod Listing
