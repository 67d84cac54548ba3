-- ===== src/Ld.antt =====
-- nvptx-ld.cc, the linker.
pub mod Symbol
pub mod Marker
pub mod Process
pub mod Resolve
pub mod Scan
pub mod Special
pub mod Archive
pub mod Main
pub mod Correct
