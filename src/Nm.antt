-- ===== src/Nm.antt =====
-- nvptx-nm.cc, the lister of symbols.
pub mod Symbol
pub mod Marker
pub mod Process
pub mod Display
pub mod Main
pub mod Agreement
