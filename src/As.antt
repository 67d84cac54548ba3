-- ===== src/As.antt =====
-- nvptx-as.cc, the assembler of PTX.
pub mod Token
pub mod Preamble
pub mod Order
pub mod Statement
pub mod Parse
pub mod Process
pub mod Main
