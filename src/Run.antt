-- ===== src/Run.antt =====
-- nvptx-run.cc: the options, the parts of the program, and the default stack size.
pub mod Parts
pub mod Stack
pub mod Switch
