-- ===== src/Utils.antt =====
-- utils.h and utils.cc: splitting text, and the texts that the loader logs and writes.
pub mod Split
pub mod Hex
pub mod Show
