-- ===== src/Execute.antt =====
-- DynLoader::Execute and DynLoader::Run: from the loaded binaries to the jump to the entry point.
pub mod Init
pub mod Stack
pub mod Tls
pub mod Run
