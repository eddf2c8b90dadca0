-- ===== src/Loader/Queue.antt =====
-- The queue of LoadDependingLibs: what is loaded when it is empty.
pub mod Closed
pub mod Quiet
pub mod Ends
pub mod Reach
pub mod Paths
pub mod Extends
pub mod History
