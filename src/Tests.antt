-- ===== src/Tests.antt =====
-- Runs of the model on concrete inputs, and the theorems at such inputs.
pub mod Setup
pub mod Snapshot
pub mod Commit
pub mod Others
pub mod Sets
pub mod Threads
pub mod ModLog
pub mod ModMem
pub mod ModCb
pub mod SlidingWindow
pub mod Gc
pub mod HashTable
pub mod Barrier
pub mod NbbList
pub mod Wrappers
pub mod MemAlloc
