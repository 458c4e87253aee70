-- ===== src/State/Disk.antt =====
-- internal/state/state.go: `saveLocked`, `copyFileAtomic`, `load` and `readStateFile`, over a disk
-- on which any system call may fail and the power may go after any of them.
pub mod Calls
pub mod Save
pub mod Load
pub mod Crash
pub mod Recovery
mod Tests
