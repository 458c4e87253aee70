-- ===== src/State.antt =====
-- internal/state/state.go: the persisted state, its file and its transactions.
pub mod Types
pub mod Migrate
pub mod Disk
pub mod Store
