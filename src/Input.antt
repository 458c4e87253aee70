-- ===== src/Input.antt =====
-- internal/input and internal/inputbridge: the phone as a remote control.
pub mod Keys
pub mod Control
pub mod Pointer
pub mod Device
pub mod Dispatch
pub mod Door
pub mod Eviction
mod Tests
