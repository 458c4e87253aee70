-- ===== src/Server.antt =====
-- internal/server: the handlers, and the state that they share.
pub mod App
pub mod Pairing
pub mod Devices
pub mod GameServers
pub mod Modes
pub mod Cloud
pub mod Icons
pub mod Apps
pub mod Shortcuts
pub mod CloudAccounts
pub mod System
pub mod Routes
