-- ===== src/Cloud.antt =====
-- internal/cloud/cloud.go: accounts, login sessions and the files of the users, and the handlers over
-- them.
pub mod Accounts
pub mod FileNames
pub mod Files
mod Tests
