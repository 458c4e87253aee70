-- ===== src/Servers.antt =====
-- internal/servers/servers.go: the registry of game servers and their life cycle. A critical section
-- of the manager's mutex is one function; what runs outside the mutex (the executor, sleeping, the
-- callback) is an argument or a result.
pub mod Manager
pub mod Stopping
pub mod Polling
pub mod Players
pub mod Steps
pub mod Guard
pub mod Stale
mod Tests
