-- ===== src/Tests.antt =====
-- Runs of the code at concrete inputs, and the theorems at concrete inputs.
pub mod Crates
pub mod Parsing
pub mod Reading
pub mod Serving
pub mod Joining
pub mod Window
pub mod Accounts
pub mod Starting
pub mod Installing
pub mod Sessions
pub mod Editing
pub mod Tunnelled
pub mod Handshakes
