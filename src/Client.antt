-- ===== src/Client.antt =====
-- The modules for client/src.
pub mod Structs
pub mod Connect
pub mod Tunnel
pub mod View
pub mod Races
pub mod Connection
pub mod Main
