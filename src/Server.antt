-- ===== src/Server.antt =====
-- server/src: the public server, which takes connections of Minecraft clients and of proxy clients.
pub mod Socket
pub mod Distributor
pub mod ProxyHandler
pub mod ClientHandler
pub mod ProcessSocket
pub mod Main
pub mod Sessions
