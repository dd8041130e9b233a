-- ===== src/Shared.antt =====
-- shared/src: the packets, their parsers and the codec that both the server and the client use.
pub mod Config
pub mod Datatypes
pub mod Bytes
pub mod Utf8
pub mod Cursor
pub mod Minecraft
pub mod Proxy
pub mod SocketPacket
pub mod PacketCodec
pub mod Crypto
pub mod Addressing
