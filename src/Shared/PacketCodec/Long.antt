-- ===== src/Shared/PacketCodec/Long.antt =====
-- A packet that is too long for the length field of its frame (`packet.len() as u16` in
-- `SocketPacket::encode` of shared/src/socket_packet.rs), and what shared/src/packet_codec.rs makes of it.
use craftip_crosscompiletest.Shared.SocketPacket.{SocketPacket}
