-- ===== src/Server/Socket.antt =====
-- What a task of server/src gets from its socket and its channels, and what it sends. A send that can
-- fail has a flag in the event that causes it.
use craftip_crosscompiletest.Shared.Minecraft.{MinecraftDataPacket}
use craftip_crosscompiletest.Shared.SocketPacket.{SocketPacket}
use craftip_crosscompiletest.Shared.Addressing.{Channel, ClientToProxy}

-- `frames.next().await`: `Some(Ok(packet))`, `Some(Err(_))` or `None`.
pub data Received : Type 0 where
  packet : SocketPacket → Received
  failed : Received
  ended : Received

-- A packet on the socket, a packet to the task of a Minecraft client, or a message to the handler of
-- a proxy client.
pub data Output : Type 0 where
  frame : SocketPacket → Output
  to_minecraft : Channel → MinecraftDataPacket → Output
  to_proxy : Channel → ClientToProxy → Output
