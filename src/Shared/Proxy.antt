-- ===== src/Shared/Proxy.antt =====
-- shared/src/proxy.rs: the packets between the proxy server and the client that hosts a Minecraft
-- server, as far as `SocketPacket` carries them. Keys, challenges and signatures are byte arrays.
use craftip_crosscompiletest.Prelude.{ℕ, List}
use craftip_crosscompiletest.Shared.Utf8.{RustString}
use craftip_crosscompiletest.Shared.Minecraft.{MinecraftDataPacket, MinecraftHelloPacket}

pub record ServerPublicKey : Type 0 where
  pub key : List ℕ

pub data ProxyAuthenticator : Type 0 where
  public_key : ServerPublicKey → ProxyAuthenticator

pub record ProxyHelloPacket : Type 0 where
  pub version : ℕ
  pub hostname : RustString
  pub auth : ProxyAuthenticator

pub record ProxyConnectedResponse : Type 0 where
  pub version : ℕ

pub record ProxyDataPacket : Type 0 where
  pub client_id : ℕ
  pub packet : MinecraftDataPacket

-- Packets that the file declares, and that no other code of the repository uses.
pub data ProxyHandshakeResponse : Type 0 where
  connection_successful : ProxyHandshakeResponse
  handshake_refused : RustString → ProxyHandshakeResponse

pub data ProxyAuthRequestPacket : Type 0 where
  challenge_for_key : List ℕ → ProxyAuthRequestPacket

pub data ProxyAuthResponePacket : Type 0 where
  signature_of_key : List ℕ → ProxyAuthResponePacket

pub record ProxyClientJoinPacket : Type 0 where
  pub client_id : ℕ

pub record ProxyClientDisconnectPacket : Type 0 where
  pub client_id : ℕ

-- `ProxyClientJoinPacket::new` and `ProxyClientDisconnectPacket::new`
unfoldable pub join_packet : ℕ → ProxyClientJoinPacket
join_packet id = record { client_id = id }

unfoldable pub disconnect_packet : ℕ → ProxyClientDisconnectPacket
disconnect_packet id = record { client_id = id }

-- `ProxyDataPacket::new`
unfoldable pub data_packet : MinecraftDataPacket → ℕ → ProxyDataPacket
data_packet packet client_id = record { client_id = client_id; packet = packet }

-- `ProxyDataPacket::from_mc_hello_packet`
unfoldable pub from_mc_hello_packet : MinecraftHelloPacket → ℕ → ProxyDataPacket
from_mc_hello_packet packet client_id = record {
  client_id = client_id;
  packet = record { body = packet.body };
}

-- `MinecraftDataPacket::from(packet)`
unfoldable pub to_data_packet : ProxyDataPacket → MinecraftDataPacket
to_data_packet packet = packet.packet

-- `ProxyDataPacket::from(packet)`, which names client 0.
unfoldable pub of_data_packet : MinecraftDataPacket → ProxyDataPacket
of_data_packet packet = record { client_id = 0; packet = packet }
