-- ===== src/Shared/Addressing.antt =====
-- shared/src/addressing.rs and the channel messages of shared/src/socket_packet.rs.
-- A channel is named by a number, which stands for its sender and its receiver alike; a `SocketAddr`
-- is named by a number too, since the program only compares addresses.
use craftip_crosscompiletest.Prelude.{ℕ, []}
use craftip_crosscompiletest.Prelude.Maps.{HashMap}
use craftip_crosscompiletest.Shared.Utf8.{RustString}
use craftip_crosscompiletest.Shared.Minecraft.{MinecraftDataPacket}

abbrev pub Channel : Type 0
Channel = ℕ

abbrev pub SocketAddr : Type 0
SocketAddr = ℕ

-- The text of an `UnknownError` and the `io::Error` of an `IoError` are left out.
pub data DistributorError : Type 0 where
  client_not_found : DistributorError
  server_not_found : RustString → DistributorError
  server_already_connected : DistributorError
  server_not_connected : RustString → DistributorError
  auth_error timeout wrong_packet too_many_clients unknown_error io_error : DistributorError

-- Which channel leads to the handler of a host name.
pub record Register : Type 0 where
  pub servers : HashMap RustString Channel

-- `Register::new`
unfoldable pub register_new : Register
register_new = record { servers = [] }

pub data ClientToProxy : Type 0 where
  packet : SocketAddr → MinecraftDataPacket → ClientToProxy
  add_minecraft_client : SocketAddr → Channel → ClientToProxy
  remove_minecraft_client : SocketAddr → ClientToProxy
  close : ClientToProxy
