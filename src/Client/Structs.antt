-- ===== src/Client/Structs.antt =====
-- client/src/structs.rs: errors, messages, and the server that a client makes public.
use craftip_crosscompiletest.Shared.Config.{key_server_suffix}
use craftip_crosscompiletest.Prelude.{ℕ, Outcome, ok, err, panic, ◌++◌, bytes_of}
use craftip_crosscompiletest.Shared.Utf8.{RustString}
use craftip_crosscompiletest.Shared.Minecraft.{MinecraftDataPacket}
use craftip_crosscompiletest.Shared.Proxy.{ServerPublicKey}
use craftip_crosscompiletest.Shared.Crypto.{
  CryptoCrates, CryptoError, ServerPrivateKey, get_public_key, get_host,
}

pub data Stats : Type 0 where
  connected : Stats
  clients_connected ping : ℕ → Stats

pub data Control : Type 0 where
  disconnect : Control

-- The errors inside of an error and the texts are left out, but for the text that the server sent.
pub data ClientError : Type 0 where
  io protocol_error proxy_closed_connection user_closed_connection timeout : ClientError
  proxy_error : RustString → ClientError
  minecraft_server_not_found unexpected_packet other : ClientError

pub data ClientToProxy : Type 0 where
  packet : ℕ → MinecraftDataPacket → ClientToProxy
  remove_minecraft_client : ℕ → ClientToProxy
  death : RustString → ClientToProxy

pub data ServerAuthentication : Type 0 where
  key : ServerPrivateKey → ServerAuthentication

pub record Server : Type 0 where
  pub server : RustString
  pub local : RustString
  pub auth : ServerAuthentication

-- `new_from_key` behind `get_host`, which panics where the text of the checksum is too short.
abbrev pub from_host :
    Outcome CryptoError RustString → ServerPrivateKey → Outcome CryptoError Server
from_host (ok id) k =
    ok (record { server = id ++ key_server_suffix; local = bytes_of "25565"; auth = key k })
from_host (err e) k = err e
from_host panic k = panic

abbrev pub host_of :
    CryptoCrates → Outcome CryptoError ServerPublicKey → Outcome CryptoError RustString
host_of crypto (ok p) = get_host crypto p
host_of crypto (err e) = err e
host_of crypto panic = panic

unfoldable pub new_from_key : CryptoCrates → ServerPrivateKey → Outcome CryptoError Server
new_from_key crypto k = from_host (host_of crypto (get_public_key crypto k)) k
