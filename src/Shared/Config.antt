-- ===== src/Shared/Config.antt =====
-- shared/src/config.rs: the constants that the programs share.
use craftip_crosscompiletest.Prelude.{ℕ, bytes_of}
use craftip_crosscompiletest.Shared.Utf8.{RustString}

abbrev pub key_server_suffix : RustString
key_server_suffix = bytes_of ".t.craftip.net"

abbrev pub server_port : ℕ
server_port = 25565

abbrev pub maximum_clients : ℕ
maximum_clients = 255

abbrev pub protocol_version : ℕ
protocol_version = 1

abbrev pub update_url : RustString
update_url = bytes_of "https://www.craftip.net/update/latest.json"
