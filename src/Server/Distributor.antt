-- ===== src/Server/Distributor.antt =====
-- `Distribiutor` of server/src/proxy_handler.rs: which Minecraft client has which id.
pub mod Insert
pub mod Invariant
use craftip_crosscompiletest.Shared.Config.{maximum_clients}
use craftip_crosscompiletest.Prelude.{
  ℕ, zero, suc, ◌+◌, List, [], Option, none, some, Outcome, ok, err, if◌then◌else◌,
}
use craftip_crosscompiletest.Prelude.Maps
use craftip_crosscompiletest.Prelude.Maps.{HashMap, nat_eq}
use craftip_crosscompiletest.Shared.Addressing.{
  SocketAddr, Channel, DistributorError, too_many_clients,
}

pub record MinecraftClient : Type 0 where
  pub tx : Channel
  pub id : ℕ

pub record Distributor : Type 0 where
  pub clients_addr : HashMap SocketAddr MinecraftClient
  pub clients_id : HashMap ℕ SocketAddr

-- `Distribiutor::default`
unfoldable pub empty : Distributor
empty = record { clients_addr = []; clients_id = [] }

-- `for id_found in 0..=MAXIMUM_CLIENTS`, with `left` rounds to go: the first id that is not in use.
unfoldable pub free_id : (left : ℕ) → ℕ → HashMap ℕ SocketAddr → Option ℕ
free_id zero id used = none
free_id (suc left) id used =
    let rest = free_id left (id + 1) used in if Maps.contains_key id used then rest else some id

abbrev pub insert_at :
    Option ℕ
    → Distributor
    → SocketAddr
    → Channel
    → Outcome DistributorError MinecraftClient × Distributor
insert_at none d addr tx = (err too_many_clients, d)
insert_at (some id) d addr tx = (
  ok (record { tx = tx; id = id }),
  record {
    clients_addr = Maps.insert addr (record { tx = tx; id = id }) d.clients_addr;
    clients_id = Maps.insert id addr d.clients_id;
  },
)

unfoldable pub insert :
    Distributor → SocketAddr → Channel → Outcome DistributorError MinecraftClient × Distributor
insert d addr tx = insert_at (free_id (suc maximum_clients) 0 d.clients_id) d addr tx

abbrev pub drop_id : Option MinecraftClient → HashMap ℕ SocketAddr → HashMap ℕ SocketAddr
drop_id none ids = ids
drop_id (some client) ids = Maps.remove client.id ids

unfoldable pub remove_by_addr : Distributor → SocketAddr → Distributor
remove_by_addr d addr = record {
  clients_addr = Maps.remove addr d.clients_addr;
  clients_id = drop_id (Maps.get addr d.clients_addr) d.clients_id;
}

abbrev pub drop_addr :
    Option SocketAddr → HashMap SocketAddr MinecraftClient → HashMap SocketAddr MinecraftClient
drop_addr none addrs = addrs
drop_addr (some addr) addrs = Maps.remove addr addrs

unfoldable pub remove_by_id : Distributor → ℕ → Distributor
remove_by_id d id = record {
  clients_addr = drop_addr (Maps.get id d.clients_id) d.clients_addr;
  clients_id = Maps.remove id d.clients_id;
}

unfoldable pub get_by_addr : Distributor → SocketAddr → Option MinecraftClient
get_by_addr d addr = Maps.get addr d.clients_addr

abbrev pub client_at : Option SocketAddr → Distributor → Option MinecraftClient
client_at none d = none
client_at (some addr) d = Maps.get addr d.clients_addr

unfoldable pub get_by_id : Distributor → ℕ → Option MinecraftClient
get_by_id d id = client_at (Maps.get id d.clients_id) d
