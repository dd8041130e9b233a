-- ===== src/Server/ClientHandler.antt =====
-- `MCClient` of server/src/client_handler.rs: the task of one Minecraft client.
pub mod Stream
use craftip_crosscompiletest.Prelude.{
  List, [], ◌∷◌, ◌++◌, Option, none, some, Bool, true, false, Outcome, ok, err,
}
use craftip_crosscompiletest.Shared.Minecraft.{MinecraftDataPacket, MinecraftHelloPacket}
use craftip_crosscompiletest.Shared.SocketPacket.{from_mc_data, mc_data}
use craftip_crosscompiletest.Shared.Addressing.{
  Channel, SocketAddr, DistributorError, unknown_error, add_minecraft_client,
  remove_minecraft_client,
}
use craftip_crosscompiletest.Shared.Addressing
use craftip_crosscompiletest.Server.Socket.{
  Received, packet, failed, ended, Output, frame, to_proxy,
}

-- The socket itself is not part of the record.
pub record McClient : Type 0 where
  pub rx : Channel
  pub addr : SocketAddr
  pub proxy_tx : Channel
  pub need_for_close : Bool

-- The two messages of `new`. The flags say whether the handler's receiver is still there.
abbrev pub announce :
    Channel
    → SocketAddr
    → Channel
    → MinecraftHelloPacket
    → (add_ok hello_ok : Bool) → Outcome DistributorError McClient × List Output
announce proxy_tx addr rx hello false hello_ok = (err unknown_error, [])
announce proxy_tx addr rx hello true false =
    (err unknown_error, to_proxy proxy_tx (add_minecraft_client addr rx) ∷ [])
announce proxy_tx addr rx hello true true = (
  ok (record { rx = rx; addr = addr; proxy_tx = proxy_tx; need_for_close = true }),
  to_proxy proxy_tx (add_minecraft_client addr rx)
      ∷ to_proxy proxy_tx (Addressing.packet addr (record { body = hello.body }))
      ∷ [],
)

-- `new`, where `peer` is the answer of `peer_addr` and `rx` the new channel.
unfoldable pub new :
    Channel
    → Option SocketAddr
    → Channel
    → MinecraftHelloPacket
    → (add_ok hello_ok : Bool) → Outcome DistributorError McClient × List Output
new proxy_tx none rx hello add_ok hello_ok = (err unknown_error, [])
new proxy_tx (some addr) rx hello add_ok hello_ok = announce proxy_tx addr rx hello add_ok hello_ok

-- What wakes the `select!`: a packet of the channel (`None` when it is closed), or the socket.
pub data Wake : Type 0 where
  from_channel : Option MinecraftDataPacket → Wake
  from_socket : Received → Wake

-- `send_ok`: the send that the event causes, on the socket or on the channel, succeeds.
pub record Event : Type 0 where
  pub wake : Wake
  pub send_ok : Bool

pub data Flow : Type 0 where
  go_on break : Flow
  fail : DistributorError → Flow

pub record Turn : Type 0 where
  pub flow : Flow
  pub client : McClient
  pub output : List Output

abbrev pub quiet : Flow → McClient → Turn
quiet flow c = record { flow = flow; client = c; output = [] }

abbrev pub on_channel : Bool → Option MinecraftDataPacket → McClient → Turn
on_channel true (some pkg) c = record {
  flow = go_on;
  client = c;
  output = frame (from_mc_data pkg) ∷ [];
}
on_channel false (some pkg) c = quiet (fail unknown_error) c
on_channel send_ok none c = quiet break (record c { need_for_close = false })

abbrev pub on_socket : Bool → Received → McClient → Turn
on_socket true (packet (mc_data pkg)) c = record {
  flow = go_on;
  client = c;
  output = to_proxy c.proxy_tx (Addressing.packet c.addr pkg) ∷ [];
}
on_socket false (packet (mc_data pkg)) c = quiet break c
on_socket send_ok failed c = quiet break c
on_socket send_ok ended c = quiet break c
on_socket send_ok (packet other) c = quiet go_on c

abbrev pub turn_on : Wake → Bool → McClient → Turn
turn_on (from_channel pkg) send_ok c = on_channel send_ok pkg c
turn_on (from_socket r) send_ok c = on_socket send_ok r c

-- One round of the loop of `handle`.
unfoldable pub turn : Event → McClient → Turn
turn e c = turn_on e.wake e.send_ok c

abbrev pub then_run : Turn → (McClient → Turn) → Turn
then_run t rest = elim t.flow [
  | go_on ↦ let u = rest t.client in record u { output = t.output ++ u.output }
  | break ↦ t
  | fail e ↦ t
]

-- `handle` over the events that arrive; `go_on` at the end means that it waits for more.
unfoldable pub handle : List Event → McClient → Turn
handle [] c = quiet go_on c
handle (e ∷ es) c = then_run (turn e c) (handle es)

-- `drop`
unfoldable pub drop : McClient → List Output
drop c = elim c.need_for_close [
  | true ↦ to_proxy c.proxy_tx (remove_minecraft_client c.addr) ∷ []
  | false ↦ []
]
