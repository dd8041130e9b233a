-- ===== src/Server/ProxyHandler.antt =====
-- `ProxyClient` of server/src/proxy_handler.rs: the handler of one proxy client.
pub mod Routing
pub mod View
pub mod Reuse
pub mod Bounds
pub mod NoPanic
pub mod Seats
pub mod Seating
pub mod Refines
use craftip_crosscompiletest.Shared.Config.{protocol_version}
use craftip_crosscompiletest.Prelude.{
  ℕ, List, [], ◌∷◌, ◌++◌, Option, none, some, Bool, true, false, Outcome, ok, err, panic, ◌&&◌,
}
use craftip_crosscompiletest.Prelude.Maps
use craftip_crosscompiletest.Prelude.Maps.{bytes_eq, bytes_beq}
use craftip_crosscompiletest.Shared.Datatypes.{PacketError}
use craftip_crosscompiletest.Shared.Utf8.{RustString}
use craftip_crosscompiletest.Shared.Minecraft.{MinecraftDataPacket}
use craftip_crosscompiletest.Shared.Proxy.{
  ServerPublicKey, ProxyAuthenticator, public_key, ProxyHelloPacket, ProxyConnectedResponse,
  ProxyDataPacket, data_packet, to_data_packet,
}
use craftip_crosscompiletest.Shared.SocketPacket.{
  from_proxy_data, from_connected_response, SocketPacket, proxy_auth_request, proxy_auth_response,
  proxy_hello_response, proxy_join, proxy_disconnect, proxy_data, proxy_ping, proxy_pong,
}
use craftip_crosscompiletest.Shared.Crypto.{
  CryptoCrates, CryptoError, create_challange, verify, get_hostname,
}
use craftip_crosscompiletest.Shared.Addressing.{
  Channel, SocketAddr, Register, DistributorError, auth_error, wrong_packet, io_error,
  ClientToProxy, add_minecraft_client, remove_minecraft_client, close,
}
use craftip_crosscompiletest.Shared.Addressing
use craftip_crosscompiletest.Server.Socket.{
  Received, packet, failed, ended, Output, frame, to_minecraft,
}
use craftip_crosscompiletest.Server.Distributor.{
  MinecraftClient, Distributor, empty, insert, remove_by_addr, remove_by_id, get_by_addr, get_by_id,
}

-- What wakes the `select!`: a message of the channel (`None` when all senders are gone), a packet of
-- the socket, or 60 seconds without one.
pub data Wake : Type 0 where
  from_channel : Option ClientToProxy → Wake
  from_socket : Received → Wake
  silent : Wake

-- `framed_ok`: the socket takes a frame. `channel_ok`: the Minecraft client's task still listens.
pub record Event : Type 0 where
  pub wake : Wake
  pub framed_ok : Bool
  pub channel_ok : Bool

-- Whether the loop goes on, and how it ends if not.
pub data Flow : Type 0 where
  go_on : Flow
  break : Flow
  fail : DistributorError → Flow
  panicked : Flow

pub record Turn : Type 0 where
  pub flow : Flow
  pub distributor : Distributor
  pub output : List Output

abbrev pub quiet : Flow → Distributor → Turn
quiet flow d = record { flow = flow; distributor = d; output = [] }

-- `framed.send(packet).await?`, and then the distributor `after`.
abbrev pub send_then : Bool → SocketPacket → (before after : Distributor) → Turn
send_then true p before after = record { flow = go_on; distributor = after; output = frame p ∷ [] }
send_then false p before after = quiet (fail io_error) before

abbrev pub joined : Bool → Outcome DistributorError MinecraftClient × Distributor → Turn
joined framed_ok (ok client, d) = send_then framed_ok (proxy_join client.id) d d
joined framed_ok (err e, d) = quiet (fail e) d
joined framed_ok (panic, d) = quiet panicked d

abbrev pub forward : Bool → Option MinecraftClient → MinecraftDataPacket → Distributor → Turn
forward framed_ok none pkg d = quiet (fail wrong_packet) d
forward framed_ok (some client) pkg d =
    send_then framed_ok (from_proxy_data (data_packet pkg client.id)) d d

abbrev pub disconnect : Bool → Option MinecraftClient → SocketAddr → Distributor → Turn
disconnect framed_ok none addr d = quiet go_on (remove_by_addr d addr)
disconnect framed_ok (some client) addr d =
    send_then framed_ok (proxy_disconnect client.id) d (remove_by_addr d addr)

-- The branch of the channel.
unfoldable pub on_message : Bool → Option ClientToProxy → Distributor → Turn
on_message framed_ok none d = quiet break d
on_message framed_ok (some close) d = quiet break d
on_message framed_ok (some (add_minecraft_client addr tx)) d = joined framed_ok (insert d addr tx)
on_message framed_ok (some (Addressing.packet addr pkg)) d =
    forward framed_ok (get_by_addr d addr) pkg d
on_message framed_ok (some (remove_minecraft_client addr)) d =
    disconnect framed_ok (get_by_addr d addr) addr d

abbrev pub deliver : Bool → Option MinecraftClient → MinecraftDataPacket → Distributor → Turn
deliver channel_ok none pkg d = quiet go_on d
deliver false (some client) pkg d = quiet go_on d
deliver true (some client) pkg d = record {
  flow = go_on;
  distributor = d;
  output = to_minecraft client.tx pkg ∷ [];
}

-- The branch of the socket, for a packet.
unfoldable pub on_packet : Bool → Bool → SocketPacket → Distributor → Turn
on_packet framed_ok channel_ok (proxy_disconnect id) d = quiet go_on (remove_by_id d id)
on_packet framed_ok channel_ok (proxy_data p) d =
    deliver channel_ok (get_by_id d p.client_id) (to_data_packet p) d
on_packet framed_ok channel_ok (proxy_ping n) d = send_then framed_ok (proxy_pong n) d d
on_packet framed_ok channel_ok _ d = quiet go_on d

unfoldable pub turn_on : Wake → Bool → Bool → Distributor → Turn
turn_on (from_channel message) framed_ok channel_ok d = on_message framed_ok message d
turn_on (from_socket (packet p)) framed_ok channel_ok d = on_packet framed_ok channel_ok p d
turn_on (from_socket failed) framed_ok channel_ok d = quiet break d
turn_on (from_socket ended) framed_ok channel_ok d = quiet break d
turn_on silent framed_ok channel_ok d = quiet break d

-- One round of the loop.
unfoldable pub turn : Event → Distributor → Turn
turn e d = turn_on e.wake e.framed_ok e.channel_ok d

-- Behind the first round the others are run only if it goes on.
abbrev pub then_run : Turn → (Distributor → Turn) → Turn
then_run t rest = elim t.flow [
  | go_on ↦ let u = rest t.distributor in record u { output = t.output ++ u.output }
  | break ↦ t
  | fail e ↦ t
  | panicked ↦ t
]

-- The loop over the events that arrive; `go_on` at the end means that it waits for more.
unfoldable pub run : List Event → Distributor → Turn
run [] d = quiet go_on d
run (e ∷ es) d = then_run (turn e d) (run es)

-- `handle`: the hello response, and then the loop on an empty distributor.
unfoldable pub handle : Bool → List Event → Turn
handle framed_ok events =
    then_run
      (send_then framed_ok (from_connected_response (record { version = protocol_version })) empty
        empty)
      (run events)

-- What `handle` writes into the register at its start, and `close_connection` at its end.
unfoldable pub enter_register : Register → RustString → Channel → Register
enter_register r hostname tx = record { servers = Maps.insert hostname tx r.servers }

unfoldable pub close_connection : Register → RustString → Register
close_connection r hostname = record { servers = Maps.remove hostname r.servers }

abbrev pub key_of : ProxyAuthenticator → ServerPublicKey
key_of (public_key k) = k

-- `public_key.get_hostname() == packet.hostname`
abbrev pub same_hostname :
    Outcome CryptoError RustString → RustString → Outcome DistributorError (Unit {0})
same_hostname (ok name) hostname = elim (bytes_beq name hostname) [
  | true ↦ ok tt
  | false ↦ err auth_error
]
same_hostname (err e) hostname = err auth_error
same_hostname panic hostname = panic

module _ (crypto : CryptoCrates) where
  abbrev pub check_signature :
      ServerPublicKey → List ℕ → List ℕ → RustString → Outcome DistributorError (Unit {0})
  check_signature key challenge signature hostname = elim (verify crypto key challenge signature) [
    | true ↦ same_hostname (get_hostname crypto key) hostname
    | false ↦ err auth_error
  ]

  abbrev pub check_reply :
      ServerPublicKey → List ℕ → Received → RustString → Outcome DistributorError (Unit {0})
  check_reply key challenge (packet (proxy_auth_response signature)) hostname =
      check_signature key challenge signature hostname
  check_reply key challenge _ hostname = err wrong_packet

  abbrev pub challenge_with :
      Outcome CryptoError (List ℕ)
      → ServerPublicKey
      → Bool
      → Received
      → RustString
      → Outcome DistributorError (Unit {0}) × List Output
  challenge_with (ok challenge) key true reply hostname =
      (check_reply key challenge reply hostname, frame (proxy_auth_request challenge) ∷ [])
  challenge_with (ok challenge) key false reply hostname = (err io_error, [])
  challenge_with (err e) key framed_ok reply hostname = (err auth_error, [])
  challenge_with panic key framed_ok reply hostname = (panic, [])

  -- `authenticate`: `random` is what the random generator gives, `reply` what the socket gives next.
  unfoldable pub authenticate :
      Option (List ℕ)
      → Bool
      → Received
      → ProxyHelloPacket
      → Outcome DistributorError (Unit {0}) × List Output
  authenticate random framed_ok reply hello =
      challenge_with (create_challange random) (key_of hello.auth) framed_ok reply hello.hostname
