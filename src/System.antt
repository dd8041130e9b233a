-- ===== src/System.antt =====
-- The handler of a proxy client in server/src/proxy_handler.rs and the loop of the client in
-- client/src/client.rs, joined by the two directions of their connection.
pub mod Agree
pub mod Origins
use craftip_crosscompiletest.Prelude.{
  ℕ, ◌≡◌, List, [], ◌∷◌, ◌++◌, Bool, true, false, ◌||◌, ◌==◌, some,
}
use craftip_crosscompiletest.Prelude.Ids.{Ids, set_to}
use craftip_crosscompiletest.Shared.SocketPacket.{SocketPacket, proxy_join, proxy_disconnect}
use craftip_crosscompiletest.Server.Socket.{Received, packet, failed, ended}
use craftip_crosscompiletest.Server.Socket
use craftip_crosscompiletest.Server.Distributor.{Distributor, empty}
use craftip_crosscompiletest.Server.ProxyHandler
use craftip_crosscompiletest.Client.Tunnel
use craftip_crosscompiletest.Client.Tunnel.{State, no_connections, set_stats_tx}

-- `down` and `up` are the packets on the way to the client and to the server, first in first out.
pub record System : Type 0 where
  pub distributor : Distributor
  pub client : State
  pub down : List SocketPacket
  pub up : List SocketPacket

-- Both ends as they begin.
unfoldable pub connected : ℕ → System
connected stats = record {
  distributor = empty;
  client = set_stats_tx no_connections stats;
  down = [];
  up = [];
}

-- The packets among what an end puts out.
abbrev pub server_frames : List Socket.Output → List SocketPacket
server_frames [] = []
server_frames (Socket.frame p ∷ out) = p ∷ server_frames out
server_frames (Socket.to_minecraft tx p ∷ out) = server_frames out
server_frames (Socket.to_proxy tx m ∷ out) = server_frames out

abbrev pub client_frames : List Tunnel.Output → List SocketPacket
client_frames [] = []
client_frames (Tunnel.frame p ∷ out) = p ∷ client_frames out
client_frames (Tunnel.stats tx n ∷ out) = client_frames out
client_frames (Tunnel.to_connection tx p ∷ out) = client_frames out
client_frames (Tunnel.start id tx ∷ out) = client_frames out

-- A packet of the socket is the first on the way; nothing else takes a packet off the way.
abbrev pub Receives : Received → List SocketPacket → List SocketPacket → Type 0
Receives (packet p) way rest = way ≡ p ∷ rest
Receives failed way rest = rest ≡ way
Receives ended way rest = rest ≡ way

abbrev pub ServerTakes : ProxyHandler.Wake → List SocketPacket → List SocketPacket → Type 0
ServerTakes (ProxyHandler.from_socket r) way rest = Receives r way rest
ServerTakes (ProxyHandler.from_channel m) way rest = rest ≡ way
ServerTakes ProxyHandler.silent way rest = rest ≡ way

abbrev pub ClientTakes : Tunnel.Wake → List SocketPacket → List SocketPacket → Type 0
ClientTakes (Tunnel.from_proxy r) way rest = Receives r way rest
ClientTakes (Tunnel.from_control c) way rest = rest ≡ way
ClientTakes (Tunnel.from_connection m) way rest = rest ≡ way
ClientTakes Tunnel.tick way rest = rest ≡ way

-- Whether an id is in a join, or in a disconnect.
abbrev pub joins : List SocketPacket → Ids
joins [] j = false
joins (proxy_join i ∷ ps) j = i == j || joins ps j
joins (_ ∷ ps) j = joins ps j

abbrev pub leaves : List SocketPacket → Ids
leaves [] j = false
leaves (proxy_disconnect i ∷ ps) j = i == j || leaves ps j
leaves (_ ∷ ps) j = leaves ps j

-- No id is in a join on the way down and in a disconnect on the way up.
abbrev pub Uncrossed : (down up : List SocketPacket) → Type 0
Uncrossed down up = (j : ℕ) → leaves up j ≡ true → joins down j ≡ false

-- One round of either end that does not end its loop. What it sends does not cross what is on the way
-- in the other direction, and the client's tasks take what is sent to them.
pub data Step (s t : System) : Type 0 where
  server_turn :
      (e : ProxyHandler.Event) (up : List SocketPacket)
      → ServerTakes e.wake s.up up
      → (ProxyHandler.turn e s.distributor).flow ≡ ProxyHandler.go_on
      → Uncrossed (server_frames (ProxyHandler.turn e s.distributor).output) up
      → t ≡ record {
        distributor = (ProxyHandler.turn e s.distributor).distributor;
        client = s.client;
        down = s.down ++ server_frames (ProxyHandler.turn e s.distributor).output;
        up = up;
      }
      → Step s t
  client_turn :
      (e : Tunnel.Event) (down : List SocketPacket)
      → ClientTakes e.wake s.down down
      → (Tunnel.turn e s.client).flow ≡ Tunnel.go_on
      → e.channel_ok ≡ true
      → Uncrossed down (client_frames (Tunnel.turn e s.client).output)
      → t ≡ record {
        distributor = s.distributor;
        client = (Tunnel.turn e s.client).state;
        down = down;
        up = s.up ++ client_frames (Tunnel.turn e s.client).output;
      }
      → Step s t

pub data Reach (s : System) : System → Type 0 where
  here : Reach s s
  next : {t u : System} → Reach s t → Step t u → Reach s u
