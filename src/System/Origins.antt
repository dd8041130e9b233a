-- ===== src/System/Origins.antt =====
-- The handler of a proxy client in server/src/proxy_handler.rs and the loop of the client in
-- client/src/client.rs with the way down between them, and a log of who gave what to the server, and
-- of what the client handed to which of its connections. What comes up to the server is left open: any
-- packet may come at any time.
pub mod Server
pub mod Client
pub mod Account
use craftip_crosscompiletest.Prelude.{
  ℕ, ◌≡◌, ◌⊎◌, List, [], ◌∷◌, ◌++◌, Bool, Option, some, none, Memᴰ, ◌==◌, if◌then◌else◌,
}
use craftip_crosscompiletest.Prelude.Maps
use craftip_crosscompiletest.Prelude.Maps.{nat_eq}
use craftip_crosscompiletest.Shared.Minecraft.{MinecraftDataPacket}
use craftip_crosscompiletest.Shared.SocketPacket.{
  SocketPacket, proxy_join, proxy_disconnect, proxy_data,
}
use craftip_crosscompiletest.Shared.Addressing.{
  Channel, SocketAddr, add_minecraft_client, remove_minecraft_client,
}
use craftip_crosscompiletest.Shared.Addressing
use craftip_crosscompiletest.Server.Socket.{packet}
use craftip_crosscompiletest.Server.Distributor.{Distributor, empty}
use craftip_crosscompiletest.Server.ProxyHandler
use craftip_crosscompiletest.Server.ProxyHandler.Routing.{FreshWake}
use craftip_crosscompiletest.Client.Tunnel
use craftip_crosscompiletest.Client.Tunnel.{State, no_connections, set_stats_tx}
use craftip_crosscompiletest.System.{server_frames}

-- A packet with the address of the Minecraft client on whose behalf the server sent it.
abbrev pub Signed : Type 0
Signed = SocketPacket × SocketAddr

-- `given`: what the Minecraft clients gave to the server. `started`: for whose join a connection was
-- started on the client. `delivered`: what a connection was handed. `refused`: what arrived when the
-- task of its connection had ended. The latest is the first.
pub record Tunnelled : Type 0 where
  pub distributor : Distributor
  pub client : State
  pub down : List Signed
  pub given : List (SocketAddr × MinecraftDataPacket)
  pub started : List (Channel × SocketAddr)
  pub delivered : List (Channel × MinecraftDataPacket)
  pub refused : List (SocketAddr × MinecraftDataPacket)

-- Both ends as they begin.
unfoldable pub opened : ℕ → Tunnelled
opened stats = record {
  distributor = empty;
  client = set_stats_tx no_connections stats;
  down = [];
  given = [];
  started = [];
  delivered = [];
  refused = [];
}

abbrev pub author : ProxyHandler.Wake → SocketAddr
author (ProxyHandler.from_channel (some (add_minecraft_client addr tx))) = addr
author (ProxyHandler.from_channel (some (Addressing.packet addr pkg))) = addr
author (ProxyHandler.from_channel (some (remove_minecraft_client addr))) = addr
author _ = 0

abbrev pub gives : ProxyHandler.Wake → List (SocketAddr × MinecraftDataPacket)
gives (ProxyHandler.from_channel (some (Addressing.packet addr pkg))) = (addr, pkg) ∷ []
gives _ = []

abbrev pub sign : SocketAddr → List SocketPacket → List Signed
sign a [] = []
sign a (p ∷ ps) = (p, a) ∷ sign a ps

abbrev pub starts : SocketAddr → List Tunnel.Output → List (Channel × SocketAddr)
starts a [] = []
starts a (Tunnel.start id tx ∷ out) = (tx, a) ∷ starts a out
starts a (Tunnel.frame p ∷ out) = starts a out
starts a (Tunnel.stats tx n ∷ out) = starts a out
starts a (Tunnel.to_connection tx p ∷ out) = starts a out

abbrev pub delivers : List Tunnel.Output → List (Channel × MinecraftDataPacket)
delivers [] = []
delivers (Tunnel.to_connection tx p ∷ out) = (tx, p) ∷ delivers out
delivers (Tunnel.frame p ∷ out) = delivers out
delivers (Tunnel.stats tx n ∷ out) = delivers out
delivers (Tunnel.start id tx ∷ out) = delivers out

abbrev pub server_sends : ProxyHandler.Event → Distributor → List Signed
server_sends e d = sign (author e.wake) (server_frames (ProxyHandler.turn e d).output)

-- The data in a packet, with the one who signed, and that of all packets on the way.
abbrev pub payload : SocketPacket → SocketAddr → List (SocketAddr × MinecraftDataPacket)
payload (proxy_data p) a = (a, p.packet) ∷ []
payload _ a = []

abbrev pub payloads : List Signed → List (SocketAddr × MinecraftDataPacket)
payloads [] = []
payloads ((p, a) ∷ ps) = payload p a ++ payloads ps

-- The task of a connection takes what is sent to it, or has ended.
abbrev pub refuses :
    (channel_ok : Bool) → SocketPacket → SocketAddr → List (SocketAddr × MinecraftDataPacket)
refuses channel_ok (proxy_data p) a = if channel_ok then [] else (a, p.packet) ∷ []
refuses channel_ok _ a = []

-- What wakes the client's loop and is no packet of the server.
abbrev pub Own : Tunnel.Wake → Type 0
Own (Tunnel.from_proxy r) = ⊥
Own _ = Unit

-- One round of either end that does not end its loop: of the server's, where no address joins that is
-- in use; and of the client's, on the first packet that is on the way or on something of its own.
pub data Round (s t : Tunnelled) : Type 0 where
  server_round :
      (e : ProxyHandler.Event)
      → FreshWake e.wake s.distributor
      → (ProxyHandler.turn e s.distributor).flow ≡ ProxyHandler.go_on
      → t ≡ record s {
        distributor = (ProxyHandler.turn e s.distributor).distributor;
        down = s.down ++ server_sends e s.distributor;
        given = gives e.wake ++ s.given;
      }
      → Round s t
  client_round :
      (e : Tunnel.Event) (p : SocketPacket) (a : SocketAddr) (rest : List Signed)
      → e.wake ≡ Tunnel.from_proxy (packet p)
      → s.down ≡ (p, a) ∷ rest
      → (Tunnel.turn e s.client).flow ≡ Tunnel.go_on
      → t ≡ record s {
        client = (Tunnel.turn e s.client).state;
        down = rest;
        started = starts a (Tunnel.turn e s.client).output ++ s.started;
        delivered = delivers (Tunnel.turn e s.client).output ++ s.delivered;
        refused = refuses e.channel_ok p a ++ s.refused;
      }
      → Round s t
  own_round :
      (e : Tunnel.Event)
      → Own e.wake
      → (Tunnel.turn e s.client).flow ≡ Tunnel.go_on
      → t ≡ record s {
        client = (Tunnel.turn e s.client).state;
        delivered = delivers (Tunnel.turn e s.client).output ++ s.delivered;
      }
      → Round s t

pub data Rounds (s : Tunnelled) : Tunnelled → Type 0 where
  no_round : Rounds s s
  then_round : {t u : Tunnelled} → Rounds s t → Round t u → Rounds s u

-- All latest first: what arrived is, one by one and in the same order, what was handed out and what
-- was refused; and what was handed out went to a connection that was started for the join of its giver.
pub data Follows (started : List (Channel × SocketAddr))
    : (delivered : List (Channel × MinecraftDataPacket))
        (refused arrived : List (SocketAddr × MinecraftDataPacket))
      → Type 0 where
  nothing : Follows started [] [] []
  turned_down :
      {a : SocketAddr} {m : MinecraftDataPacket} {delivered : List (Channel × MinecraftDataPacket)}
      {refused arrived : List (SocketAddr × MinecraftDataPacket)}
      → Follows started delivered refused arrived
      → Follows started delivered ((a, m) ∷ refused) ((a, m) ∷ arrived)
  handed :
      {tx : Channel} {a : SocketAddr} {m : MinecraftDataPacket}
      {delivered : List (Channel × MinecraftDataPacket)}
      {refused arrived : List (SocketAddr × MinecraftDataPacket)}
      → Memᴰ (tx, a) started
      → Follows started delivered refused arrived
      → Follows started ((tx, m) ∷ delivered) refused ((a, m) ∷ arrived)

-- The first of the list, the oldest, is put on those before, and then the others.
abbrev pub onto :
    List (SocketAddr × MinecraftDataPacket)
    → List (SocketAddr × MinecraftDataPacket)
    → List (SocketAddr × MinecraftDataPacket)
onto [] old = old
onto (g ∷ gs) old = onto gs (g ∷ old)

-- Whatever was given has arrived or is on the way, and each that arrived was handed to a connection
-- of its giver or refused.
abbrev pub Accounted : Tunnelled → Type 0
Accounted s =
    (arrived : List (SocketAddr × MinecraftDataPacket)) × (s.given ≡ onto (payloads s.down) arrived)
    × Follows s.started s.delivered s.refused arrived

-- For whom each id of the client is in use, as the packets on the way down tell it.
abbrev pub Owners : Type 0
Owners = ℕ → Option SocketAddr

abbrev pub own : Option SocketAddr → ℕ → Owners → Owners
own x i o j = if i == j then x else o j

abbrev pub after_packet : SocketPacket → SocketAddr → Owners → Owners
after_packet (proxy_join i) a o = own (some a) i o
after_packet (proxy_disconnect i) a o = own none i o
after_packet _ a o = o

abbrev pub after_way : List Signed → Owners → Owners
after_way [] o = o
after_way ((p, a) ∷ ps) o = after_way ps (after_packet p a o)

-- An id is of use to nobody else.
abbrev pub NobodyBut : SocketAddr → Option SocketAddr → Type 0
NobodyBut a x = (x ≡ none) ⊎ (x ≡ some a)

-- The data in a packet goes to an id that is of no use to anybody but the one who signed.
abbrev pub Carries : SocketPacket → SocketAddr → Owners → Type 0
Carries (proxy_data p) a o = NobodyBut a (o p.client_id)
Carries _ a o = Unit

abbrev pub Way : List Signed → Owners → Type 0
Way [] o = Unit
Way ((p, a) ∷ ps) o = Carries p a o × Way ps (after_packet p a o)

-- The ids of the distributor are of no use to anybody but the address under them.
abbrev pub Serves : Distributor → Owners → Type 0
Serves d o = (i : ℕ) (a : SocketAddr) → Maps.get i d.clients_id ≡ some a → NobodyBut a (o i)
