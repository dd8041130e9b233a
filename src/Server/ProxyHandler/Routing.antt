-- ===== src/Server/ProxyHandler/Routing.antt =====
-- The loop of `handle` in server/src/proxy_handler.rs: the distributor stays consistent, and packets
-- reach the client they are meant for.
use craftip_crosscompiletest.Prelude.{
  ◌≡◌, ◌⊎◌, inl, inr, refl, List, [], ◌∷◌, Option, none, some, Bool, true, false, Outcome, ok, err,
  panic,
}
use craftip_crosscompiletest.Prelude.Maps
use craftip_crosscompiletest.Prelude.Maps.{nat_eq}
use craftip_crosscompiletest.Shared.Minecraft.{MinecraftDataPacket}
use craftip_crosscompiletest.Shared.Proxy.{ProxyDataPacket, data_packet, to_data_packet}
use craftip_crosscompiletest.Shared.SocketPacket.{
  SocketPacket, proxy_disconnect, proxy_data, proxy_ping,
}
use craftip_crosscompiletest.Shared.Addressing.{
  Channel, SocketAddr, DistributorError, wrong_packet, too_many_clients, ClientToProxy,
  add_minecraft_client, remove_minecraft_client, close,
}
use craftip_crosscompiletest.Shared.Addressing
use craftip_crosscompiletest.Server.Socket.{packet, failed, ended, frame, to_minecraft}
use craftip_crosscompiletest.Server.Distributor.{
  MinecraftClient, Distributor, empty, insert, remove_by_id, get_by_addr, get_by_id,
}
use craftip_crosscompiletest.Server.Distributor.Invariant.{
  Inv, empty-Inv, insert-Inv, remove_by_addr-Inv, remove_by_id-Inv, get_by_id-eq,
  get_by_id-get_by_addr, get_by_addr-remove_by_id,
}
use craftip_crosscompiletest.Server.ProxyHandler.{
  Wake, from_channel, from_socket, silent, Event, Flow, quiet, go_on, break, fail, panicked, Turn,
  send_then, joined, forward, disconnect, deliver, on_message, on_packet, turn_on, turn, then_run,
  run,
}

-- No event enters an address that the distributor has already: a peer address is in use once.
abbrev pub FreshMessage : Option ClientToProxy → Distributor → Type 0
FreshMessage (some (add_minecraft_client addr tx)) d = Maps.get addr d.clients_addr ≡ none
FreshMessage _ d = Unit

abbrev pub FreshWake : Wake → Distributor → Type 0
FreshWake (from_channel m) d = FreshMessage m d
FreshWake _ d = Unit

abbrev pub Fresh : List Event → Distributor → Type 0
Fresh [] d = Unit
Fresh (e ∷ es) d = FreshWake e.wake d × Fresh es (turn e d).distributor

send_then-Inv :
    (b : Bool) (p : SocketPacket) (d e : Distributor)
    → Inv d
    → Inv e
    → Inv (send_then b p d e).distributor
send_then-Inv true p d e v w = w
send_then-Inv false p d e v w = v

joined-Inv :
    (b : Bool) (r : Outcome DistributorError MinecraftClient × Distributor)
    → Inv r.1
    → Inv (joined b r).distributor
joined-Inv b (ok c, d) v = send_then-Inv b _ d d v v
joined-Inv b (err e, d) v = v
joined-Inv b (panic, d) v = v

forward-Inv :
    (b : Bool) (o : Option MinecraftClient) (pkg : MinecraftDataPacket) (d : Distributor)
    → Inv d
    → Inv (forward b o pkg d).distributor
forward-Inv b none pkg d v = v
forward-Inv b (some c) pkg d v = send_then-Inv b _ d d v v

disconnect-Inv :
    (b : Bool) (o : Option MinecraftClient) (addr : SocketAddr) (d : Distributor)
    → Inv d
    → Inv (disconnect b o addr d).distributor
disconnect-Inv b none addr d v = remove_by_addr-Inv d v addr
disconnect-Inv b (some c) addr d v = send_then-Inv b _ d _ v (remove_by_addr-Inv d v addr)

on_message-Inv :
    (b : Bool) (m : Option ClientToProxy) (d : Distributor)
    → FreshMessage m d
    → Inv d
    → Inv (on_message b m d).distributor
unfolding on_message
on_message-Inv b none d f v = v
on_message-Inv b (some close) d f v = v
on_message-Inv b (some (add_minecraft_client addr tx)) d f v =
    joined-Inv b (insert d addr tx) (insert-Inv d v addr tx f)
on_message-Inv b (some (Addressing.packet addr pkg)) d f v =
    forward-Inv b (get_by_addr d addr) pkg d v
on_message-Inv b (some (remove_minecraft_client addr)) d f v =
    disconnect-Inv b (get_by_addr d addr) addr d v

deliver-Inv :
    (b : Bool) (o : Option MinecraftClient) (pkg : MinecraftDataPacket) (d : Distributor)
    → Inv d
    → Inv (deliver b o pkg d).distributor
deliver-Inv b none pkg d v = v
deliver-Inv true (some c) pkg d v = v
deliver-Inv false (some c) pkg d v = v

on_packet-Inv :
    (b c : Bool) (p : SocketPacket) (d : Distributor) → Inv d → Inv (on_packet b c p d).distributor
unfolding on_packet
on_packet-Inv b c (proxy_disconnect id) d v = remove_by_id-Inv d v id
on_packet-Inv b c (proxy_data p) d v = deliver-Inv c (get_by_id d p.client_id) _ d v
on_packet-Inv b c (proxy_ping n) d v = send_then-Inv b _ d d v v
on_packet-Inv b c _ d v = v

-- One round keeps the two maps of the distributor inverse to each other.
pub turn-Inv :
    (e : Event) (d : Distributor) → FreshWake e.wake d → Inv d → Inv (turn e d).distributor
unfolding turn
turn-Inv e d f v = go e.wake f
  where
    go : (w : Wake) → FreshWake w d → Inv (turn_on w e.framed_ok e.channel_ok d).distributor
    go (from_channel m) f = unfold turn_on in on_message-Inv e.framed_ok m d f v
    go (from_socket (packet p)) f = unfold turn_on in on_packet-Inv e.framed_ok e.channel_ok p d v
    go (from_socket failed) f = unfold turn_on in v
    go (from_socket ended) f = unfold turn_on in v
    go silent f = unfold turn_on in v

then_run-Inv :
    (t : Turn) (rest : Distributor → Turn)
    → Inv t.distributor
    → Inv (rest t.distributor).distributor
    → Inv (then_run t rest).distributor
then_run-Inv t rest v w = go t.flow refl
  where
    go : (f : Flow) → t.flow ≡ f → Inv (then_run t rest).distributor
    go go_on e = rw (e, then_run) w
    go break e = rw (e, then_run) v
    go (fail x) e = rw (e, then_run) v
    go panicked e = rw (e, then_run) v

run_from-Inv : (es : List Event) (d : Distributor) → Fresh es d → Inv d → Inv (run es d).distributor
unfolding run
run_from-Inv [] d f v = v
run_from-Inv (e ∷ es) d f v =
    let w = turn-Inv e d f.0 v in then_run-Inv (turn e d) (run es) w (run_from-Inv es _ f.1 w)

-- Whatever arrives, in whatever order, as long as each address is entered only while it is not in
-- use: in the end the two maps of the distributor are inverse to each other, with ids 0 to 255.
pub run-Inv : (es : List Event) → Fresh es empty → Inv (run es empty).distributor
run-Inv es f = run_from-Inv es empty f empty-Inv

module _ (d : Distributor) (v : Inv d) (addr : SocketAddr) (c : MinecraftClient) (channel_ok : Bool)
    (here : get_by_addr d addr ≡ some c) where
  -- A packet of a registered Minecraft client goes to the proxy client under the id of that client,
  -- and a packet that comes back under this id goes to the channel of the same client. Neither
  -- changes the distributor.
  pub answer_reaches_sender :
      (request answer : MinecraftDataPacket)
      → (turn_on (from_channel (some (Addressing.packet addr request))) true channel_ok d ≡ record {
        flow = go_on;
        distributor = d;
        output = frame (proxy_data (record { client_id = c.id; packet = request })) ∷ [];
      })
        × (turn_on
              (from_socket (packet (proxy_data (record { client_id = c.id; packet = answer }))))
              true
              true
              d
            ≡ record { flow = go_on; distributor = d; output = to_minecraft c.tx answer ∷ [] })
  unfolding turn_on on_message on_packet data_packet to_data_packet
  answer_reaches_sender request answer =
      (rw here refl, rw (get_by_id-get_by_addr d v addr c here) refl)

  -- When the Minecraft server has closed the connection of a client, a packet of this client that was
  -- under way ends the loop with `WrongPacket`, and so the tunnel of all clients.
  pub late_packet_ends_tunnel :
      (late : MinecraftDataPacket) (framed_ok : Bool)
      → run
          (record {
            wake = from_socket (packet (proxy_disconnect c.id));
            framed_ok = framed_ok;
            channel_ok = channel_ok;
          }
            ∷ record {
              wake = from_channel (some (Addressing.packet addr late));
              framed_ok = framed_ok;
              channel_ok = channel_ok;
            }
            ∷ [])
          d
        ≡ quiet (fail wrong_packet) (remove_by_id d c.id)
  unfolding run turn turn_on on_message on_packet
  late_packet_ends_tunnel late framed_ok = rw (get_by_addr-remove_by_id d v addr c here) refl

-- No packet is delivered to a client that the packet does not name: what goes out for a `ProxyData`
-- is nothing, or its content to the channel of the client that is registered under its id.
pub data_delivery :
    (d : Distributor) (p : ProxyDataPacket) (framed_ok channel_ok : Bool)
    → Inv d
    → (turn_on (from_socket (packet (proxy_data p))) framed_ok channel_ok d ≡ quiet go_on d)
      ⊎ ((a : SocketAddr) × (c : MinecraftClient) × (get_by_addr d a ≡ some c)
          × (c.id ≡ p.client_id)
          × (turn_on (from_socket (packet (proxy_data p))) framed_ok channel_ok d
              ≡ record { flow = go_on; distributor = d; output = to_minecraft c.tx p.packet ∷ [] }))
unfolding turn_on on_packet to_data_packet
data_delivery d p framed_ok channel_ok v = go (get_by_id d p.client_id) channel_ok refl
  where
    go :
        (o : Option MinecraftClient) (channel_ok : Bool)
        → get_by_id d p.client_id ≡ o
        → (deliver channel_ok o (to_data_packet p) d ≡ quiet go_on d)
          ⊎ ((a : SocketAddr) × (c : MinecraftClient) × (get_by_addr d a ≡ some c)
              × (c.id ≡ p.client_id)
              × (deliver channel_ok o (to_data_packet p) d ≡ record {
                flow = go_on;
                distributor = d;
                output = to_minecraft c.tx p.packet ∷ [];
              }))
    go none channel_ok e = inl refl
    go (some c) false e = inl refl
    go (some c) true e =
        let (a, _, here, same) = get_by_id-eq d v p.client_id c e in inr (a, c, here, same, refl)
