-- ===== src/Server/ProxyHandler/Bounds.antt =====
-- The ids on the wire of a proxy client (server/src/proxy_handler.rs): they fit a byte.
use craftip_crosscompiletest.Shared.Config.{maximum_clients, protocol_version}
use craftip_crosscompiletest.Prelude.{
  All-append, ℕ, ◌≤◌, ◌≡◌, refl, sym, ap, ◌∙◌, List, [], ◌∷◌, Option, none, some, Bool, true, false,
  Outcome, ok, err, panic, All, arith,
}
use craftip_crosscompiletest.Prelude.Maps
use craftip_crosscompiletest.Prelude.Maps.{nat_eq}
use craftip_crosscompiletest.Shared.Minecraft.{MinecraftDataPacket}
use craftip_crosscompiletest.Shared.SocketPacket.{
  SocketPacket, proxy_join, proxy_disconnect, proxy_data, proxy_ping, proxy_hello_response,
}
use craftip_crosscompiletest.Shared.Addressing.{
  Channel, SocketAddr, DistributorError, ClientToProxy, add_minecraft_client,
  remove_minecraft_client, close,
}
use craftip_crosscompiletest.Shared.Addressing
use craftip_crosscompiletest.Server.Socket.{packet, failed, ended, Output, frame}
use craftip_crosscompiletest.Server.Distributor.{
  MinecraftClient, Distributor, empty, insert, remove_by_addr, remove_by_id, get_by_addr, get_by_id,
  drop_addr,
}
use craftip_crosscompiletest.Server.Distributor.Insert.{inserted, full, insert_lem, Inserts}
use craftip_crosscompiletest.Shared.Proxy.{data_packet}
use craftip_crosscompiletest.Server.ProxyHandler.{
  Flow, Wake, from_channel, from_socket, silent, Event, go_on, break, fail, panicked, Turn,
  send_then, joined, forward, disconnect, deliver, on_message, on_packet, turn_on, turn, then_run,
  run, handle,
}

-- The ids of the clients that the distributor knows by their address.
abbrev pub Bounded : Distributor → Type 0
Bounded d =
    (a : SocketAddr) (c : MinecraftClient)
    → Maps.get a d.clients_addr ≡ some c
    → c.id ≤ maximum_clients

-- The id in a frame that tells or names a client.
abbrev pub IdFits : Output → Type 0
IdFits (frame (proxy_join id)) = id ≤ maximum_clients
IdFits (frame (proxy_data p)) = p.client_id ≤ maximum_clients
IdFits (frame (proxy_disconnect id)) = id ≤ maximum_clients
IdFits _ = Unit

abbrev Fits : Turn → Type 0
Fits t = All IdFits t.output × Bounded t.distributor

send_then-Fits :
    (framed_ok : Bool) (p : SocketPacket) (before after : Distributor)
    → IdFits (frame p)
    → Bounded before
    → Bounded after
    → Fits (send_then framed_ok p before after)
send_then-Fits true p before after i b a = ((i, tt), a)
send_then-Fits false p before after i b a = (tt, b)

insert-Bounded :
    (d : Distributor) (addr : SocketAddr) (tx : Channel) → Bounded d → Bounded (insert d addr tx).1
insert-Bounded d addr tx h a c e = elim (insert_lem d addr tx) [
  | inserted i eq range free below p q ↦ ground (arith, p a, h a c)
  | full eq used ↦ h a c (ap (λ r. Maps.get a r.1.clients_addr) (sym eq) ∙ e)
]

joined-Fits :
    (framed_ok : Bool) (d : Distributor) (addr : SocketAddr) (tx : Channel)
    → Bounded d
    → Fits (joined framed_ok (insert d addr tx))
joined-Fits framed_ok d addr tx h =
    go (insert d addr tx) (insert_lem d addr tx) (insert-Bounded d addr tx h)
  where
    go :
        (r : Outcome DistributorError MinecraftClient × Distributor)
        → Inserts d addr tx r
        → Bounded r.1
        → Fits (joined framed_ok r)
    go (ok c, e) (inserted i eq range free below p q) b =
        send_then-Fits framed_ok _ e e (ground arith) b b
    go (ok c, e) (full eq used) b = cc
    go (err x, e) i b = (tt, b)
    go (panic, e) i b = (tt, b)

remove_by_addr-Bounded :
    (d : Distributor) (addr : SocketAddr) → Bounded d → Bounded (remove_by_addr d addr)
unfolding remove_by_addr
remove_by_addr-Bounded d addr h a c e = ground (arith, Maps.get-remove addr a d.clients_addr, h a c)

remove_by_id-Bounded : (d : Distributor) (id : ℕ) → Bounded d → Bounded (remove_by_id d id)
unfolding remove_by_id
remove_by_id-Bounded d id h a c e = go (Maps.get id d.clients_id) e
  where
    go :
        (o : Option SocketAddr)
        → Maps.get a (drop_addr o d.clients_addr) ≡ some c
        → c.id ≤ maximum_clients
    go none e = h a c e
    go (some addr) e = ground (arith, Maps.get-remove addr a d.clients_addr, h a c)

on_message-Fits :
    (framed_ok : Bool) (message : Option ClientToProxy) (d : Distributor)
    → Bounded d
    → Fits (on_message framed_ok message d)
unfolding on_message get_by_addr data_packet
on_message-Fits framed_ok none d h = (tt, h)
on_message-Fits framed_ok (some close) d h = (tt, h)
on_message-Fits framed_ok (some (add_minecraft_client addr tx)) d h =
    joined-Fits framed_ok d addr tx h
on_message-Fits framed_ok (some (Addressing.packet addr pkg)) d h =
    go (Maps.get addr d.clients_addr) refl
  where
    go :
        (o : Option MinecraftClient)
        → Maps.get addr d.clients_addr ≡ o
        → Fits (forward framed_ok o pkg d)
    go none e = (tt, h)
    go (some c) e = send_then-Fits framed_ok _ d d (h addr c e) h h
on_message-Fits framed_ok (some (remove_minecraft_client addr)) d h =
    go (Maps.get addr d.clients_addr) refl
  where
    go :
        (o : Option MinecraftClient)
        → Maps.get addr d.clients_addr ≡ o
        → Fits (disconnect framed_ok o addr d)
    go none e = (tt, remove_by_addr-Bounded d addr h)
    go (some c) e = send_then-Fits framed_ok _ d _ (h addr c e) h (remove_by_addr-Bounded d addr h)

deliver-Fits :
    (channel_ok : Bool) (o : Option MinecraftClient) (pkg : MinecraftDataPacket) (d : Distributor)
    → Bounded d
    → Fits (deliver channel_ok o pkg d)
deliver-Fits channel_ok none pkg d h = (tt, h)
deliver-Fits false (some c) pkg d h = (tt, h)
deliver-Fits true (some c) pkg d h = ((tt, tt), h)

on_packet-Fits :
    (framed_ok channel_ok : Bool) (p : SocketPacket) (d : Distributor)
    → Bounded d
    → Fits (on_packet framed_ok channel_ok p d)
unfolding on_packet
on_packet-Fits framed_ok channel_ok (proxy_disconnect id) d h = (tt, remove_by_id-Bounded d id h)
on_packet-Fits framed_ok channel_ok (proxy_data p) d h =
    deliver-Fits channel_ok (get_by_id d p.client_id) _ d h
on_packet-Fits framed_ok channel_ok (proxy_ping n) d h = send_then-Fits framed_ok _ d d tt h h
on_packet-Fits framed_ok channel_ok _ d h = (tt, h)

turn-Fits : (e : Event) (d : Distributor) → Bounded d → Fits (turn e d)
unfolding turn turn_on
turn-Fits e d h = go e.wake
  where
    go : (w : Wake) → Fits (turn_on w e.framed_ok e.channel_ok d)
    go (from_channel m) = on_message-Fits e.framed_ok m d h
    go (from_socket (packet p)) = on_packet-Fits e.framed_ok e.channel_ok p d h
    go (from_socket failed) = (tt, h)
    go (from_socket ended) = (tt, h)
    go silent = (tt, h)

then_run-Fits :
    (t : Turn) (rest : Distributor → Turn)
    → Fits t
    → (Bounded t.distributor → Fits (rest t.distributor))
    → Fits (then_run t rest)
then_run-Fits t rest h more = go t.flow refl
  where
    both : Fits (rest t.distributor)
    both = more h.1

    go : (f : Flow) → t.flow ≡ f → Fits (then_run t rest)
    go go_on e = rw (e, then_run) (All-append IdFits t.output _ h.0 both.0, both.1)
    go break e = rw (e, then_run) h
    go (fail x) e = rw (e, then_run) h
    go panicked e = rw (e, then_run) h

run-Fits : (es : List Event) (d : Distributor) → Bounded d → Fits (run es d)
unfolding run
run-Fits [] d h = (tt, h)
run-Fits (e ∷ es) d h = then_run-Fits (turn e d) (run es) (turn-Fits e d h) (run-Fits es _)

-- Whatever happens on the channel and on the socket, every id of a Minecraft client that the
-- handler writes to the proxy client is at most 255: in a join, in data and in a disconnect.
pub handle-IdFits :
    (framed_ok : Bool) (events : List Event) → All IdFits (handle framed_ok events).output
unfolding handle empty Maps.get
handle-IdFits framed_ok events =
    (then_run-Fits _ (run events)
      (send_then-Fits framed_ok (proxy_hello_response (record { version = protocol_version })) empty
        empty tt none_yet none_yet)
      (run-Fits events _)).0
  where
    none_yet : Bounded empty
    none_yet a c e = cc
