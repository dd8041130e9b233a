-- ===== src/Server/ProxyHandler/NoPanic.antt =====
-- The handler of a proxy client in server/src/proxy_handler.rs never panics.
use craftip_crosscompiletest.Shared.Config.{protocol_version}
use craftip_crosscompiletest.Prelude.{
  ◌≡◌, ◌≢◌, refl, List, [], ◌∷◌, Option, none, some, Bool, true, false, Outcome, ok, err, panic,
}
use craftip_crosscompiletest.Shared.Addressing
use craftip_crosscompiletest.Shared.Addressing.{
  Channel, SocketAddr, DistributorError, ClientToProxy, add_minecraft_client,
  remove_minecraft_client, close,
}
use craftip_crosscompiletest.Shared.SocketPacket.{
  SocketPacket, proxy_disconnect, proxy_data, proxy_ping, proxy_hello_response,
}
use craftip_crosscompiletest.Shared.Minecraft.{MinecraftDataPacket}
use craftip_crosscompiletest.Server.Socket.{packet, failed, ended}
use craftip_crosscompiletest.Server.Distributor.{
  MinecraftClient, Distributor, empty, insert, get_by_addr, get_by_id,
}
use craftip_crosscompiletest.Server.Distributor.Insert.{Inserts, inserted, full, insert_lem}
use craftip_crosscompiletest.Server.ProxyHandler.{
  Wake, from_channel, from_socket, silent, Event, Flow, go_on, break, fail, panicked, Turn,
  send_then, joined, forward, disconnect, deliver, on_message, on_packet, turn_on, turn, then_run,
  run, handle,
}

send_then-flow :
    (b : Bool) (p : SocketPacket) (d e : Distributor) → (send_then b p d e).flow ≢ panicked
send_then-flow true p d e = λ h. cc
send_then-flow false p d e = λ h. cc

joined-flow :
    (b : Bool) (d : Distributor) (addr : SocketAddr) (tx : Channel)
    → (joined b (insert d addr tx)).flow ≢ panicked
joined-flow b d addr tx = go (insert d addr tx) (insert_lem d addr tx)
  where
    go :
        (r : Outcome DistributorError MinecraftClient × Distributor)
        → Inserts d addr tx r
        → (joined b r).flow ≢ panicked
    go (ok c, e) i = send_then-flow b _ e e
    go (err x, e) i = λ h. cc
    go (panic, e) (inserted i eq range free below p q) = λ h. cc
    go (panic, e) (full eq used) = λ h. cc

forward-flow :
    (b : Bool) (o : Option MinecraftClient) (pkg : MinecraftDataPacket) (d : Distributor)
    → (forward b o pkg d).flow ≢ panicked
forward-flow b none pkg d = λ h. cc
forward-flow b (some c) pkg d = send_then-flow b _ d d

disconnect-flow :
    (b : Bool) (o : Option MinecraftClient) (addr : SocketAddr) (d : Distributor)
    → (disconnect b o addr d).flow ≢ panicked
disconnect-flow b none addr d = λ h. cc
disconnect-flow b (some c) addr d = send_then-flow b (proxy_disconnect c.id) d _

deliver-flow :
    (b : Bool) (o : Option MinecraftClient) (pkg : MinecraftDataPacket) (d : Distributor)
    → (deliver b o pkg d).flow ≢ panicked
deliver-flow b none pkg d = λ h. cc
deliver-flow false (some c) pkg d = λ h. cc
deliver-flow true (some c) pkg d = λ h. cc

on_message-flow :
    (b : Bool) (m : Option ClientToProxy) (d : Distributor) → (on_message b m d).flow ≢ panicked
unfolding on_message
on_message-flow b none d = λ h. cc
on_message-flow b (some close) d = λ h. cc
on_message-flow b (some (add_minecraft_client addr tx)) d = joined-flow b d addr tx
on_message-flow b (some (Addressing.packet addr pkg)) d = forward-flow b (get_by_addr d addr) pkg d
on_message-flow b (some (remove_minecraft_client addr)) d =
    disconnect-flow b (get_by_addr d addr) addr d

on_packet-flow :
    (b c : Bool) (p : SocketPacket) (d : Distributor) → (on_packet b c p d).flow ≢ panicked
unfolding on_packet
on_packet-flow b c (proxy_disconnect id) d = λ h. cc
on_packet-flow b c (proxy_data p) d = deliver-flow c (get_by_id d p.client_id) _ d
on_packet-flow b c (proxy_ping n) d = send_then-flow b _ d d
on_packet-flow b c _ d = λ h. cc

turn-flow : (e : Event) (d : Distributor) → (turn e d).flow ≢ panicked
unfolding turn turn_on
turn-flow e d = go e.wake
  where
    go : (w : Wake) → (turn_on w e.framed_ok e.channel_ok d).flow ≢ panicked
    go (from_channel m) = on_message-flow e.framed_ok m d
    go (from_socket (packet p)) = on_packet-flow e.framed_ok e.channel_ok p d
    go (from_socket failed) = λ h. cc
    go (from_socket ended) = λ h. cc
    go silent = λ h. cc

then_run-flow :
    (t : Turn) (rest : Distributor → Turn)
    → t.flow ≢ panicked
    → (rest t.distributor).flow ≢ panicked
    → (then_run t rest).flow ≢ panicked
then_run-flow t rest h k = go t.flow refl
  where
    go : (f : Flow) → t.flow ≡ f → (then_run t rest).flow ≢ panicked
    go go_on e = rw (e, then_run) k
    go break e = rw (e, then_run) h
    go (fail x) e = rw (e, then_run) h
    go panicked e = absurd (h e)

run-flow : (es : List Event) (d : Distributor) → (run es d).flow ≢ panicked
unfolding run
run-flow [] d = λ h. cc
run-flow (e ∷ es) d = then_run-flow (turn e d) (run es) (turn-flow e d) (run-flow es _)

pub handle-flow : (b : Bool) (events : List Event) → (handle b events).flow ≢ panicked
unfolding handle
handle-flow b events =
    then_run-flow _ (run events)
      (send_then-flow b (proxy_hello_response (record { version = protocol_version })) empty empty)
      (run-flow events _)
