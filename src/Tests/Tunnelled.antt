-- ===== src/Tests/Tunnelled.antt =====
-- Both ends of a tunnel, with one player that joins.
use craftip_crosscompiletest.Prelude.{◌≡◌, refl, [], ◌∷◌, true, some}
use craftip_crosscompiletest.Prelude.Maps.{nat_eq}
use craftip_crosscompiletest.Prelude.Maps
use craftip_crosscompiletest.Shared.SocketPacket.{proxy_join}
use craftip_crosscompiletest.Shared.Addressing.{add_minecraft_client}
use craftip_crosscompiletest.Server.Socket.{packet}
use craftip_crosscompiletest.Server.Distributor.{empty, insert, free_id}
use craftip_crosscompiletest.Server.ProxyHandler
use craftip_crosscompiletest.Server.ProxyHandler.View
use craftip_crosscompiletest.Client.Tunnel
use craftip_crosscompiletest.Client.Tunnel.{no_connections, set_stats_tx, add_connection}
use craftip_crosscompiletest.Client.View as ClientView
use craftip_crosscompiletest.System.{System, connected, Reach, here, next, server_turn, client_turn}
use craftip_crosscompiletest.System.Agree.{tables_agree}

abbrev join_event : ProxyHandler.Event
join_event = record {
  wake = ProxyHandler.from_channel (some (add_minecraft_client 40 3));
  framed_ok = true;
  channel_ok = true;
}

abbrev joined : System
joined = record {
  distributor = record {
    clients_addr = (40, record { tx = 3; id = 0 }) ∷ [];
    clients_id = (0, 40) ∷ [];
  };
  client = record { connections = []; stats_tx = some 2 };
  down = proxy_join 0 ∷ [];
  up = [];
}

Reach-joined : Reach (connected 2) joined
unfolding connected ProxyHandler.turn ProxyHandler.turn_on ProxyHandler.on_message insert free_id
    empty Maps.insert Maps.contains_key no_connections set_stats_tx
Reach-joined = next here (server_turn join_event [] refl refl (λ j h. cc) refl)

abbrev received_event : Tunnel.Event
received_event = record {
  wake = Tunnel.from_proxy (packet (proxy_join 0));
  framed_ok = true;
  stats_ok = true;
  channel_ok = true;
  now = 1000;
  client_stats = 2;
  new_tx = 7;
}

abbrev settled : System
settled = record joined {
  client = record { connections = (0, 7) ∷ []; stats_tx = some 2 };
  down = [];
}

Reach-settled : Reach (connected 2) settled
unfolding Tunnel.turn Tunnel.turn_on Tunnel.on_packet add_connection Maps.insert
Reach-settled = next Reach-joined (client_turn received_event [] refl refl refl (λ j h. cc) refl)

tables_agree_example : ClientView.ids settled.client ≡ View.ids settled.distributor
tables_agree_example = tables_agree 2 settled Reach-settled refl refl
