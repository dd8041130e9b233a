-- ===== src/Tests/Accounts.antt =====
-- A player who joins through a tunnel and says something.
use craftip_crosscompiletest.Prelude.{refl, [], ◌∷◌, true, some}
use craftip_crosscompiletest.Prelude.Maps.{nat_eq}
use craftip_crosscompiletest.Prelude.Maps
use craftip_crosscompiletest.Shared.Minecraft.{MinecraftDataPacket}
use craftip_crosscompiletest.Shared.Proxy.{data_packet}
use craftip_crosscompiletest.Shared.SocketPacket.{SocketPacket, proxy_join, proxy_data}
use craftip_crosscompiletest.Shared.Addressing.{ClientToProxy, add_minecraft_client}
use craftip_crosscompiletest.Shared.Addressing
use craftip_crosscompiletest.Server.Socket.{packet}
use craftip_crosscompiletest.Server.Distributor.{empty, insert, free_id, get_by_addr}
use craftip_crosscompiletest.Server.ProxyHandler
use craftip_crosscompiletest.Client.Tunnel
use craftip_crosscompiletest.Client.Tunnel.{no_connections, set_stats_tx, add_connection, send_to}
use craftip_crosscompiletest.System.Origins.{
  Tunnelled, opened, Round, Rounds, no_round, then_round, server_round, client_round, Accounted,
}
use craftip_crosscompiletest.System.Origins.Account.{Rounds-Accounted}

abbrev hello : MinecraftDataPacket
hello = record { body = 1 ∷ 2 ∷ [] }

abbrev told : ClientToProxy → ProxyHandler.Event
told m = record { wake = ProxyHandler.from_channel (some m); framed_ok = true; channel_ok = true }

abbrev sent : SocketPacket → Tunnel.Event
sent p = record {
  wake = Tunnel.from_proxy (packet p);
  framed_ok = true;
  stats_ok = true;
  channel_ok = true;
  now = 1000;
  client_stats = 2;
  new_tx = 7;
}

abbrev joined : Tunnelled
joined = record {
  distributor = record {
    clients_addr = (40, record { tx = 3; id = 0 }) ∷ [];
    clients_id = (0, 40) ∷ [];
  };
  client = record { connections = []; stats_tx = some 2 };
  down = (proxy_join 0, 40) ∷ [];
  given = [];
  started = [];
  delivered = [];
  refused = [];
}

abbrev started : Tunnelled
started = record joined {
  client = record { connections = (0, 7) ∷ []; stats_tx = some 2 };
  down = [];
  started = (7, 40) ∷ [];
}

abbrev said : Tunnelled
said = record started {
  down = (proxy_data (record { client_id = 0; packet = hello }), 40) ∷ [];
  given = (40, hello) ∷ [];
}

abbrev heard : Tunnelled
heard = record said { down = []; delivered = (7, hello) ∷ [] }

join-Round : Round (opened 2) joined
unfolding opened ProxyHandler.turn ProxyHandler.turn_on ProxyHandler.on_message insert free_id empty
    Maps.insert Maps.contains_key no_connections set_stats_tx Maps.get
join-Round = server_round (told (add_minecraft_client 40 3)) refl refl refl

start-Round : Round joined started
unfolding Tunnel.turn Tunnel.turn_on Tunnel.on_packet add_connection Maps.insert
start-Round = client_round (sent (proxy_join 0)) (proxy_join 0) 40 [] refl refl refl refl

say-Round : Round started said
unfolding ProxyHandler.turn ProxyHandler.turn_on ProxyHandler.on_message get_by_addr Maps.get
    data_packet
say-Round = server_round (told (Addressing.packet 40 hello)) tt refl refl

hear-Round : Round said heard
unfolding Tunnel.turn Tunnel.turn_on Tunnel.on_packet send_to Maps.get
hear-Round =
    let p = proxy_data (record { client_id = 0; packet = hello }) in
    client_round (sent p) p 40 [] refl refl refl refl

heard-Rounds : Rounds (opened 2) heard
heard-Rounds =
    then_round (then_round (then_round (then_round no_round join-Round) start-Round) say-Round)
      hear-Round

Rounds-Accounted_example : Accounted heard
Rounds-Accounted_example = Rounds-Accounted 2 heard heard-Rounds
