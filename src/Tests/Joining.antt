-- ===== src/Tests/Joining.antt =====
-- The client of client/src with a concrete key, and with one player that joins and leaves.
use craftip_crosscompiletest.Prelude.{◌≡◌, refl, List, [], ◌∷◌, some, true, false, bytes_of}
use craftip_crosscompiletest.Prelude.Maps.{nat_eq}
use craftip_crosscompiletest.Shared.SocketPacket.{proxy_join, proxy_disconnect, proxy_data}
use craftip_crosscompiletest.Server.Socket.{packet}
use craftip_crosscompiletest.Client.Structs.{
  Server, key, new_from_key, clients_connected, remove_minecraft_client, death,
}
use craftip_crosscompiletest.Client.Tunnel.{
  State, frame, stats, bail, no_connections, set_stats_tx, Event, Wake, from_proxy, from_connection,
  go_on, add_connection, remove_connection, on_packet, on_connection, turn_on, turn, run,
}
use craftip_crosscompiletest.Client.View.{
  ids, view, count, last_count, connections_exact, last_count_exact,
}
use craftip_crosscompiletest.Client.Structs
use craftip_crosscompiletest.Client.Connection
use craftip_crosscompiletest.Client.Connection.{ClientConnection, task}
use craftip_crosscompiletest.Client.Connection.Stream.{traffic, task_lem}
use craftip_crosscompiletest.Client.Races.{fine, late_data_ends_client}
use craftip_crosscompiletest.Prelude.{◌%◌, ◌^◌, length}
use craftip_crosscompiletest.Prelude.Maps
use craftip_crosscompiletest.Shared.Minecraft.{MinecraftDataPacket}

abbrev event_on : Wake → Event
event_on w = record {
  wake = w;
  framed_ok = true;
  stats_ok = true;
  channel_ok = true;
  now = 1000;
  client_stats = 2;
  new_tx = 7;
}

abbrev visit : List Event
visit =
    event_on (from_proxy (packet (proxy_join 0)))
    ∷ event_on (from_connection (remove_minecraft_client 0))
    ∷ []

-- `Client::new`
abbrev new_state : State
new_state = set_stats_tx no_connections 2

visit_goes_on : (run visit new_state).flow ≡ go_on
unfolding run turn turn_on on_packet on_connection add_connection remove_connection no_connections
    set_stats_tx
visit_goes_on = refl

has_stats : new_state.stats_tx ≡ some 2
unfolding set_stats_tx
has_stats = refl

connections_exact_example : ids (run visit new_state).state ≡ view visit new_state (ids new_state)
connections_exact_example =
    connections_exact 2 visit new_state has_stats (refl, (refl, tt)) visit_goes_on

last_count_exact_example :
    last_count (run visit new_state).output (count new_state) ≡ count (run visit new_state).state
last_count_exact_example =
    last_count_exact 2 visit new_state has_stats (refl, (refl, tt)) visit_goes_on

abbrev one_player : State
one_player = record { connections = (0, 7) ∷ []; stats_tx = some 2 }

abbrev hi : MinecraftDataPacket
hi = record { body = bytes_of "hi" }

late_data_ends_client_example :
    let t =
      run
        (fine 1000 2 9 (from_connection (remove_minecraft_client 0))
          ∷ fine 1000 2 9 (from_proxy (packet (proxy_data (record { client_id = 0; packet = hi }))))
          ∷ [])
        one_player in
    (t.flow ≡ bail)
    × (t.output
        ≡ frame (proxy_disconnect 0)
          ∷ stats 2 (clients_connected (length (Maps.remove 0 one_player.connections) % 2 ^ 16))
          ∷ [])
late_data_ends_client_example = late_data_ends_client one_player 2 0 1000 9 hi refl

abbrev connection : ClientConnection
connection = record {
  mc_server = bytes_of "25565";
  client_id = 5;
  client_rx = 7;
  proxy_tx = 8;
  need_for_close = true;
}

-- The player speaks, the server answers, and the server closes.
abbrev exchange : List Connection.Event
exchange =
    record { wake = Connection.from_channel (some hi); send_ok = true }
    ∷ record { wake = Connection.from_server (some (1 ∷ 2 ∷ [])); send_ok = true }
    ∷ record { wake = Connection.from_server (some []); send_ok = true }
    ∷ []

task_lem_example :
    (traffic (task true exchange (bytes_of "refused") connection) ≡ (
      Structs.packet 5 (record { body = 1 ∷ 2 ∷ [] }) ∷ remove_minecraft_client 5 ∷ [],
      bytes_of "hi" ∷ [],
    ))
    × (traffic (task false exchange (bytes_of "refused") connection)
        ≡ (death (bytes_of "refused") ∷ remove_minecraft_client 5 ∷ [], []))
task_lem_example = task_lem exchange (bytes_of "refused") connection refl
