-- ===== src/Client/Races.antt =====
-- What the client of client/src/client.rs does with data that was under way when a connection ended.
use craftip_crosscompiletest.Prelude.{ℕ, ◌%◌, ◌^◌, ◌≡◌, refl, [], ◌∷◌, some, true, length, ==_refl}
use craftip_crosscompiletest.Prelude.Maps
use craftip_crosscompiletest.Prelude.Maps.{nat_eq}
use craftip_crosscompiletest.Shared.Minecraft.{MinecraftDataPacket}
use craftip_crosscompiletest.Shared.SocketPacket.{proxy_disconnect, proxy_data}
use craftip_crosscompiletest.Shared.Addressing.{Channel}
use craftip_crosscompiletest.Server.Socket.{packet}
use craftip_crosscompiletest.Client.Structs.{clients_connected, remove_minecraft_client}
use craftip_crosscompiletest.Client.Tunnel.{
  State, frame, stats, bail, Wake, from_connection, from_proxy, Event, on_connection, on_packet,
  remove_connection, send_to, turn_on, turn, run,
}

-- An event on which every send succeeds.
abbrev pub fine : ℕ → Channel → Channel → Wake → Event
fine now client_stats new_tx w = record {
  wake = w;
  framed_ok = true;
  stats_ok = true;
  channel_ok = true;
  now = now;
  client_stats = client_stats;
  new_tx = new_tx;
}

-- When a connection of the client has ended, and it has told the server so, data of the server for
-- this connection that was under way ends the client's loop with an error, and so the tunnel of all
-- players.
pub late_data_ends_client :
    (s : State) (tx : Channel) (id now new_tx : ℕ) (late : MinecraftDataPacket)
    → s.stats_tx ≡ some tx
    → let t =
        run
          (fine now tx new_tx (from_connection (remove_minecraft_client id))
            ∷ fine now tx new_tx
                (from_proxy (packet (proxy_data (record { client_id = id; packet = late }))))
            ∷ [])
          s in
      (t.flow ≡ bail)
      × (t.output
          ≡ frame (proxy_disconnect id)
            ∷ stats tx (clients_connected (length (Maps.remove id s.connections) % 2 ^ 16))
            ∷ [])
unfolding run turn turn_on on_connection on_packet remove_connection send_to
late_data_ends_client s tx id now new_tx late has =
    rw (has, Maps.get-remove id id s.connections, ==_refl id) (refl, refl)
