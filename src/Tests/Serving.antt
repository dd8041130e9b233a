-- ===== src/Tests/Serving.antt =====
-- The server of server/src at concrete connections.
use craftip_crosscompiletest.Server.ProxyHandler.Seats.{AllowedRun, all_free, seats}
use craftip_crosscompiletest.Server.ProxyHandler.Refines.{run-AllowedRun}
use craftip_crosscompiletest.Prelude.{
  ℕ, ◌≡◌, ◌++◌, ◌↔◌, refl, List, [], ◌∷◌, some, none, true, ok, bytes_of, arith, if◌then◌else◌,
}
use craftip_crosscompiletest.Prelude.Maps
use craftip_crosscompiletest.Prelude.Maps.{nat_eq, bytes_eq, bytes_beq}
use craftip_crosscompiletest.Shared.Minecraft.{MinecraftDataPacket, MinecraftHelloPacket}
use craftip_crosscompiletest.Shared.Proxy.{ProxyHelloPacket, public_key, ProxyDataPacket}
use craftip_crosscompiletest.Shared.SocketPacket.{
  proxy_join, mc_data, proxy_auth_response, proxy_disconnect, proxy_data,
}
use craftip_crosscompiletest.Shared.Addressing.{
  Register, register_new, DistributorError, auth_error, wrong_packet, add_minecraft_client,
  remove_minecraft_client,
}
use craftip_crosscompiletest.Shared.Addressing
use craftip_crosscompiletest.Server.Socket.{Received, packet, frame, to_minecraft}
use craftip_crosscompiletest.Server.Distributor.{
  Distributor, empty, free_id, insert, remove_by_id, get_by_addr,
}
use craftip_crosscompiletest.Server.Distributor.Invariant.{Inv, empty-Inv, insert-Inv}
use craftip_crosscompiletest.Server.ProxyHandler.{
  Event, from_channel, from_socket, break, fail, go_on, quiet, turn, turn_on, on_packet, run,
  handle, enter_register,
}
use craftip_crosscompiletest.Server.ProxyHandler.Routing.{run-Inv, late_packet_ends_tunnel}
use craftip_crosscompiletest.Server.ProxyHandler.View.{ids, view, view_exact}
use craftip_crosscompiletest.Server.ProxyHandler.Reuse.{
  late_answer_reaches_newcomer, fine, stale_disconnect_drops_newcomer,
}
use craftip_crosscompiletest.Server.ClientHandler
use craftip_crosscompiletest.Server.ClientHandler.{McClient, new}
use craftip_crosscompiletest.Server.ClientHandler.Stream.{proxied, life, session_lem}
use craftip_crosscompiletest.Server.ProcessSocket.{finished, admit, serve_admitted}
use craftip_crosscompiletest.Server.ProcessSocket.Auth.{
  register_of, Proves, admit_iff, register-after_handle,
}
use craftip_crosscompiletest.Tests.Crates.{crypto}

-- Address 40 on channel 3 is client 0.
abbrev one_client : Distributor
one_client = record {
  clients_addr = (40, record { tx = 3; id = 0 }) ∷ [];
  clients_id = (0, 40) ∷ [];
}

insert_first : (insert empty 40 3).1 ≡ one_client
unfolding insert empty free_id Maps.insert Maps.contains_key
insert_first = refl

one_client-Inv : Inv one_client
unfolding empty insert free_id Maps.insert Maps.contains_key
one_client-Inv = insert-Inv empty empty-Inv 40 3 (unfold Maps.get in refl)

abbrev join_event : Event
join_event = record {
  wake = from_channel (some (add_minecraft_client 40 3));
  framed_ok = true;
  channel_ok = true;
}

run-Inv_example : Inv (run (join_event ∷ []) empty).distributor
unfolding empty Maps.get
run-Inv_example = run-Inv (join_event ∷ []) (refl, tt)

client_here : get_by_addr one_client 40 ≡ some (record { tx = 3; id = 0 })
unfolding get_by_addr Maps.get
client_here = refl

abbrev hi : MinecraftDataPacket
hi = record { body = bytes_of "hi" }

abbrev says_event : Event
says_event = record {
  wake = from_channel (some (Addressing.packet 40 hi));
  framed_ok = true;
  channel_ok = true;
}

-- The player at address 40 joins and says hi.
run-AllowedRun_example :
    let t = run (join_event ∷ says_event ∷ []) empty in
    AllowedRun all_free (join_event ∷ says_event ∷ []) t.flow t.output (seats t.distributor)
unfolding empty Maps.get
run-AllowedRun_example = run-AllowedRun (join_event ∷ says_event ∷ []) (refl, (tt, tt))

abbrev event : Received → Event
event r = record { wake = from_socket r; framed_ok = true; channel_ok = true }

late_packet_ends_tunnel_example :
    run
      (event (packet (proxy_disconnect 0))
        ∷ record {
          wake = from_channel (some (Addressing.packet 40 hi));
          framed_ok = true;
          channel_ok = true;
        }
        ∷ [])
      one_client
    ≡ quiet (fail wrong_packet) (remove_by_id one_client 0)
late_packet_ends_tunnel_example =
    late_packet_ends_tunnel one_client one_client-Inv 40 (record { tx = 3; id = 0 }) true
      client_here hi true

disconnect_keeps_running : (run (event (packet (proxy_disconnect 0)) ∷ []) one_client).flow ≡ go_on
unfolding run turn turn_on on_packet
disconnect_keeps_running = refl

view_exact_example :
    ids (run (event (packet (proxy_disconnect 0)) ∷ []) one_client).distributor
    ≡ view (event (packet (proxy_disconnect 0)) ∷ []) one_client (ids one_client)
view_exact_example =
    view_exact (event (packet (proxy_disconnect 0)) ∷ []) one_client disconnect_keeps_running

abbrev answer : ProxyDataPacket
answer = record { client_id = 0; packet = hi }

abbrev claim : ProxyHelloPacket
claim = record {
  version = 1;
  hostname = bytes_of "victim.t.craftip.net";
  auth = public_key (record { key = 7 ∷ [] });
}

abbrev shown : DistributorError → List ℕ
shown e = bytes_of "AuthError"

abbrev no_servers : Register
no_servers = record { servers = [] }

admit_iff_example :
    ((admit crypto shown
        (finished (some (5 ∷ [])) true (packet (proxy_auth_response (7 ∷ []))))
        true
        claim).0
      ≡ ok tt)
    ↔ ((challenge : List ℕ) × (some (5 ∷ []) ≡ some challenge)
        × (true ≡ true)
        × Proves crypto challenge (packet (proxy_auth_response (7 ∷ []))) claim)
admit_iff_example =
    admit_iff crypto shown (some (5 ∷ [])) true (packet (proxy_auth_response (7 ∷ []))) true claim

-- Another session enters the same name on channel 11.
abbrev another_session : Register → Register
another_session r = enter_register r claim.hostname 11

register-after_handle_example :
    Maps.get claim.hostname
      (register_of (
        serve_admitted crypto shown
          (ok tt)
          claim.hostname
          9
          break
          another_session
          no_servers)).servers
    ≡ (if bytes_beq claim.hostname claim.hostname
        then none
        else Maps.get claim.hostname
            (another_session (enter_register no_servers claim.hostname 9)).servers)
register-after_handle_example =
    register-after_handle crypto shown claim 9 break another_session no_servers claim.hostname
      (λ e. cc) (λ e. cc)

absent_41 : get_by_addr one_client 41 ≡ none
unfolding get_by_addr Maps.get
absent_41 = refl

-- The player at address 40 leaves and one at address 41 joins.
stale_disconnect_drops_newcomer_example :
    let t =
      run
        (fine (from_channel (some (remove_minecraft_client 40)))
          ∷ fine (from_channel (some (add_minecraft_client 41 4)))
          ∷ fine (from_socket (packet (proxy_disconnect 0)))
          ∷ [])
        one_client in
    (t.flow ≡ go_on)
    × (t.output ≡ frame (proxy_disconnect 0) ∷ frame (proxy_join 0) ∷ [])
    × (get_by_addr t.distributor 41 ≡ none)
stale_disconnect_drops_newcomer_example =
    stale_disconnect_drops_newcomer one_client one_client-Inv 40 (record { tx = 3; id = 0 })
      client_here (λ j h. absurd (omega arith)) 41 4 absent_41

abbrev knock : MinecraftHelloPacket
knock = record {
  packet_length = 16;
  id = 0;
  version = 761;
  hostname = bytes_of "localhost";
  port = 25565;
  body = 16 ∷ 0 ∷ [];
}

abbrev player_says : List ClientHandler.Event
player_says =
    record { wake = ClientHandler.from_socket (packet (mc_data hi)); send_ok = true }
    ∷ record { wake = ClientHandler.from_channel none; send_ok = true }
    ∷ []

session_lem_example :
    (c : McClient) × ((new 9 (some 40) 3 knock true true).0 ≡ ok c)
    × (proxied ((new 9 (some 40) 3 knock true true).1 ++ life (ClientHandler.handle player_says c))
        ≡ add_minecraft_client 40 3
          ∷ Addressing.packet 40 (record { body = 16 ∷ 0 ∷ [] })
          ∷ Addressing.packet 40 hi
          ∷ [])
session_lem_example = session_lem 9 3 40 knock player_says

-- As before, with an answer of the Minecraft server to the player who has left.
late_answer_reaches_newcomer_example :
    let t =
      run
        (fine (from_channel (some (remove_minecraft_client 40)))
          ∷ fine (from_channel (some (add_minecraft_client 41 4)))
          ∷ fine (from_socket (packet (proxy_data (record { client_id = 0; packet = hi }))))
          ∷ [])
        one_client in
    (t.flow ≡ go_on)
    × (t.output ≡ frame (proxy_disconnect 0) ∷ frame (proxy_join 0) ∷ to_minecraft 4 hi ∷ [])
    × (get_by_addr t.distributor 41 ≡ some (record { tx = 4; id = 0 }))
late_answer_reaches_newcomer_example =
    late_answer_reaches_newcomer one_client one_client-Inv 40 (record { tx = 3; id = 0 })
      client_here (λ j h. absurd (omega arith)) 41 4 absent_41 hi
