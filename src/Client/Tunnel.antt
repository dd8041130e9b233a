-- ===== src/Client/Tunnel.antt =====
-- `State` and `Client::handle` of client/src/client.rs: the client's end of the tunnel.
use craftip_crosscompiletest.Prelude.{
  ℕ, ◌-◌, ◌%◌, ◌^◌, List, [], ◌∷◌, ◌++◌, Option, none, some, Bool, true, false, length,
}
use craftip_crosscompiletest.Prelude.Maps
use craftip_crosscompiletest.Prelude.Maps.{HashMap, nat_eq}
use craftip_crosscompiletest.Shared.Minecraft.{MinecraftDataPacket}
use craftip_crosscompiletest.Shared.Proxy.{data_packet}
use craftip_crosscompiletest.Shared.SocketPacket.{
  from_proxy_data, SocketPacket, proxy_join, proxy_disconnect, proxy_data, proxy_ping, proxy_pong,
}
use craftip_crosscompiletest.Shared.Addressing.{Channel}
use craftip_crosscompiletest.Server.Socket.{Received, failed, ended}
use craftip_crosscompiletest.Server.Socket
use craftip_crosscompiletest.Client.Structs.{
  Stats, clients_connected, ping, Control, ClientToProxy, packet, remove_minecraft_client, death,
}

pub record State : Type 0 where
  pub connections : HashMap ℕ Channel
  pub stats_tx : Option Channel

-- `State::default`
unfoldable pub no_connections : State
no_connections = record { connections = []; stats_tx = none }

unfoldable pub set_stats_tx : State → Channel → State
set_stats_tx s tx = record s { stats_tx = some tx }

-- `start`: a new task for a client id, with the channel that leads to it.
pub data Output : Type 0 where
  frame : SocketPacket → Output
  stats : Channel → Stats → Output
  to_connection : Channel → MinecraftDataPacket → Output
  start : ℕ → Channel → Output

-- `return Ok(())`, an error by `?` or `bail!`, or a panic.
pub data Flow : Type 0 where
  go_on : Flow
  closed : Flow
  bail : Flow
  panicked : Flow

pub record Turn : Type 0 where
  pub flow : Flow
  pub state : State
  pub output : List Output

abbrev pub quiet : Flow → State → Turn
quiet flow s = record { flow = flow; state = s; output = [] }

-- `if let Some(tx) = &self.stats_tx { tx.send(..).unwrap(); }`
abbrev pub report : Option Channel → Bool → State → Turn
report none stats_ok s = quiet go_on s
report (some tx) true s = record {
  flow = go_on;
  state = s;
  output = stats tx (clients_connected (length s.connections % 2 ^ 16)) ∷ [];
}
report (some tx) false s = quiet panicked s

unfoldable pub add_connection : Bool → State → ℕ → Channel → Turn
add_connection stats_ok s id tx =
    report s.stats_tx stats_ok (record s { connections = Maps.insert id tx s.connections })

unfoldable pub remove_connection : Bool → State → ℕ → Turn
remove_connection stats_ok s id =
    report s.stats_tx stats_ok (record s { connections = Maps.remove id s.connections })

abbrev pub send_over : Option Channel → Bool → State → ℕ → MinecraftDataPacket → Turn
send_over none channel_ok s id msg = quiet bail s
send_over (some tx) true s id msg = record {
  flow = go_on;
  state = s;
  output = to_connection tx msg ∷ [];
}
send_over (some tx) false s id msg =
    quiet go_on (record s { connections = Maps.remove id s.connections })

unfoldable pub send_to : Bool → State → ℕ → MinecraftDataPacket → Turn
send_to channel_ok s id msg = send_over (Maps.get id s.connections) channel_ok s id msg

-- What wakes the `select!`: the window, a task of a connection, the proxy, or one second of silence.
pub data Wake : Type 0 where
  from_control : Option Control → Wake
  from_connection : ClientToProxy → Wake
  from_proxy : Received → Wake
  tick : Wake

-- Whether the sends that the event causes succeed, the time in milliseconds as a `u16`, the channel of
-- the statistics in `Client`, and the channel of the task that a join starts.
pub record Event : Type 0 where
  pub wake : Wake
  pub framed_ok : Bool
  pub stats_ok : Bool
  pub channel_ok : Bool
  pub now : ℕ
  pub client_stats : Channel
  pub new_tx : Channel

abbrev pub with_output : List Output → Turn → Turn
with_output out t = record t { output = out ++ t.output }

abbrev pub send_then : Bool → SocketPacket → State → Turn → Turn
send_then true p s t = with_output (frame p ∷ []) t
send_then false p s t = quiet bail s

unfoldable pub on_connection : Event → ClientToProxy → State → Turn
on_connection e (packet id pkg) s =
    send_then e.framed_ok (from_proxy_data (data_packet pkg id)) s (quiet go_on s)
on_connection e (remove_minecraft_client id) s =
    send_then e.framed_ok (proxy_disconnect id) s (remove_connection e.stats_ok s id)
on_connection e (death msg) s = quiet bail s

-- `stats_tx.send(Stats::Ping(time.saturating_sub(ping)))?`
abbrev pub pinged : Bool → Channel → ℕ → State → Turn
pinged true tx n s = record { flow = go_on; state = s; output = stats tx (ping n) ∷ [] }
pinged false tx n s = quiet bail s

-- The task of the new connection is started behind `add_connection`.
abbrev pub start_after : Turn → ℕ → Channel → Turn
start_after t id new_tx = elim t.flow [
  | go_on ↦ record t { output = t.output ++ (start id new_tx ∷ []) }
  | closed ↦ t
  | bail ↦ t
  | panicked ↦ t
]

unfoldable pub on_packet : Event → SocketPacket → State → Turn
on_packet e (proxy_join id) s = start_after (add_connection e.stats_ok s id e.new_tx) id e.new_tx
on_packet e (proxy_data p) s = send_to e.channel_ok s p.client_id p.packet
on_packet e (proxy_disconnect id) s = remove_connection e.stats_ok s id
on_packet e (proxy_pong n) s = pinged e.stats_ok e.client_stats (e.now - n) s
on_packet e _ s = quiet panicked s

unfoldable pub turn_on : Wake → Event → State → Turn
turn_on (from_control c) e s = quiet closed s
turn_on (from_connection m) e s = on_connection e m s
turn_on (from_proxy (Socket.packet p)) e s = on_packet e p s
turn_on (from_proxy failed) e s = quiet bail s
turn_on (from_proxy ended) e s = quiet bail s
turn_on tick e s = send_then e.framed_ok (proxy_ping e.now) s (quiet go_on s)

-- One round of the loop.
unfoldable pub turn : Event → State → Turn
turn e s = turn_on e.wake e s

abbrev pub then_run : Turn → (State → Turn) → Turn
then_run t rest = elim t.flow [
  | go_on ↦ with_output t.output (rest t.state)
  | closed ↦ t
  | bail ↦ t
  | panicked ↦ t
]

-- The loop over the events that arrive; `go_on` at the end means that it waits for more.
unfoldable pub run : List Event → State → Turn
run [] s = quiet go_on s
run (e ∷ es) s = then_run (turn e s) (run es)

-- `handle`: `self.proxy.as_mut().unwrap()` panics without a connection to the proxy.
unfoldable pub handle : (connected : Bool) → List Event → State → Turn
handle connected events s = elim connected [ true ↦ run events s | false ↦ quiet panicked s ]
