-- ===== src/Client/Connection.antt =====
-- client/src/connection_handler.rs: the task that joins one client id to the local Minecraft server,
-- and its end as client/src/client.rs spawns it.
pub mod Stream
use craftip_crosscompiletest.Prelude.{ℕ, List, [], ◌∷◌, ◌++◌, Option, none, some, Bool, true, false}
use craftip_crosscompiletest.Shared.Utf8.{RustString}
use craftip_crosscompiletest.Shared.Minecraft.{MinecraftDataPacket}
use craftip_crosscompiletest.Shared.Addressing.{Channel}
use craftip_crosscompiletest.Client.Structs.{ClientToProxy, packet, remove_minecraft_client, death}

pub record ClientConnection : Type 0 where
  pub mc_server : RustString
  pub client_id : ℕ
  pub client_rx : Channel
  pub proxy_tx : Channel
  pub need_for_close : Bool

-- `new`, where `rx` is the new channel.
unfoldable pub new_connection : Channel → RustString → ℕ → Channel → ClientConnection
new_connection proxy_tx mc_server client_id rx = record {
  mc_server = mc_server;
  client_id = client_id;
  client_rx = rx;
  proxy_tx = proxy_tx;
  need_for_close = true;
}

-- Bytes to the Minecraft server, or a message to the loop of the client.
pub data Output : Type 0 where
  write : List ℕ → Output
  to_client : Channel → ClientToProxy → Output

-- A packet of the channel (`None` when it is closed), or what `read` gives: at most 1024 bytes, none
-- at the end of the stream, or an error.
pub data Wake : Type 0 where
  from_channel : Option MinecraftDataPacket → Wake
  from_server : Option (List ℕ) → Wake

-- `send_ok`: the write or the send that the event causes succeeds.
pub record Event : Type 0 where
  pub wake : Wake
  pub send_ok : Bool

-- `leave` is the `break`, behind which `need_for_close` is set.
pub data Flow : Type 0 where
  go_on : Flow
  leave : Flow
  done : Flow
  failed : Flow

pub record Turn : Type 0 where
  pub flow : Flow
  pub connection : ClientConnection
  pub output : List Output

abbrev pub quiet : Flow → ClientConnection → Turn
quiet flow c = record { flow = flow; connection = c; output = [] }

abbrev pub on_channel : Bool → Option MinecraftDataPacket → ClientConnection → Turn
on_channel true (some pkg) c = record { flow = go_on; connection = c; output = write pkg.body ∷ [] }
on_channel false (some pkg) c = quiet leave c
on_channel send_ok none c = quiet done (record c { need_for_close = false })

abbrev pub on_server : Bool → Option (List ℕ) → ClientConnection → Turn
on_server send_ok none c = quiet leave c
on_server send_ok (some []) c = quiet leave c
on_server true (some (b ∷ bs)) c = record {
  flow = go_on;
  connection = c;
  output = to_client c.proxy_tx (packet c.client_id (record { body = b ∷ bs })) ∷ [];
}
on_server false (some (b ∷ bs)) c = quiet leave c

abbrev pub turn_on : Wake → Bool → ClientConnection → Turn
turn_on (from_channel pkg) send_ok c = on_channel send_ok pkg c
turn_on (from_server bytes) send_ok c = on_server send_ok bytes c

-- One round of the loop.
unfoldable pub turn : Event → ClientConnection → Turn
turn e c = turn_on e.wake e.send_ok c

abbrev pub then_run : Turn → (ClientConnection → Turn) → Turn
then_run t rest = elim t.flow [
  | go_on ↦ let u = rest t.connection in record u { output = t.output ++ u.output }
  | leave ↦ record t { flow = done; connection = record t.connection { need_for_close = true } }
  | done ↦ t
  | failed ↦ t
]

-- The loop over the events that arrive; `go_on` at the end means that it waits for more.
unfoldable pub run : List Event → ClientConnection → Turn
run [] c = quiet go_on c
run (e ∷ es) c = then_run (turn e c) (run es)

-- `connect_ok`: the local server can be reached.
unfoldable pub handle_client : (connect_ok : Bool) → List Event → ClientConnection → Turn
handle_client connect_ok es c = elim connect_ok [ true ↦ run es c | false ↦ quiet failed c ]

unfoldable pub close : ClientConnection → List Output
close c = to_client c.proxy_tx (remove_minecraft_client c.client_id) ∷ []

unfoldable pub set_death : RustString → ClientConnection → List Output
set_death error c = to_client c.proxy_tx (death error) ∷ []

unfoldable pub drop : ClientConnection → List Output
drop c = elim c.need_for_close [
  | true ↦ to_client c.proxy_tx (remove_minecraft_client c.client_id) ∷ []
  | false ↦ []
]

abbrev pub on_error : Flow → RustString → ClientConnection → List Output
on_error failed error c = set_death error c
on_error _ error c = []

-- The task that `Client::handle` spawns, to its end; `error` is the text of the error if there is one.
unfoldable pub task : (connect_ok : Bool) → List Event → RustString → ClientConnection → List Output
task connect_ok es error c =
    let t = handle_client connect_ok es c in
    t.output ++ on_error t.flow error t.connection ++ drop t.connection
