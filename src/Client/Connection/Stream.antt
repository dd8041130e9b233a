-- ===== src/Client/Connection/Stream.antt =====
-- What passes through the task of client/src/connection_handler.rs, in both directions.
use craftip_crosscompiletest.Prelude.{
  ℕ, ◌≡◌, refl, ap, List, [], ◌∷◌, ◌++◌, Option, none, some, Bool, true, false,
}
use craftip_crosscompiletest.Shared.Utf8.{RustString}
use craftip_crosscompiletest.Client.Structs.{ClientToProxy, packet, remove_minecraft_client, death}
use craftip_crosscompiletest.Client.Connection.{
  ClientConnection, Output, write, to_client, Wake, from_channel, from_server, Event, Turn,
  on_server, turn_on, turn, then_run, run, handle_client, set_death, drop, on_error, task,
}

-- What an event means on its own.
pub data Meaning : Type 0 where
  player_says : List ℕ → Meaning
  server_says : List ℕ → Meaning
  client_left : Meaning
  server_left : Meaning

abbrev pub meaning : Wake → Bool → Meaning
meaning (from_channel none) send_ok = client_left
meaning (from_channel (some pkg)) true = player_says pkg.body
meaning (from_channel (some pkg)) false = server_left
meaning (from_server (some (b ∷ bs))) true = server_says (b ∷ bs)
meaning (from_server (some (b ∷ bs))) false = server_left
meaning (from_server (some [])) send_ok = server_left
meaning (from_server none) send_ok = server_left

-- The messages to the client's loop, and the writes to the Minecraft server.
abbrev pub Traffic : Type 0
Traffic = List ClientToProxy × List (List ℕ)

abbrev pub before : Meaning → ℕ → Traffic → Traffic
before (player_says bs) id (ms, ws) = (ms, bs ∷ ws)
before (server_says bs) id (ms, ws) = (packet id (record { body = bs }) ∷ ms, ws)
before client_left id rest = ([], [])
before server_left id rest = (remove_minecraft_client id ∷ [], [])

abbrev pub expected : List Event → ℕ → Traffic
expected [] id = (remove_minecraft_client id ∷ [], [])
expected (e ∷ es) id = before (meaning e.wake e.send_ok) id (expected es id)

abbrev pub message : ClientToProxy → Traffic → Traffic
message m (ms, ws) = (m ∷ ms, ws)

abbrev pub written : List ℕ → Traffic → Traffic
written bs (ms, ws) = (ms, bs ∷ ws)

-- The same of what the task puts out.
abbrev pub traffic : List Output → Traffic
traffic [] = ([], [])
traffic (write bs ∷ out) = written bs (traffic out)
traffic (to_client tx m ∷ out) = message m (traffic out)

abbrev pub life : Turn → RustString → List Output
life t error = t.output ++ on_error t.flow error t.connection ++ drop t.connection

-- One round, where the rounds behind it come to `rest`.
module _ (c : ClientConnection) (open_end : c.need_for_close ≡ true) (error : RustString)
    (next : ClientConnection → Turn) (rest : Traffic)
    (later : traffic (life (next c) error) ≡ rest) where
  life-on_server :
      (bs : Option (List ℕ)) (b : Bool)
      → traffic (life (then_run (on_server b bs c) next) error)
        ≡ before (meaning (from_server bs) b) c.client_id rest
  unfolding drop
  life-on_server none true = refl
  life-on_server none false = refl
  life-on_server (some []) true = refl
  life-on_server (some []) false = refl
  life-on_server (some (x ∷ xs)) true =
      ap (message (packet c.client_id (record { body = x ∷ xs }))) later
  life-on_server (some (x ∷ xs)) false = refl

  life-turn_on :
      (w : Wake) (b : Bool)
      → traffic (life (then_run (turn_on w b c) next) error) ≡ before (meaning w b) c.client_id rest
  life-turn_on (from_channel none) true = unfold drop in refl
  life-turn_on (from_channel none) false = unfold drop in refl
  life-turn_on (from_channel (some pkg)) true = ap (written pkg.body) later
  life-turn_on (from_channel (some pkg)) false = unfold drop in refl
  life-turn_on (from_server bs) b = life-on_server bs b

  life-turn :
      (e : Event)
      → traffic (life (then_run (turn e c) next) error)
        ≡ before (meaning e.wake e.send_ok) c.client_id rest
  unfolding turn
  life-turn e = life-turn_on e.wake e.send_ok

life-run :
    (es : List Event) (error : RustString) (c : ClientConnection)
    → c.need_for_close ≡ true
    → traffic (life (run es c) error) ≡ expected es c.client_id
unfolding run
life-run [] error c h = unfold drop in rw h
life-run (e ∷ es) error c h =
    life-turn c h error (run es) (expected es c.client_id) (life-run es error c h) e

-- The task of a connection, whenever it ends: what the player sends is written to the Minecraft
-- server, and what the server sends goes to the client's loop under the id of the connection, both in
-- order; and the loop hears once that the connection is gone, unless it has dropped it itself. When
-- the Minecraft server cannot be reached, the loop gets the error, and then hears that the connection
-- is gone.
pub task_lem :
    (es : List Event) (error : RustString) (c : ClientConnection)
    → c.need_for_close ≡ true
    → (traffic (task true es error c) ≡ expected es c.client_id)
      × (traffic (task false es error c)
          ≡ (death error ∷ remove_minecraft_client c.client_id ∷ [], []))
unfolding task handle_client
task_lem es error c h = (life-run es error c h, unfold drop set_death in rw h)
