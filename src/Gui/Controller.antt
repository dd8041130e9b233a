-- ===== src/Gui/Controller.antt =====
-- `Controller::update` of client-gui/src/backend.rs, with the task that it spawns for a client and the
-- clicks in the window, which all change the same `GuiState`.
pub mod Active
pub mod LateStats
use craftip_crosscompiletest.Prelude.{
  ℕ, List, [], ◌∷◌, ◌++◌, Option, none, some, Bool, true, false, bytes_of, ◌==◌, if◌then◌else◌,
}
use craftip_crosscompiletest.Shared.Utf8.{RustString}
use craftip_crosscompiletest.Shared.Addressing.{Channel}
use craftip_crosscompiletest.Client.Structs.{Server, Stats, clients_connected, ping, Control}
use craftip_crosscompiletest.Client.Structs
use craftip_crosscompiletest.Gui.Channel.{
  GuiTriggeredEvent, connect, disconnect, ServerState, disconnected, connected,
}
use craftip_crosscompiletest.Gui.Panels.{ServerPanel, GuiState, set_active_server, click}

-- The window, and the `control_tx` of the loop.
pub record App : Type 0 where
  pub gui : GuiState
  pub control_tx : Option Channel

-- A client that is spawned, a control message, or an event for the loop.
pub data Output : Type 0 where
  spawn : Server → Channel → Output
  control : Channel → Control → Output
  trigger : GuiTriggeredEvent → Output

-- A panic while the state is locked poisons the lock, and so ends the window too.
pub data Flow : Type 0 where
  go_on break panicked : Flow

pub record Turn : Type 0 where
  pub flow : Flow
  pub app : App
  pub output : List Output

abbrev pub quiet : Flow → App → Turn
quiet flow a = record { flow = flow; app = a; output = [] }

-- `self.state.lock().unwrap().set_active_server(..).unwrap()`
abbrev pub unwrapped : Option GuiState → App → Turn
unwrapped none a = quiet panicked a
unwrapped (some g) a = quiet go_on (record a { gui = g })

abbrev pub change : (ServerPanel → ServerPanel) → App → Turn
change closure a = unwrapped (set_active_server closure a.gui) a

unfoldable pub on_stats : Option Stats → App → Turn
on_stats none a = quiet break a
on_stats (some (clients_connected n)) a = change (λ s. record s { clients = n }) a
on_stats (some Structs.connected) a = quiet go_on a
on_stats (some (ping n)) a = quiet go_on a

abbrev pub has_colon : List ℕ → Bool
has_colon [] = false
has_colon (c ∷ cs) = let rest = has_colon cs in if c == 58 then true else rest

-- `if !server.local.contains(':') { server.server = format!("{}:{}", ..) }`
abbrev pub with_port : Server → Server
with_port s =
    if has_colon s.local then s else record s { server = s.server ++ bytes_of ":" ++ s.local }

abbrev pub send_disconnect : Bool → Option Channel → App → Turn
send_disconnect send_ok none a = quiet go_on a
send_disconnect true (some tx) a = record {
  flow = go_on;
  app = a;
  output = control tx Structs.disconnect ∷ [];
}
send_disconnect false (some tx) a = quiet panicked a

-- `new_tx` is the new control channel, and `send_ok` says whether the client still listens to its own.
unfoldable pub on_gui :
    (new_tx : Channel) → (send_ok : Bool) → Option GuiTriggeredEvent → App → Turn
on_gui new_tx send_ok none a = quiet break a
on_gui new_tx send_ok (some (connect server)) a = record {
  flow = go_on;
  app = record a { control_tx = some new_tx };
  output = spawn (with_port server) new_tx ∷ [];
}
on_gui new_tx send_ok (some disconnect) a = send_disconnect send_ok a.control_tx a

abbrev pub error_text : RustString → RustString
error_text e = bytes_of "Error connecting: " ++ e

abbrev pub as_connected : ServerPanel → ServerPanel
as_connected s = record s { state = connected; clients = 0; error = none }

abbrev pub as_failed : RustString → ServerPanel → ServerPanel
as_failed e s = record s { error = some (error_text e); state = disconnected }

abbrev pub as_ended : Option RustString → ServerPanel → ServerPanel
as_ended none s = record s { state = disconnected }
as_ended (some e) s = record s { error = some (error_text e); state = disconnected }

-- `client.connect()` is over, with the text of its error if there is one; and `client.handle()`.
unfoldable pub on_connect : Option RustString → App → Turn
on_connect none a = change as_connected a
on_connect (some e) a = change (as_failed e) a

unfoldable pub on_ended : Option RustString → App → Turn
on_ended e a = change (as_ended e) a

-- What happens to the window, in any order.
pub data Action : Type 0 where
  clicked : ℕ → Action
  from_stats : Option Stats → Action
  from_gui : (new_tx : Channel) (send_ok : Bool) → Option GuiTriggeredEvent → Action
  connect_over : Option RustString → Action
  handle_over : Option RustString → Action

abbrev pub triggers : List GuiTriggeredEvent → List Output
triggers [] = []
triggers (e ∷ es) = trigger e ∷ triggers es

abbrev pub after_click : List ServerPanel × List GuiTriggeredEvent → App → Turn
after_click (ps, es) a = record {
  flow = go_on;
  app = record a { gui = record (a.gui) { servers = some ps } };
  output = triggers es;
}

module _ (localhost : RustString → RustString) where
  abbrev pub on_click : ℕ → Option (List ServerPanel) → App → Turn
  on_click i none a = quiet go_on a
  on_click i (some ps) a = after_click (click localhost i ps) a

  unfoldable pub act : Action → App → Turn
  act (clicked i) a = on_click i a.gui.servers a
  act (from_stats s) a = on_stats s a
  act (from_gui new_tx send_ok e) a = on_gui new_tx send_ok e a
  act (connect_over e) a = on_connect e a
  act (handle_over e) a = on_ended e a

  abbrev pub then_run : Turn → (App → Turn) → Turn
  then_run t rest = elim t.flow [
    | go_on ↦ let u = rest t.app in record u { output = t.output ++ u.output }
    | break ↦ t
    | panicked ↦ t
  ]

  unfoldable pub run : List Action → App → Turn
  run [] a = quiet go_on a
  run (x ∷ xs) a = then_run (act x a) (run xs)
