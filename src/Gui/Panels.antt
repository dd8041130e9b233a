-- ===== src/Gui/Panels.antt =====
-- `GuiState` and `ServerPanel` of client-gui/src/main.rs: which server is active, and what a click on
-- its button does.
use craftip_crosscompiletest.Prelude.{
  ℕ, zero, suc, List, [], ◌∷◌, Option, none, some, Bool, true, false, ◌&&◌, ◌||◌, if◌then◌else◌,
}
use craftip_crosscompiletest.Shared.Utf8.{RustString}
use craftip_crosscompiletest.Client.Structs.{Server, ServerAuthentication}
use craftip_crosscompiletest.Gui.Channel.{
  GuiTriggeredEvent, connect, disconnect, ServerState, disconnected, connecting, connected,
  disconnecting,
}

-- `clients` is the source's field `connected`, which is also a state here.
pub record ServerPanel : Type 0 where
  pub server : RustString
  pub auth : ServerAuthentication
  pub clients : ℕ
  pub local : RustString
  pub edit_local : Option RustString
  pub state : ServerState
  pub error : Option RustString

-- `ServerPanel::from` and `Server::from`
unfoldable pub panel_of : Server → ServerPanel
panel_of s = record {
  server = s.server;
  auth = s.auth;
  clients = 0;
  local = s.local;
  edit_local = none;
  state = disconnected;
  error = none;
}

unfoldable pub server_of : ServerPanel → Server
server_of p = record { server = p.server; local = p.local; auth = p.auth }

-- `state != ServerState::Disconnected`
abbrev pub is_active : ServerState → Bool
is_active disconnected = false
is_active connecting = true
is_active connected = true
is_active disconnecting = true

-- The repaint context is left out.
pub record GuiState : Type 0 where
  pub loading : Bool
  pub error : Option RustString
  pub servers : Option (List ServerPanel)

abbrev pub or_keep : ServerPanel → Option (List ServerPanel) → Option (List ServerPanel)
or_keep p none = none
or_keep p (some ps) = some (p ∷ ps)

-- `iter_mut().find(..).map(closure)`
unfoldable pub change_active :
    (ServerPanel → ServerPanel) → List ServerPanel → Option (List ServerPanel)
change_active closure [] = none
change_active closure (p ∷ ps) =
    let rest = or_keep p (change_active closure ps) in
    if is_active p.state then some (closure p ∷ ps) else rest

abbrev pub with_servers : GuiState → Option (List ServerPanel) → Option GuiState
with_servers g none = none
with_servers g (some ps) = some (record g { servers = some ps })

abbrev pub change_servers :
    (ServerPanel → ServerPanel) → GuiState → Option (List ServerPanel) → Option GuiState
change_servers closure g none = none
change_servers closure g (some ps) = with_servers g (change_active closure ps)

-- `none` where there is no active server.
unfoldable pub set_active_server : (ServerPanel → ServerPanel) → GuiState → Option GuiState
set_active_server closure g = change_servers closure g g.servers

-- `servers.iter().any(..)`
unfoldable pub already_connected : List ServerPanel → Bool
already_connected [] = false
already_connected (p ∷ ps) = is_active p.state || already_connected ps

abbrev pub not_edited : Option RustString → Bool
not_edited none = true
not_edited (some text) = false

-- `btn_txt, enabled`
abbrev pub button_on : ServerState → Bool
button_on disconnected = true
button_on connecting = true
button_on connected = true
button_on disconnecting = false

abbrev pub enabled : (already : Bool) → ServerPanel → Bool
enabled true p = is_active p.state && button_on p.state && not_edited p.edit_local
enabled false p = button_on p.state && not_edited p.edit_local

-- `localhost` is what the `match` on `parse::<u16>` makes of the local port.
module _ (localhost : RustString → RustString) where
  -- A click on a button that is enabled; `none` is the branch `unreachable!`.
  abbrev pub pressed : ServerState → ServerPanel → Option (ServerPanel × GuiTriggeredEvent)
  pressed connected p = some (record p { state = disconnecting; error = none }, disconnect)
  pressed connecting p = some (record p { state = disconnecting; error = none }, disconnect)
  pressed disconnected p = some (
    record p { state = connecting; error = none },
    connect (record { server = p.server; local = localhost p.local; auth = p.auth }),
  )
  pressed disconnecting p = none

  unfoldable pub press : Bool → ServerPanel → Option (ServerPanel × GuiTriggeredEvent)
  press already p = if enabled already p then pressed p.state p else none

  -- The panels after a click, and what is sent to the controller.
  abbrev pub Clicked : Type 0
  Clicked = List ServerPanel × List GuiTriggeredEvent

  abbrev pub put :
      ServerPanel → List ServerPanel → Option (ServerPanel × GuiTriggeredEvent) → Clicked
  put p ps none = (p ∷ ps, [])
  put p ps (some (q, e)) = (q ∷ ps, e ∷ [])

  abbrev pub behind : ServerPanel → Clicked → Clicked
  behind p (ps, es) = (p ∷ ps, es)

  -- A click on the button of the server at `i`.
  unfoldable pub click_at : (already : Bool) → ℕ → List ServerPanel → Clicked
  click_at already i [] = ([], [])
  click_at already zero (p ∷ ps) = put p ps (press already p)
  click_at already (suc i) (p ∷ ps) = behind p (click_at already i ps)

  unfoldable pub click : ℕ → List ServerPanel → Clicked
  click i ps = click_at (already_connected ps) i ps
