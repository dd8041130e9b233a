-- ===== src/Gui/Drawing.antt =====
-- What a frame of the window shows (`update` of `MyApp` and `render` of `ServerPanel` in
-- client-gui/src/main.rs), in the order of the calls to `egui`. Sizes, colours other than the red of an
-- error, and the texts that appear under the pointer are left out.
pub mod Buttons
pub mod Offers
use craftip_crosscompiletest.Prelude.{
  ℕ, ◌+◌, List, [], ◌∷◌, ◌++◌, Option, none, some, Bool, true, false, ◌&&◌, bytes_of,
}
use craftip_crosscompiletest.Shared.Utf8.{RustString}
use craftip_crosscompiletest.Gui.Channel.{
  ServerState, disconnected, connecting, connected, disconnecting,
}
use craftip_crosscompiletest.Gui.Panels.{
  ServerPanel, GuiState, already_connected, not_edited, button_on,
}
use craftip_crosscompiletest.Gui.Port.{decimal}
use craftip_crosscompiletest.Gui.Editing.{group_enabled, configurable}

-- `red`: a label in red. A button and a text field can be enabled or not.
pub data Widget : Type 0 where
  heading : RustString → Widget
  label : RustString → Widget
  red : RustString → Widget
  spinner : Widget
  separator : Widget
  button : RustString → Bool → Widget
  text_edit : RustString → Bool → Widget

-- The pictures on the small buttons, in UTF-8.
abbrev pub clipboard : RustString
clipboard = 0xf0 ∷ 0x9f ∷ 0x93 ∷ 0x8b ∷ []

abbrev pencil : RustString
pencil = 0xe2 ∷ 0x9c ∷ 0x8f ∷ []

abbrev tick : RustString
tick = 0xe2 ∷ 0x9c ∷ 0x94 ∷ []

abbrev cross : RustString
cross = 0xe2 ∷ 0x9d ∷ 0x8c ∷ []

abbrev bin : RustString
bin = 0xf0 ∷ 0x9f ∷ 0x97 ∷ 0x91 ∷ []

abbrev plug : RustString
plug = 0xf0 ∷ 0x9f ∷ 0x94 ∷ 0x8c ∷ []

-- The local address, or the text field for it; `on` is what is set for the group.
abbrev pub draw_local : (on : Bool) → Option RustString → ServerPanel → List Widget
draw_local on none p =
    label p.local ∷ button pencil (on && configurable p) ∷ button clipboard on ∷ []
draw_local on (some text) p = text_edit text on ∷ button tick on ∷ button cross on ∷ []

-- The `match` on the state: what stands beside the addresses.
abbrev pub draw_state : (on : Bool) → ServerState → ℕ → List Widget
draw_state on disconnected clients = button bin on ∷ []
draw_state on connecting clients = label (bytes_of "Connecting...") ∷ spinner ∷ []
draw_state on disconnecting clients = label (bytes_of "Disconnecting...") ∷ spinner ∷ []
draw_state on connected clients = label (decimal 5 clients ++ bytes_of " Clients") ∷ label plug ∷ []

abbrev pub draw_error : Option RustString → List Widget
draw_error none = []
draw_error (some error) = red error ∷ []

-- `btn_txt`
abbrev pub button_text : ServerState → RustString
button_text disconnected = bytes_of "Connect"
button_text connecting = bytes_of "Stop connecting"
button_text connected = bytes_of "Disconnect"
button_text disconnecting = bytes_of "Disconnecting..."

-- The large button of a server.
abbrev pub main_button : (on : Bool) → ServerPanel → Widget
main_button on p = button (button_text p.state) (on && button_on p.state && not_edited p.edit_local)

abbrev pub draw_group : (on : Bool) → ServerPanel → List Widget
draw_group on p =
    (label (bytes_of "Server IP") ∷ label p.server ∷ button clipboard on ∷ [])
    ++ (label (bytes_of "local port") ∷ draw_local on p.edit_local p)
    ++ draw_state on p.state p.clients
    ++ draw_error p.error
    ++ (main_button on p ∷ [])

unfoldable pub render : (already : Bool) → ServerPanel → List Widget
render already p = draw_group (group_enabled already p) p

unfoldable pub draw_panels : (already : Bool) → List ServerPanel → List Widget
draw_panels already [] = []
draw_panels already (p ∷ ps) = render already p ++ draw_panels already ps

abbrev pub no_servers : List ServerPanel → List Widget
no_servers [] = label (bytes_of "No servers found") ∷ []
no_servers (p ∷ ps) = []

abbrev pub draw_servers : Option (List ServerPanel) → List Widget
draw_servers none = spinner ∷ []
draw_servers (some ps) =
    draw_panels (already_connected ps) ps ++ no_servers ps ++ (button (bytes_of "+") true ∷ [])

abbrev pub draw_loading : Bool → List Widget
draw_loading true = spinner ∷ []
draw_loading false = []

abbrev pub draw_dismissal : Option RustString → List Widget
draw_dismissal none = []
draw_dismissal (some error) = red error ∷ button (bytes_of "OK") true ∷ []

-- The bar at the top, which shows the number of frames so far: as many digits as a `usize` can have.
abbrev pub draw_bar : (frames_rendered : ℕ) → (loading : Bool) → List Widget
draw_bar frames_rendered loading =
    (heading (bytes_of "CraftIP debug") ∷ draw_loading loading)
    ++ (red (bytes_of "pre alpha") ∷ label (decimal 20 frames_rendered) ∷ separator ∷ [])

-- `update`, in a frame in which nothing is clicked.
unfoldable pub draw : (frames_rendered : ℕ) → GuiState → ℕ × List Widget
draw frames_rendered g = (
  frames_rendered + 1,
  draw_bar (frames_rendered + 1) g.loading ++ draw_servers g.servers ++ draw_dismissal g.error,
)
