-- ===== src/Tests/Editing.antt =====
-- The window of client-gui/src that is opened, edited, connected and closed.
use craftip_crosscompiletest.Gui.Drawing.{draw}
use craftip_crosscompiletest.Gui.Drawing.Offers.{OneTunnel, opened_draws-OneTunnel}
use craftip_crosscompiletest.Prelude.{
  zero, suc, ◌++◌, drop-length_append, ap, take, suc, length, take-length_append, drop, ℕ, ◌≡◌,
  refl, List, [], ◌∷◌, Option, some, none, true, false, ok, bytes_of,
}
use craftip_crosscompiletest.Shared.Utf8.{RustString}
use craftip_crosscompiletest.Client.Structs.{ServerAuthentication, Server, key}
use craftip_crosscompiletest.Gui.Channel.{connecting}
use craftip_crosscompiletest.Gui.Panels.{
  ServerPanel, GuiState, panel_of, click, click_at, press, already_connected,
}
use craftip_crosscompiletest.Gui.Controller.{clicked, act}
use craftip_crosscompiletest.Gui.Storage.{Json, gui_new, panels_of, app_new, save}
use craftip_crosscompiletest.Gui.Storage.Restart.{Reopened, app_new-save}
use craftip_crosscompiletest.Gui.Port.{localhost}
use craftip_crosscompiletest.Gui.Editing.{
  EditInput, WindowAction, edited, other, edit, edit_at, window_act, window_run,
}
use craftip_crosscompiletest.Gui.Editing.Idle.{active_row_fixed}
use craftip_crosscompiletest.Tests.Crates.{crypto}

-- A format in which a text has its length in front, and a list of servers too.
abbrev write_text : List ℕ → List ℕ → List ℕ
write_text text rest = length text ∷ (text ++ rest)

abbrev text_at : List ℕ → List ℕ
text_at [] = []
text_at (n ∷ bs) = take n bs

abbrev behind_text : List ℕ → List ℕ
behind_text [] = []
behind_text (n ∷ bs) = drop n bs

abbrev key_text : ServerAuthentication → List ℕ
key_text (key k) = k.key

abbrev write_servers : List Server → List ℕ
write_servers [] = []
write_servers (s ∷ ss) =
    write_text s.server (write_text s.local (write_text (key_text s.auth) (write_servers ss)))

abbrev read_server : List ℕ → Server
read_server bs = record {
  server = text_at bs;
  local = text_at (behind_text bs);
  auth = key (record { key = text_at (behind_text (behind_text bs)) });
}

abbrev read_servers : ℕ → List ℕ → List Server
read_servers zero bs = []
read_servers (suc n) bs =
    read_server bs ∷ read_servers n (behind_text (behind_text (behind_text bs)))

abbrev to_string : List Server → RustString
to_string servers = length servers ∷ write_servers servers

abbrev from_str : RustString → Option (List Server)
from_str [] = none
from_str (n ∷ bs) = some (read_servers n bs)

text_written : (text rest : List ℕ) → text_at (write_text text rest) ≡ text
text_written text rest = take-length_append text rest

text_skipped : (text rest : List ℕ) → behind_text (write_text text rest) ≡ rest
text_skipped text rest = drop-length_append text rest

key_again : (a : ServerAuthentication) → key (record { key = key_text a }) ≡ a
key_again (key k) = refl

servers_written :
    (servers : List Server) → read_servers (length servers) (write_servers servers) ≡ servers
servers_written [] = refl
servers_written (s ∷ ss) =
    let rest = write_servers ss in
    let third = write_text (key_text s.auth) rest in
    let second = write_text s.local third in
    rw (
      take-length_append s.server second,
      drop-length_append s.server second,
      take-length_append s.local third,
      drop-length_append s.local third,
      take-length_append (key_text s.auth) rest,
      drop-length_append (key_text s.auth) rest,
      key_again s.auth,
      servers_written ss,
    )

abbrev json : Json
json = record {
  to_string = to_string;
  from_str = from_str;
  from_str-to_string = λ servers. ap some (servers_written servers);
}

abbrev server : Server
server = record {
  server = bytes_of "a.t.craftip.net";
  local = bytes_of "25565";
  auth = key (record { key = 1 ∷ [] });
}

abbrev opened : GuiState
opened = record { loading = false; error = none; servers = some (panel_of server ∷ []) }

app_new-save_example :
    (text : RustString) × (h : GuiState) × (save crypto json opened ≡ ok text)
    × (app_new crypto json (some (some text)) none ≡ ok h)
    × Reopened (panel_of server ∷ []) h
app_new-save_example = app_new-save crypto json opened (panel_of server ∷ []) none refl

opened_from_text : app_new crypto json (some (some (to_string (server ∷ [])))) none ≡ ok opened
unfolding app_new gui_new panels_of
opened_from_text = refl

abbrev pencil : EditInput
pencil = record { pencil = true; typed = []; confirm = false; cancel = false }

abbrev type_7 : EditInput
type_7 = record { pencil = false; typed = bytes_of "7"; confirm = true; cancel = false }

-- The port is edited, and the server is connected.
abbrev edit_and_connect : List WindowAction
edit_and_connect = edited 0 pencil ∷ edited 0 type_7 ∷ other (clicked 0) ∷ []

abbrev connecting_panel : ServerPanel
connecting_panel = record {
  server = server.server;
  auth = server.auth;
  clients = 0;
  local = bytes_of "7";
  edit_local = none;
  state = connecting;
  error = none;
}

connects :
    (window_run localhost edit_and_connect
      (record { gui = opened; control_tx = none })).app.gui.servers
    ≡ some (connecting_panel ∷ [])
unfolding window_run window_act edit_at edit act click click_at press already_connected panel_of
connects = refl

active_row_fixed_example :
    (connecting_panel.edit_local ≡ none) × (edit true pencil connecting_panel ≡ connecting_panel)
active_row_fixed_example =
    active_row_fixed crypto json localhost (some (some (to_string (server ∷ [])))) none opened
      edit_and_connect (connecting_panel ∷ []) 0 connecting_panel true pencil opened_from_text
      connects refl refl

-- The second frame of the window, after a click on `Connect`.
opened_draws-OneTunnel_example :
    let a =
      (window_run localhost
        (other (clicked 0) ∷ [])
        (record { gui = opened; control_tx = none })).app in
    OneTunnel a.gui.servers (draw 1 a.gui).1
opened_draws-OneTunnel_example =
    opened_draws-OneTunnel crypto json localhost (some (some (to_string (server ∷ [])))) none opened
      (other (clicked 0) ∷ []) 1 opened_from_text
