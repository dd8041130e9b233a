-- ===== src/Tests/Window.antt =====
-- The window of client-gui/src with one server.
use craftip_crosscompiletest.Prelude.{◌≡◌, refl, [], ◌∷◌, some, none, false, arith, bytes_of}
use craftip_crosscompiletest.Shared.Utf8.{RustString}
use craftip_crosscompiletest.Client.Structs.{Server, key, clients_connected}
use craftip_crosscompiletest.Gui.Panels.{
  ServerPanel, panel_of, click, click_at, press, already_connected,
}
use craftip_crosscompiletest.Gui.Channel
use craftip_crosscompiletest.Gui.Channel.{connected, disconnecting, connecting}
use craftip_crosscompiletest.Gui.Controller.{App, handle_over, from_stats, panicked, run}
use craftip_crosscompiletest.Gui.Controller.LateStats.{late_stats_panic}

abbrev as_typed : RustString → RustString
as_typed local = local

abbrev server : Server
server = record {
  server = bytes_of "a.t.craftip.net";
  local = bytes_of "25565";
  auth = key (record { key = 1 ∷ [] });
}

abbrev idle : ServerPanel
idle = record {
  server = server.server;
  auth = server.auth;
  clients = 0;
  local = server.local;
  edit_local = none;
  state = Channel.disconnected;
  error = none;
}

panel_of_server : panel_of server ≡ idle
unfolding panel_of
panel_of_server = refl

abbrev window : App
window = record {
  gui = record { loading = false; error = none; servers = some (idle ∷ idle ∷ []) };
  control_tx = none;
}

-- While the first server is connecting, the button of the second does nothing.
second_click :
    (click as_typed 1 (record idle { state = connecting } ∷ idle ∷ [])).0
    ≡ record idle { state = connecting } ∷ idle ∷ []
unfolding click click_at press already_connected
second_click = refl

abbrev playing : App
playing = record window {
  gui = record {
    loading = false;
    error = none;
    servers = some (record idle { state = connected } ∷ []);
  };
}

late_stats_panic_example :
    (run as_typed (handle_over none ∷ from_stats (some (clients_connected 1)) ∷ []) playing).flow
    ≡ panicked
late_stats_panic_example = late_stats_panic as_typed playing none 1 (omega arith)
