-- ===== src/Gui/Storage/Restart.antt =====
-- The window closed and opened again (client-gui/src/main.rs).
use craftip_crosscompiletest.Prelude.{
  subst, ℕ, ◌≡◌, refl, ap, List, [], ◌∷◌, Option, none, some, Outcome, ok, err, panic, arith,
}
use craftip_crosscompiletest.Shared.Utf8.{RustString}
use craftip_crosscompiletest.Shared.Crypto.{CryptoCrates, CryptoError}
use craftip_crosscompiletest.Client.Structs.{Server}
use craftip_crosscompiletest.Gui.Panels.{ServerPanel, GuiState, panel_of, server_of}
use craftip_crosscompiletest.Gui.Controller.{Action, run}
use craftip_crosscompiletest.Gui.Controller.Active.{active, active_in, run-AtMostOne, AtMostOne}
use craftip_crosscompiletest.Gui.Storage.{
  Json, gui_new, panels_of, servers_of, load, shown, app_new, save,
}

servers_of-panels_of : (ss : List Server) → servers_of (panels_of ss) ≡ ss
unfolding servers_of panels_of server_of panel_of
servers_of-panels_of [] = refl
servers_of-panels_of (s ∷ ss) = ap (λ ts. s ∷ ts) (servers_of-panels_of ss)

active-panels_of : (ss : List Server) → active (panels_of ss) ≡ 0
unfolding panels_of panel_of
active-panels_of [] = refl
active-panels_of (s ∷ ss) = omega (arith, active-panels_of ss)

-- What a window that was opened from a text shows: the servers, none of them active.
pub record Reopened (panels : List ServerPanel) (g : GuiState) : Type 0 where
  pub again : List ServerPanel
  pub are_shown : g.servers ≡ some again
  pub same_servers : servers_of again ≡ servers_of panels
  pub none_active : active again ≡ 0

module _ (crypto : CryptoCrates) (json : Json) where
  -- A window that shows servers can be saved, and one that is opened from what was stored shows the same servers: the names, the
  -- keys and the local addresses, in the same order, with none of them active.
  pub app_new-save :
      (g : GuiState) (panels : List ServerPanel) (generated : Option (List ℕ))
      → g.servers ≡ some panels
      → (text : RustString) × (h : GuiState) × (save crypto json g ≡ ok text)
        × (app_new crypto json (some (some text)) generated ≡ ok h)
        × Reopened panels h
  unfolding app_new save gui_new
  app_new-save g panels generated e = (
    json.to_string (servers_of panels),
    record (gui_new) { servers = some (panels_of (servers_of panels)) },
    rw e refl,
    rw (json.from_str-to_string (servers_of panels)) refl,
    record {
      again = panels_of (servers_of panels);
      are_shown = refl;
      same_servers = servers_of-panels_of (servers_of panels);
      none_active = active-panels_of (servers_of panels);
    },
  )

  pub shown-none_active :
      (o : Outcome CryptoError (List Server)) (g : GuiState)
      → shown crypto json o ≡ ok g
      → active_in g.servers ≡ 0
  unfolding gui_new
  shown-none_active (ok ss) g h =
      subst (λ g. active_in g.servers ≡ 0) (opened h) (active-panels_of ss)
    where
      opened : {x y : GuiState} → ◌≡◌ {A = Outcome CryptoError GuiState} (ok x) (ok y) → x ≡ y
      opened e = cc
  shown-none_active (err e) g h = cc
  shown-none_active panic g h = cc

  -- From the opening of the window on, whether its servers were stored or made of a new key,
  -- whatever happens in the window, the controller and the clients' tasks: at most one server is active.
  pub opened-AtMostOne :
      (localhost : RustString → RustString) (stored : Option (Option RustString))
      (generated : Option (List ℕ)) (g : GuiState) (xs : List Action)
      → app_new crypto json stored generated ≡ ok g
      → AtMostOne (run localhost xs (record { gui = g; control_tx = none })).app
  unfolding app_new
  opened-AtMostOne localhost stored generated g xs h =
      run-AtMostOne localhost xs _
        (omega (arith, shown-none_active (load crypto json stored generated) g h))
