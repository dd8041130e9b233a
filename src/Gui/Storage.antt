-- ===== src/Gui/Storage.antt =====
-- `GuiState::new`, `MyApp::new` and `MyApp::save` of client-gui/src/main.rs: the servers that the window
-- starts with, and what it stores of them. `serde_json` is not code of the repository.
pub mod Restart
use craftip_crosscompiletest.Prelude.{
  ℕ, ◌≡◌, List, [], ◌∷◌, Option, none, some, Outcome, ok, err, panic, false,
}
use craftip_crosscompiletest.Shared.Utf8.{RustString}
use craftip_crosscompiletest.Shared.Crypto.{
  CryptoCrates, CryptoError, ServerPrivateKey, default_key,
}
use craftip_crosscompiletest.Client.Structs.{Server, new_from_key}
use craftip_crosscompiletest.Gui.Panels.{ServerPanel, GuiState, panel_of, server_of}

-- The format of the storage. What is written can be read.
pub record Json : Type 0 where
  pub to_string : List Server → RustString
  pub from_str : RustString → Option (List Server)
  pub from_str-to_string : (servers : List Server) → from_str (to_string servers) ≡ some servers

-- `GuiState::new`
unfoldable pub gui_new : GuiState
gui_new = record { loading = false; error = none; servers = none }

-- The `OK` below an error.
unfoldable pub dismiss_error : GuiState → GuiState
dismiss_error g = record g { error = none }

unfoldable pub panels_of : List Server → List ServerPanel
panels_of [] = []
panels_of (s ∷ ss) = panel_of s ∷ panels_of ss

unfoldable pub servers_of : List ServerPanel → List Server
servers_of [] = []
servers_of (p ∷ ps) = server_of p ∷ servers_of ps

module _ (crypto : CryptoCrates) (json : Json) where
  open json use {to_string, from_str}

  abbrev pub one_server : Outcome CryptoError Server → Outcome CryptoError (List Server)
  one_server (ok s) = ok (s ∷ [])
  one_server (err e) = err e
  one_server panic = panic

  abbrev pub server_of_key :
      Outcome CryptoError ServerPrivateKey → Outcome CryptoError (List Server)
  server_of_key (ok k) = one_server (new_from_key crypto k)
  server_of_key (err e) = err e
  server_of_key panic = panic

  -- `serde_json::from_str(&servers).unwrap()`
  abbrev pub read : Option (List Server) → Outcome CryptoError (List Server)
  read none = panic
  read (some servers) = ok servers

  -- What is stored under `servers`, or else a new key; without a storage `cc.storage.unwrap()` panics.
  abbrev pub load : Option (Option RustString) → Option (List ℕ) → Outcome CryptoError (List Server)
  load none generated = panic
  load (some (some text)) generated = read (from_str text)
  load (some none) generated = server_of_key (default_key generated)

  abbrev pub shown : Outcome CryptoError (List Server) → Outcome CryptoError GuiState
  shown (ok servers) = ok (record (gui_new) { servers = some (panels_of servers) })
  shown (err e) = err e
  shown panic = panic

  -- `MyApp::new`: the state of the window.
  unfoldable pub app_new :
      Option (Option RustString) → Option (List ℕ) → Outcome CryptoError GuiState
  app_new stored generated = shown (load stored generated)

  abbrev pub saved : Option (List ServerPanel) → Outcome CryptoError RustString
  saved none = panic
  saved (some panels) = ok (to_string (servers_of panels))

  -- `save`: the text that is stored under `servers`.
  unfoldable pub save : GuiState → Outcome CryptoError RustString
  save g = saved g.servers
