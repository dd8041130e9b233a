-- ===== src/Gui/Editing.antt =====
-- The row with the local address of a server in client-gui/src/main.rs: the pencil, the text and the
-- two buttons behind it.
pub mod Row
pub mod Idle
pub mod OneActive
use craftip_crosscompiletest.Prelude.{
  ℕ, zero, suc, List, [], ◌∷◌, ◌++◌, Option, none, some, Bool, true, false, ◌&&◌, if◌then◌else◌,
}
use craftip_crosscompiletest.Shared.Utf8.{RustString}
use craftip_crosscompiletest.Gui.Panels.{ServerPanel, GuiState, is_active, already_connected}
use craftip_crosscompiletest.Gui.Storage.{dismiss_error}
use craftip_crosscompiletest.Gui.Controller.{
  App, Action, Turn, Flow, go_on, break, panicked, quiet, act,
}

-- What the user does to the row in a frame: a click on the pencil; the text as it stands then; enter,
-- or a click on the green button; a click on the red one.
pub record EditInput : Type 0 where
  pub pencil : Bool
  pub typed : RustString
  pub confirm : Bool
  pub cancel : Bool

-- `ui.set_enabled(enabled)` of the group of a server.
abbrev pub group_enabled : (already : Bool) → ServerPanel → Bool
group_enabled true p = is_active p.state
group_enabled false p = true

-- `configurable`
abbrev pub configurable : ServerPanel → Bool
configurable p = if is_active p.state then false else true

abbrev pub confirmed : EditInput → ServerPanel → ServerPanel
confirmed input p =
    if input.confirm
    then record p { local = input.typed; edit_local = none }
    else record p { edit_local = some input.typed }

abbrev pub cancelled : EditInput → ServerPanel → ServerPanel
cancelled input p = if input.cancel then record p { edit_local = none } else p

-- The `match` on `edit_local`.
abbrev pub edit_row : Option RustString → EditInput → ServerPanel → ServerPanel
edit_row none input p =
    if input.pencil && configurable p then record p { edit_local = some p.local } else p
edit_row (some text) input p = cancelled input (confirmed input p)

unfoldable pub edit : (already : Bool) → EditInput → ServerPanel → ServerPanel
edit already input p = if group_enabled already p then edit_row p.edit_local input p else p

unfoldable pub edit_at : (already : Bool) → ℕ → EditInput → List ServerPanel → List ServerPanel
edit_at already i input [] = []
edit_at already zero input (p ∷ ps) = edit already input p ∷ ps
edit_at already (suc i) input (p ∷ ps) = p ∷ edit_at already i input ps

-- What happens to the window: its rows are edited and its error is dismissed as well.
pub data WindowAction : Type 0 where
  edited : ℕ → EditInput → WindowAction
  dismissed : WindowAction
  other : Action → WindowAction

abbrev pub edit_servers : ℕ → EditInput → Option (List ServerPanel) → Option (List ServerPanel)
edit_servers i input none = none
edit_servers i input (some ps) = some (edit_at (already_connected ps) i input ps)

module _ (localhost : RustString → RustString) where
  unfoldable pub window_act : WindowAction → App → Turn
  window_act (edited i input) a =
      quiet go_on
        (record a { gui = record (a.gui) { servers = edit_servers i input a.gui.servers } })
  window_act dismissed a = quiet go_on (record a { gui = dismiss_error a.gui })
  window_act (other x) a = act localhost x a

  abbrev pub then_window : Turn → (App → Turn) → Turn
  then_window t rest = elim t.flow [
    | go_on ↦ let u = rest t.app in record u { output = t.output ++ u.output }
    | break ↦ t
    | panicked ↦ t
  ]

  unfoldable pub window_run : List WindowAction → App → Turn
  window_run [] a = quiet go_on a
  window_run (x ∷ xs) a = then_window (window_act x a) (window_run xs)
