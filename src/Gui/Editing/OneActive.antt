-- ===== src/Gui/Editing/OneActive.antt =====
-- The edits of the rows in client-gui/src/main.rs and the number of servers that are active.
use craftip_crosscompiletest.Prelude.{
  ℕ, zero, suc, ◌+◌, ◌≡◌, refl, ap, List, [], ◌∷◌, Option, some, none, if◌then◌else◌, arith,
}
use craftip_crosscompiletest.Shared.Utf8.{RustString}
use craftip_crosscompiletest.Gui.Panels.{ServerPanel, is_active, already_connected}
use craftip_crosscompiletest.Gui.Controller.{App, Turn, Flow, go_on, break, panicked}
use craftip_crosscompiletest.Gui.Controller.Active.{
  weight, active, active_in, AtMostOne, act-AtMostOne,
}
use craftip_crosscompiletest.Gui.Storage.{dismiss_error}
use craftip_crosscompiletest.Gui.Editing.{
  Bool, EditInput, edit_at, WindowAction, edited, dismissed, other, edit_servers, window_act,
  then_window, window_run,
}
use craftip_crosscompiletest.Gui.Editing.Row.{edit-state}

edit_at-active :
    (b : Bool) (i : ℕ) (input : EditInput) (ps : List ServerPanel)
    → active (edit_at b i input ps) ≡ active ps
unfolding edit_at
edit_at-active b i input [] = refl
edit_at-active b zero input (p ∷ ps) =
    ap (λ s. (if is_active s then 1 else 0) + active ps) (edit-state b input p)
edit_at-active b (suc i) input (p ∷ ps) = ap (λ n. weight p + n) (edit_at-active b i input ps)

edit_servers-active :
    (i : ℕ) (input : EditInput) (o : Option (List ServerPanel))
    → active_in (edit_servers i input o) ≡ active_in o
edit_servers-active i input none = refl
edit_servers-active i input (some ps) = edit_at-active (already_connected ps) i input ps

module _ (localhost : RustString → RustString) where
  window_act-AtMostOne :
      (x : WindowAction) (a : App) → AtMostOne a → AtMostOne (window_act localhost x a).app
  unfolding window_act dismiss_error
  window_act-AtMostOne (edited i input) a h =
      omega (arith, h, edit_servers-active i input a.gui.servers)
  window_act-AtMostOne dismissed a h = h
  window_act-AtMostOne (other x) a h = act-AtMostOne localhost x a h

  then_window-AtMostOne :
      (t : Turn) (rest : App → Turn)
      → AtMostOne t.app
      → AtMostOne (rest t.app).app
      → AtMostOne (then_window localhost t rest).app
  then_window-AtMostOne t rest h k = go t.flow refl
    where
      go : (f : Flow) → t.flow ≡ f → AtMostOne (then_window localhost t rest).app
      go go_on e = rw (e, then_window) k
      go break e = rw (e, then_window) h
      go panicked e = rw (e, then_window) h

  -- Edits of the rows and the dismissal of an error included: if at most one server is active at
  -- first, at most one is active after it.
  pub window_run-AtMostOne :
      (xs : List WindowAction) (a : App) → AtMostOne a → AtMostOne (window_run localhost xs a).app
  unfolding window_run
  window_run-AtMostOne [] a h = h
  window_run-AtMostOne (x ∷ xs) a h =
      let k = window_act-AtMostOne x a h in
      then_window-AtMostOne (window_act localhost x a) (window_run localhost xs) k
        (window_run-AtMostOne xs _ k)
