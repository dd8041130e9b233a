-- ===== src/Gui/Editing/Idle.antt =====
-- Only a server that is not connected is edited (client-gui/src/main.rs and client-gui/src/backend.rs).
use craftip_crosscompiletest.Prelude.{
  get_elem?-All, get_elem?, ℕ, zero, suc, ◌≡◌, refl, sym, ap, ◌∙◌, subst, inl, inr, List, [], ◌∷◌,
  Option, none, some, Bool, true, false, All, Bool-cases, arith, Outcome, ok, err, panic,
}
use craftip_crosscompiletest.Shared.Utf8.{RustString}
use craftip_crosscompiletest.Shared.Crypto.{CryptoCrates, CryptoError}
use craftip_crosscompiletest.Client.Structs.{Server, Stats, clients_connected, ping}
use craftip_crosscompiletest.Client.Structs
use craftip_crosscompiletest.Gui.Channel.{
  GuiTriggeredEvent, connect, disconnect, ServerState, disconnected, connecting, connected,
  disconnecting,
}
use craftip_crosscompiletest.Gui.Panels.{
  enabled, pressed, ServerPanel, GuiState, is_active, already_connected, or_keep, change_active,
  with_servers, change_servers, set_active_server, press, put, click_at, click, not_edited,
  panel_of,
}
use craftip_crosscompiletest.Gui.Controller.{
  App, Action, Turn, Flow, go_on, break, panicked, unwrapped, change, on_stats, on_gui,
  send_disconnect, on_connect, on_ended, clicked, from_stats, from_gui, connect_over, handle_over,
  on_click, act,
}
use craftip_crosscompiletest.Gui.Storage.{Json, panels_of, load, shown, app_new, dismiss_error}
use craftip_crosscompiletest.Gui.Editing.{
  EditInput, edit, WindowAction, edited, dismissed, other, edit_servers, window_act, then_window,
  window_run,
}
use craftip_crosscompiletest.Gui.Editing.Row.{Idle, edit-active, edit_at-Idle}

abbrev pub AllIdle : Option (List ServerPanel) → Type 0
AllIdle none = Unit
AllIdle (some ps) = All Idle ps

abbrev pub AppIdle : App → Type 0
AppIdle a = AllIdle a.gui.servers

-- A change of a server that does not touch what is being edited.
abbrev Leaves : (ServerPanel → ServerPanel) → Type 0
Leaves f = (p : ServerPanel) → (f p).edit_local ≡ p.edit_local

or_keep-Idle :
    (p : ServerPanel) (o : Option (List ServerPanel)) → Idle p → AllIdle o → AllIdle (or_keep p o)
or_keep-Idle p none h k = tt
or_keep-Idle p (some ps) h k = (h, k)

change_active-Idle :
    (f : ServerPanel → ServerPanel) (ps : List ServerPanel)
    → Leaves f
    → All Idle ps
    → AllIdle (change_active f ps)
unfolding change_active
change_active-Idle f [] l h = tt
change_active-Idle f (p ∷ ps) l h = elim (Bool-cases (is_active p.state)) [
  | inl a ↦ rw a (still_idle h.0 a, h.1)
  | inr a ↦ rw a (or_keep-Idle p (change_active f ps) h.0 (change_active-Idle f ps l h.1))
]
  where
    still_idle : Idle p → is_active p.state ≡ true → Idle (f p)
    still_idle (inl i) a = cc
    still_idle (inr e) a = inr (l p ∙ e)

change-Idle :
    (f : ServerPanel → ServerPanel) (a : App) → Leaves f → AppIdle a → AppIdle (change f a).app
unfolding set_active_server
change-Idle f a l h = go a.gui.servers h
  where
    by_change :
        (o : Option (List ServerPanel))
        → AllIdle o
        → AppIdle (unwrapped (with_servers a.gui o) a).app
    by_change none k = h
    by_change (some qs) k = k

    go :
        (o : Option (List ServerPanel))
        → AllIdle o
        → AppIdle (unwrapped (change_servers f a.gui o) a).app
    go none k = h
    go (some ps) k = by_change (change_active f ps) (change_active-Idle f ps l k)

not_edited-none : (o : Option RustString) → not_edited o ≡ true → o ≡ none
not_edited-none none h = refl
not_edited-none (some text) h = cc

enabled-not_edited :
    (already : Bool) (p : ServerPanel) → enabled already p ≡ true → not_edited p.edit_local ≡ true
enabled-not_edited true p h = ground (arith, h)
enabled-not_edited false p h = ground (arith, h)

-- What is being edited in a server that was clicked.
edited_in : Option (ServerPanel × GuiTriggeredEvent) → Option RustString
edited_in none = none
edited_in (some (q, e)) = q.edit_local

module _ (localhost : RustString → RustString) where
  pressed-edit_local :
      (st : ServerState) (p q : ServerPanel) (e : GuiTriggeredEvent)
      → pressed localhost st p ≡ some (q, e)
      → q.edit_local ≡ p.edit_local
  unfolding edited_in
  pressed-edit_local connected p q e h = sym (ap edited_in h)
  pressed-edit_local connecting p q e h = sym (ap edited_in h)
  pressed-edit_local disconnected p q e h = sym (ap edited_in h)
  pressed-edit_local disconnecting p q e h = cc

  press-Idle :
      (already : Bool) (p q : ServerPanel) (e : GuiTriggeredEvent)
      → press localhost already p ≡ some (q, e)
      → Idle q
  unfolding press
  press-Idle already p q e h = elim (Bool-cases (enabled already p)) [
    | inl t ↦ inr (
        pressed-edit_local p.state p q e (rw t at h)
        ∙ not_edited-none p.edit_local (enabled-not_edited already p t))
    | inr f ↦ cc (rw f at h)
  ]

  put-Idle :
      (already : Bool) (p : ServerPanel) (ps : List ServerPanel)
      → Idle p
      → All Idle ps
      → All Idle (put localhost p ps (press localhost already p)).0
  put-Idle already p ps h k = go (press localhost already p) refl
    where
      go :
          (o : Option (ServerPanel × GuiTriggeredEvent))
          → press localhost already p ≡ o
          → All Idle (put localhost p ps o).0
      go none e = (h, k)
      go (some (q, x)) e = (press-Idle already p q x e, k)

  click_at-Idle :
      (already : Bool) (i : ℕ) (ps : List ServerPanel)
      → All Idle ps
      → All Idle (click_at localhost already i ps).0
  unfolding click_at
  click_at-Idle already i [] h = tt
  click_at-Idle already zero (p ∷ ps) h = put-Idle already p ps h.0 h.1
  click_at-Idle already (suc i) (p ∷ ps) h = (h.0, click_at-Idle already i ps h.1)

  on_gui-Idle :
      (tx : ℕ) (b : Bool) (e : Option GuiTriggeredEvent) (a : App)
      → AppIdle a
      → AppIdle (on_gui tx b e a).app
  unfolding on_gui
  on_gui-Idle tx b none a h = h
  on_gui-Idle tx b (some (connect s)) a h = h
  on_gui-Idle tx b (some disconnect) a h = go b a.control_tx
    where
      go : (b : Bool) (o : Option ℕ) → AppIdle (send_disconnect b o a).app
      go b none = h
      go true (some tx) = h
      go false (some tx) = h

  act-Idle : (x : Action) (a : App) → AppIdle a → AppIdle (act localhost x a).app
  unfolding act on_stats on_connect on_ended click
  act-Idle (clicked i) a h = go a.gui.servers h
    where
      go : (o : Option (List ServerPanel)) → AllIdle o → AppIdle (on_click localhost i o a).app
      go none k = h
      go (some ps) k = click_at-Idle (already_connected ps) i ps k
  act-Idle (from_stats none) a h = h
  act-Idle (from_stats (some (clients_connected n))) a h = change-Idle _ a (λ p. refl) h
  act-Idle (from_stats (some Structs.connected)) a h = h
  act-Idle (from_stats (some (ping n))) a h = h
  act-Idle (from_gui tx b e) a h = on_gui-Idle tx b e a h
  act-Idle (connect_over none) a h = change-Idle _ a (λ p. refl) h
  act-Idle (connect_over (some e)) a h = change-Idle _ a (λ p. refl) h
  act-Idle (handle_over none) a h = change-Idle _ a (λ p. refl) h
  act-Idle (handle_over (some e)) a h = change-Idle _ a (λ p. refl) h

  window_act-Idle :
      (x : WindowAction) (a : App) → AppIdle a → AppIdle (window_act localhost x a).app
  unfolding window_act dismiss_error
  window_act-Idle (edited i input) a h = go a.gui.servers h
    where
      go : (o : Option (List ServerPanel)) → AllIdle o → AllIdle (edit_servers i input o)
      go none k = tt
      go (some ps) k = edit_at-Idle (already_connected ps) i input ps k
  window_act-Idle dismissed a h = h
  window_act-Idle (other x) a h = act-Idle x a h

  then_window-Idle :
      (t : Turn) (rest : App → Turn)
      → AppIdle t.app
      → AppIdle (rest t.app).app
      → AppIdle (then_window localhost t rest).app
  then_window-Idle t rest h k = go t.flow refl
    where
      go : (f : Flow) → t.flow ≡ f → AppIdle (then_window localhost t rest).app
      go go_on e = rw (e, then_window) k
      go break e = rw (e, then_window) h
      go panicked e = rw (e, then_window) h

  pub window_run-Idle :
      (xs : List WindowAction) (a : App) → AppIdle a → AppIdle (window_run localhost xs a).app
  unfolding window_run
  window_run-Idle [] a h = h
  window_run-Idle (x ∷ xs) a h =
      let k = window_act-Idle x a h in
      then_window-Idle (window_act localhost x a) (window_run localhost xs) k
        (window_run-Idle xs _ k)

panels_of-Idle : (ss : List Server) → All Idle (panels_of ss)
unfolding panels_of panel_of
panels_of-Idle [] = tt
panels_of-Idle (s ∷ ss) = (inl refl, panels_of-Idle ss)

pub shown-Idle :
    (crypto : CryptoCrates) (json : Json) (o : Outcome CryptoError (List Server)) (g : GuiState)
    → shown crypto json o ≡ ok g
    → AllIdle g.servers
shown-Idle crypto json (ok ss) g h = subst (λ g. AllIdle g.servers) (opened h) (panels_of-Idle ss)
  where
    opened : {x y : GuiState} → ◌≡◌ {A = Outcome CryptoError GuiState} (ok x) (ok y) → x ≡ y
    opened e = cc
shown-Idle crypto json (err e) g h = cc
shown-Idle crypto json panic g h = cc

-- A window that was opened, after any edits of the rows, clicks and events of the controller and the
-- clients: a server that is active (connecting, connected or disconnecting) is not being edited, and
-- no input in its row changes it.
pub active_row_fixed :
    (crypto : CryptoCrates) (json : Json) (localhost : RustString → RustString)
    (stored : Option (Option RustString)) (generated : Option (List ℕ)) (g : GuiState)
    (xs : List WindowAction) (panels : List ServerPanel) (i : ℕ) (p : ServerPanel) (already : Bool)
    (input : EditInput)
    → app_new crypto json stored generated ≡ ok g
    → (window_run localhost xs (record { gui = g; control_tx = none })).app.gui.servers
      ≡ some panels
    → get_elem? panels i ≡ some p
    → is_active p.state ≡ true
    → (p.edit_local ≡ none) × (edit already input p ≡ p)
unfolding app_new
active_row_fixed crypto json localhost stored generated g xs panels i p already input h e found a =
    let idle =
      get_elem?-All Idle panels i p
        (subst AllIdle e (
          window_run-Idle localhost xs _
            (shown-Idle crypto json (load crypto json stored generated) g h)))
        found in
    (none_edited idle, edit-active already input p idle a)
  where
    none_edited : Idle p → p.edit_local ≡ none
    none_edited (inl i) = cc
    none_edited (inr e) = e
