-- ===== src/Gui/Drawing/Offers.antt =====
-- What the large buttons of the window in client-gui/src/main.rs offer, from its opening on.
use craftip_crosscompiletest.Gui.Editing.{WindowAction, window_run}
use craftip_crosscompiletest.Gui.Editing.Row.{Idle}
use craftip_crosscompiletest.Gui.Editing.Idle.{AllIdle, window_run-Idle, shown-Idle}
use craftip_crosscompiletest.Gui.Editing.OneActive.{window_run-AtMostOne}
use craftip_crosscompiletest.Gui.Storage.{load}
use craftip_crosscompiletest.Gui.Storage.Restart.{shown-none_active}
use craftip_crosscompiletest.Gui.Drawing.Buttons.{ends_of}
use craftip_crosscompiletest.Gui.Channel.{
  ServerState, disconnected, connecting, connected, disconnecting,
}
use craftip_crosscompiletest.Prelude.{
  ok, ℕ, ◌+◌, ◌≤◌, All, ◌≡◌, ◌⊎◌, inl, inr, refl, ◌∙◌, List, [], ◌∷◌, ◌++◌, Option, none, some,
  Bool, true, false, bytes_of, arith, if◌then◌else◌,
}
use craftip_crosscompiletest.Prelude.Maps.{bytes_eq}
use craftip_crosscompiletest.Shared.Utf8.{RustString}
use craftip_crosscompiletest.Shared.Crypto.{CryptoCrates}
use craftip_crosscompiletest.Gui.Panels.{ServerPanel, GuiState, already_connected, not_edited}
use craftip_crosscompiletest.Gui.Controller.Active.{weight, none_active, active, active_in}
use craftip_crosscompiletest.Gui.Storage.{Json, app_new}
use craftip_crosscompiletest.Gui.Drawing.{
  draw_bar, Widget, button, render, draw_panels, no_servers, draw_servers, draw_dismissal, draw,
}
use craftip_crosscompiletest.Gui.Drawing.Buttons.{
  offers, begins, ends, offers-append, behind_nothing, before_nothing, Row_lem,
}

-- The servers whose local address is not edited.
abbrev pub unedited : List ServerPanel → ℕ
unedited [] = 0
unedited (p ∷ ps) = let n = unedited ps in if not_edited p.edit_local then 1 + n else n

abbrev pub unedited_in : Option (List ServerPanel) → ℕ
unedited_in none = 0
unedited_in (some ps) = unedited ps

-- The servers that are connecting or connected.
abbrev pub ending : List ServerPanel → ℕ
ending [] = 0
ending (p ∷ ps) = ends_of p.state + ending ps

abbrev pub ending_in : Option (List ServerPanel) → ℕ
ending_in none = 0
ending_in (some ps) = ending ps

ends_of-weight : (p : ServerPanel) → ends_of p.state ≤ weight p
ends_of-weight p = go p.state refl
  where
    go : (s : ServerState) → p.state ≡ s → ends_of p.state ≤ weight p
    go disconnected e = rw e (omega arith)
    go connecting e = rw e (omega arith)
    go connected e = rw e (omega arith)
    go disconnecting e = rw e (omega arith)

ending-active : (ps : List ServerPanel) → ending ps ≤ active ps
ending-active [] = omega arith
ending-active (p ∷ ps) = omega (arith, ends_of-weight p, ending-active ps)

panels_begin-true : (ps : List ServerPanel) → All Idle ps → offers begins (draw_panels true ps) ≡ 0
unfolding draw_panels
panels_begin-true [] h = refl
panels_begin-true (p ∷ ps) h = omega (
  arith,
  offers-append begins (render true p) (draw_panels true ps),
  (Row_lem true p h.0).begins_at,
  panels_begin-true ps h.1,
)

panels_begin-false :
    (ps : List ServerPanel)
    → All Idle ps
    → already_connected ps ≡ false
    → offers begins (draw_panels false ps) ≡ unedited ps
unfolding draw_panels already_connected
panels_begin-false [] i h = refl
panels_begin-false (p ∷ ps) i h = ground (
  arith,
  offers-append begins (render false p) (draw_panels false ps),
  (Row_lem false p i.0).begins_at,
  panels_begin-false ps i.1,
)

panels_end :
    (b : Bool) (ps : List ServerPanel) → All Idle ps → offers ends (draw_panels b ps) ≡ ending ps
unfolding draw_panels
panels_end b [] h = refl
panels_end b (p ∷ ps) h = omega (
  arith,
  offers-append ends (render b p) (draw_panels b ps),
  (Row_lem b p h.0).ends_at,
  panels_end b ps h.1,
)

draw_bar-nothing : (f : RustString → Bool) (n : ℕ) (b : Bool) → offers f (draw_bar n b) ≡ 0
draw_bar-nothing f n true = refl
draw_bar-nothing f n false = refl

draw_dismissal-nothing :
    (f : RustString → Bool) (o : Option RustString)
    → f (bytes_of "OK") ≡ false
    → offers f (draw_dismissal o) ≡ 0
draw_dismissal-nothing f none h = refl
draw_dismissal-nothing f (some e) h = rw h refl

no_servers-nothing : (f : RustString → Bool) (ps : List ServerPanel) → offers f (no_servers ps) ≡ 0
no_servers-nothing f [] = refl
no_servers-nothing f (p ∷ ps) = refl

-- What the whole window offers is what its servers offer.
offers-draw :
    (f : RustString → Bool) (n : ℕ) (g : GuiState)
    → f (bytes_of "OK") ≡ false
    → offers f (draw n g).1 ≡ offers f (draw_servers g.servers)
unfolding draw
offers-draw f n g h =
    before_nothing f (draw_bar (n + 1) g.loading ++ draw_servers g.servers) (draw_dismissal g.error)
      (draw_dismissal-nothing f g.error h)
    ∙ behind_nothing f (draw_bar (n + 1) g.loading) (draw_servers g.servers)
        (draw_bar-nothing f (n + 1) g.loading)

offers-draw_servers :
    (f : RustString → Bool) (ps : List ServerPanel)
    → f (bytes_of "+") ≡ false
    → offers f (draw_servers (some ps)) ≡ offers f (draw_panels (already_connected ps) ps)
offers-draw_servers f ps h =
    before_nothing f (draw_panels (already_connected ps) ps ++ no_servers ps)
      (button (bytes_of "+") true ∷ []) (rw h refl)
    ∙ before_nothing f (draw_panels (already_connected ps) ps) (no_servers ps)
        (no_servers-nothing f ps)

already_connected-active : (ps : List ServerPanel) → already_connected ps ≡ true → 1 ≤ active ps
unfolding already_connected
already_connected-active [] h = cc
already_connected-active (p ∷ ps) h = ground (arith, already_connected-active ps)

-- Either one server is active, no beginning is offered, and an end for each server that is connecting or
-- connected; or none is active, no end is offered, and each server that is not edited offers a
-- beginning.
abbrev pub OneTunnel : Option (List ServerPanel) → List Widget → Type 0
OneTunnel servers ws =
    ((active_in servers ≡ 1) × (offers begins ws ≡ 0) × (offers ends ws ≡ ending_in servers))
    ⊎ ((active_in servers ≡ 0) × (offers ends ws ≡ 0) × (offers begins ws ≡ unedited_in servers))

draw-OneTunnel :
    (n : ℕ) (g : GuiState)
    → AllIdle g.servers
    → active_in g.servers ≤ 1
    → OneTunnel g.servers (draw n g).1
draw-OneTunnel n g idle h = go g.servers refl idle h
  where
    by_active :
        (ps : List ServerPanel) (b : Bool)
        → All Idle ps
        → already_connected ps ≡ b
        → active ps ≤ 1
        → OneTunnel (some ps) (draw_panels b ps)
    by_active ps true i e h = inl (
      omega (arith, h, already_connected-active ps e),
      panels_begin-true ps i,
      panels_end true ps i,
    )
    by_active ps false i e h = inr (
      none_active ps e,
      omega (arith, none_active ps e, ending-active ps, panels_end false ps i),
      panels_begin-false ps i e,
    )

    go :
        (o : Option (List ServerPanel))
        → g.servers ≡ o
        → AllIdle o
        → active_in o ≤ 1
        → OneTunnel o (draw n g).1
    go none e i h =
        rw (offers-draw begins n g refl, offers-draw ends n g refl, e) (inr (refl, refl, refl))
    go (some ps) e i h =
        rw
          (
            offers-draw begins n g refl,
            offers-draw ends n g refl,
            e,
            offers-draw_servers begins ps refl,
            offers-draw_servers ends ps refl,
          )
          (by_active ps (already_connected ps) i refl h)

-- From the opening of the window on, after any edits of the rows, clicks and events of the controller
-- and the clients, each frame shows one of two things. Either one server is active: then no button
-- that can be clicked begins a connection, and one ends it, unless the server is disconnecting
-- already. Or none is active: then no button ends a connection, and the button of each server that is
-- not edited begins one.
pub opened_draws-OneTunnel :
    (crypto : CryptoCrates) (json : Json) (localhost : RustString → RustString)
    (stored : Option (Option RustString)) (generated : Option (List ℕ)) (g : GuiState)
    (xs : List WindowAction) (n : ℕ)
    → app_new crypto json stored generated ≡ ok g
    → let a = (window_run localhost xs (record { gui = g; control_tx = none })).app in
      OneTunnel a.gui.servers (draw n a.gui).1
unfolding app_new
opened_draws-OneTunnel crypto json localhost stored generated g xs n h =
    let o = load crypto json stored generated in
    draw-OneTunnel n (window_run localhost xs (record { gui = g; control_tx = none })).app.gui
      (window_run-Idle localhost xs _ (shown-Idle crypto json o g h))
      (window_run-AtMostOne localhost xs _ (omega (arith, shown-none_active crypto json o g h)))
