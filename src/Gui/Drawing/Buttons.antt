-- ===== src/Gui/Drawing/Buttons.antt =====
-- Which of the buttons of a server in client-gui/src/main.rs begin a connection or end one.
use craftip_crosscompiletest.Gui.Editing.Row.{Idle}
use craftip_crosscompiletest.Prelude.{
  inr, inl, ℕ, ◌+◌, ◌≡◌, refl, ◌∙◌, List, [], ◌∷◌, ◌++◌, Option, none, some, Bool, true, false,
  ◌&&◌, ◌||◌, bytes_of, arith, if◌then◌else◌,
}
use craftip_crosscompiletest.Prelude.Maps.{bytes_eq, bytes_beq}
use craftip_crosscompiletest.Shared.Utf8.{RustString}
use craftip_crosscompiletest.Gui.Channel.{
  ServerState, disconnected, connecting, connected, disconnecting,
}
use craftip_crosscompiletest.Gui.Panels.{ServerPanel, is_active, not_edited}
use craftip_crosscompiletest.Gui.Editing.{group_enabled}
use craftip_crosscompiletest.Gui.Drawing.{
  clipboard, Widget, button, draw_local, draw_state, draw_error, main_button, draw_group, render,
}

-- How many buttons can be clicked whose text passes the test.
abbrev pub offers : (RustString → Bool) → List Widget → ℕ
offers f [] = 0
offers f (button text on ∷ ws) = let n = offers f ws in if f text && on then 1 + n else n
offers f (_ ∷ ws) = offers f ws

-- The texts that begin a connection, and those that end one.
abbrev pub begins : RustString → Bool
begins text = bytes_beq text (bytes_of "Connect")

abbrev pub ends : RustString → Bool
ends text = bytes_beq text (bytes_of "Stop connecting") || bytes_beq text (bytes_of "Disconnect")

pub offers-append :
    (f : RustString → Bool) (a b : List Widget) → offers f (a ++ b) ≡ offers f a + offers f b
offers-append f [] b = omega arith
offers-append f (button text on ∷ a) b = ground (arith, offers-append f a b)
offers-append f (_ ∷ a) b = offers-append f a b

pub behind_nothing :
    (f : RustString → Bool) (a b : List Widget) → offers f a ≡ 0 → offers f (a ++ b) ≡ offers f b
behind_nothing f a b h = omega (arith, offers-append f a b, h)

pub before_nothing :
    (f : RustString → Bool) (a b : List Widget) → offers f b ≡ 0 → offers f (a ++ b) ≡ offers f a
before_nothing f a b h = omega (arith, offers-append f a b, h)

pub all_nothing :
    (f : RustString → Bool) (a b : List Widget)
    → offers f a ≡ 0
    → offers f b ≡ 0
    → offers f (a ++ b) ≡ 0
all_nothing f a b h k = behind_nothing f a b h ∙ k

-- Neither a beginning nor an end is offered.
abbrev Quiet : List Widget → Type 0
Quiet ws = (offers begins ws ≡ 0) × (offers ends ws ≡ 0)

draw_local-Quiet : (on : Bool) (o : Option RustString) (p : ServerPanel) → Quiet (draw_local on o p)
draw_local-Quiet on none p = (refl, refl)
draw_local-Quiet on (some text) p = (refl, refl)

draw_state-Quiet : (on : Bool) (s : ServerState) (n : ℕ) → Quiet (draw_state on s n)
draw_state-Quiet on disconnected n = (refl, refl)
draw_state-Quiet on connecting n = (refl, refl)
draw_state-Quiet on connected n = (refl, refl)
draw_state-Quiet on disconnecting n = (refl, refl)

draw_error-Quiet : (o : Option RustString) → Quiet (draw_error o)
draw_error-Quiet none = (refl, refl)
draw_error-Quiet (some e) = (refl, refl)

-- Of the group of a server only the large button counts.
offers-draw_group :
    (f : RustString → Bool) (on : Bool) (p : ServerPanel)
    → f clipboard ≡ false
    → offers f (draw_local on p.edit_local p) ≡ 0
    → offers f (draw_state on p.state p.clients) ≡ 0
    → offers f (draw_error p.error) ≡ 0
    → offers f (draw_group on p) ≡ offers f (main_button on p ∷ [])
offers-draw_group f on p e a b c =
    let local = draw_local on p.edit_local p in
    let status = draw_state on p.state p.clients in
    rw e (
      behind_nothing f (local ++ status ++ draw_error p.error) (main_button on p ∷ [])
        (all_nothing f (local ++ status) (draw_error p.error) (all_nothing f local status a b) c))

abbrev pub ends_of : ServerState → ℕ
ends_of disconnected = 0
ends_of connecting = 1
ends_of connected = 1
ends_of disconnecting = 0

-- What the large button of a server offers: a beginning if no server is active and its local address
-- is not edited; an end if it is connecting or connected itself.
pub record Row (already : Bool) (p : ServerPanel) : Type 0 where
  pub begins_at :
      offers begins (render already p)
      ≡ (if already || is_active p.state then 0 else if not_edited p.edit_local then 1 else 0)
  pub ends_at : offers ends (render already p) ≡ ends_of p.state

main_begins :
    (already : Bool) (p : ServerPanel)
    → offers begins (main_button (group_enabled already p) p ∷ [])
      ≡ (if already || is_active p.state then 0 else if not_edited p.edit_local then 1 else 0)
main_begins already p = go already p.state refl
  where
    go :
        (b : Bool) (s : ServerState)
        → p.state ≡ s
        → offers begins (main_button (group_enabled b p) p ∷ [])
          ≡ (if b || is_active p.state then 0 else if not_edited p.edit_local then 1 else 0)
    go true disconnected e = rw e refl
    go true connecting e = rw e refl
    go true connected e = rw e refl
    go true disconnecting e = rw e refl
    go false disconnected e = rw e refl
    go false connecting e = rw e refl
    go false connected e = rw e refl
    go false disconnecting e = rw e refl

main_ends :
    (already : Bool) (p : ServerPanel)
    → Idle p
    → offers ends (main_button (group_enabled already p) p ∷ []) ≡ ends_of p.state
main_ends already p idle = go already p.state refl idle
  where
    go :
        (b : Bool) (s : ServerState)
        → p.state ≡ s
        → Idle p
        → offers ends (main_button (group_enabled b p) p ∷ []) ≡ ends_of p.state
    go b disconnected e h = rw e refl
    go b disconnecting e h = rw e refl
    go b s e (inl i) = cc (rw e at i)
    go true connecting e (inr n) = rw (e, n) refl
    go true connected e (inr n) = rw (e, n) refl
    go false connecting e (inr n) = rw (e, n) refl
    go false connected e (inr n) = rw (e, n) refl

pub Row_lem : (already : Bool) (p : ServerPanel) → Idle p → Row already p
unfolding render
Row_lem already p idle =
    let on = group_enabled already p in
    let l = draw_local-Quiet on p.edit_local p in
    let s = draw_state-Quiet on p.state p.clients in
    let e = draw_error-Quiet p.error in
    record {
      begins_at = offers-draw_group begins on p refl l.0 s.0 e.0 ∙ main_begins already p;
      ends_at = offers-draw_group ends on p refl l.1 s.1 e.1 ∙ main_ends already p idle;
    }
