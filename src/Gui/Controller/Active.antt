-- ===== src/Gui/Controller/Active.antt =====
-- Which servers of the window are active (client-gui/src/main.rs and client-gui/src/backend.rs).
use craftip_crosscompiletest.Prelude.{
  ℕ, zero, suc, ◌+◌, ◌≤◌, ◌≡◌, inl, inr, refl, subst, List, [], ◌∷◌, Option, none, some, Bool, true,
  false, arith, Bool-cases, if◌then◌else◌,
}
use craftip_crosscompiletest.Shared.Utf8.{RustString}
use craftip_crosscompiletest.Client.Structs.{Stats, clients_connected, ping}
use craftip_crosscompiletest.Client.Structs
use craftip_crosscompiletest.Gui.Channel.{GuiTriggeredEvent, connect, disconnect}
use craftip_crosscompiletest.Gui.Panels.{
  ServerPanel, is_active, or_keep, change_active, with_servers, change_servers, set_active_server,
  already_connected, press, put, click_at, click,
}
use craftip_crosscompiletest.Gui.Controller.{
  App, Flow, go_on, break, panicked, Turn, unwrapped, change, on_stats, on_gui, send_disconnect,
  on_connect, on_ended, Action, clicked, from_stats, from_gui, connect_over, handle_over, on_click,
  act, then_run, run,
}

abbrev pub weight : ServerPanel → ℕ
weight p = if is_active p.state then 1 else 0

-- How many servers are active.
abbrev pub active : List ServerPanel → ℕ
active [] = 0
active (p ∷ ps) = weight p + active ps

abbrev pub active_in : Option (List ServerPanel) → ℕ
active_in none = 0
active_in (some ps) = active ps

weight-le-one : (p : ServerPanel) → weight p ≤ 1
weight-le-one p = ground arith

pub active-some :
    (ps qs : List ServerPanel) (n : ℕ) → some ps ≡ some qs → active ps ≤ n → active qs ≤ n
active-some ps qs n e h = subst (λ l. active l ≤ n) (same e) h
  where
    same : some ps ≡ some qs → ps ≡ qs
    same e = cc

pub active-or_keep :
    (p : ServerPanel) (o : Option (List ServerPanel)) (qs : List ServerPanel) (n : ℕ)
    → ((rs : List ServerPanel) → o ≡ some rs → active rs ≤ n)
    → or_keep p o ≡ some qs
    → active qs ≤ weight p + n
active-or_keep p none qs n k h = cc
active-or_keep p (some rs) qs n k h =
    active-some (p ∷ rs) qs (weight p + n) h (omega (arith, k rs refl))

-- A change of the active server makes no other server active.
change_active-le :
    (f : ServerPanel → ServerPanel) (ps qs : List ServerPanel)
    → change_active f ps ≡ some qs
    → active qs ≤ active ps
unfolding change_active
change_active-le f [] qs h = cc
change_active-le f (p ∷ ps) qs h = elim (Bool-cases (is_active p.state)) [
  | inl a ↦
      active-some (f p ∷ ps) qs (weight p + active ps) (rw a at h)
        (rw a (omega (arith, weight-le-one (f p))))
  | inr a ↦ active-or_keep p (change_active f ps) qs (active ps) (change_active-le f ps) (rw a at h)
]

press-is_active :
    (localhost : RustString → RustString) (p q : ServerPanel) (e : GuiTriggeredEvent)
    → press localhost true p ≡ some (q, e)
    → weight p ≡ 1
unfolding press
press-is_active localhost p q e h = elim (Bool-cases (is_active p.state)) [
  | inl a ↦ rw a
  | inr a ↦ cc (rw a at h)
]

pub none_active : (ps : List ServerPanel) → already_connected ps ≡ false → active ps ≡ 0
unfolding already_connected
none_active [] h = refl
none_active (p ∷ ps) h = ground (arith, none_active ps)

module _ (localhost : RustString → RustString) where
  put-true :
      (p : ServerPanel) (ps : List ServerPanel)
      → active (put localhost p ps (press localhost true p)).0 ≤ weight p + active ps
  put-true p ps = go (press localhost true p) refl
    where
      go :
          (o : Option (ServerPanel × GuiTriggeredEvent))
          → press localhost true p ≡ o
          → active (put localhost p ps o).0 ≤ weight p + active ps
      go none e = omega arith
      go (some (q, x)) e = omega (arith, press-is_active localhost p q x e, weight-le-one q)

  put-any :
      (p : ServerPanel) (ps : List ServerPanel) (o : Option (ServerPanel × GuiTriggeredEvent))
      → active (put localhost p ps o).0 ≤ 1 + weight p + active ps
  put-any p ps none = omega arith
  put-any p ps (some (q, x)) = omega (arith, weight-le-one q)

  click_at-true :
      (i : ℕ) (ps : List ServerPanel) → active (click_at localhost true i ps).0 ≤ active ps
  unfolding click_at
  click_at-true i [] = omega arith
  click_at-true zero (p ∷ ps) = put-true p ps
  click_at-true (suc i) (p ∷ ps) = omega (arith, click_at-true i ps)

  click_at-false :
      (i : ℕ) (ps : List ServerPanel) → active (click_at localhost false i ps).0 ≤ 1 + active ps
  unfolding click_at
  click_at-false i [] = omega arith
  click_at-false zero (p ∷ ps) = omega (arith, put-any p ps (press localhost false p))
  click_at-false (suc i) (p ∷ ps) = omega (arith, click_at-false i ps)

  -- A click leaves at most one server active.
  click-le : (i : ℕ) (ps : List ServerPanel) → active ps ≤ 1 → active (click localhost i ps).0 ≤ 1
  unfolding click
  click-le i ps h = go (already_connected ps) refl
    where
      go : (b : Bool) → already_connected ps ≡ b → active (click_at localhost b i ps).0 ≤ 1
      go true e = omega (arith, click_at-true i ps)
      go false e = omega (arith, click_at-false i ps, none_active ps e)

abbrev pub AtMostOne : App → Type 0
AtMostOne a = active_in a.gui.servers ≤ 1

change-AtMostOne :
    (f : ServerPanel → ServerPanel) (a : App) → AtMostOne a → AtMostOne (change f a).app
unfolding set_active_server
change-AtMostOne f a h = go a.gui.servers h
  where
    by_change :
        (ps : List ServerPanel) (o : Option (List ServerPanel))
        → active ps ≤ 1
        → change_active f ps ≡ o
        → AtMostOne (unwrapped (with_servers a.gui o) a).app
    by_change ps none k e = h
    by_change ps (some qs) k e = omega (arith, change_active-le f ps qs e)

    go :
        (o : Option (List ServerPanel))
        → active_in o ≤ 1
        → AtMostOne (unwrapped (change_servers f a.gui o) a).app
    go none k = h
    go (some ps) k = by_change ps (change_active f ps) k refl

module _ (localhost : RustString → RustString) where
  pub act-AtMostOne : (x : Action) (a : App) → AtMostOne a → AtMostOne (act localhost x a).app
  unfolding act on_stats on_gui on_connect on_ended
  act-AtMostOne (clicked i) a h = go a.gui.servers h
    where
      go :
          (o : Option (List ServerPanel))
          → active_in o ≤ 1
          → AtMostOne (on_click localhost i o a).app
      go none k = h
      go (some ps) k = click-le localhost i ps k
  act-AtMostOne (from_stats none) a h = h
  act-AtMostOne (from_stats (some (clients_connected n))) a h = change-AtMostOne _ a h
  act-AtMostOne (from_stats (some Structs.connected)) a h = h
  act-AtMostOne (from_stats (some (ping n))) a h = h
  act-AtMostOne (from_gui tx b none) a h = h
  act-AtMostOne (from_gui tx b (some (connect s))) a h = h
  act-AtMostOne (from_gui tx b (some disconnect)) a h = go b a.control_tx
    where
      go : (b : Bool) (o : Option ℕ) → AtMostOne (send_disconnect b o a).app
      go b none = h
      go true (some tx) = h
      go false (some tx) = h
  act-AtMostOne (connect_over none) a h = change-AtMostOne _ a h
  act-AtMostOne (connect_over (some e)) a h = change-AtMostOne _ a h
  act-AtMostOne (handle_over e) a h = change-AtMostOne _ a h

  then_run-AtMostOne :
      (t : Turn) (rest : App → Turn)
      → AtMostOne t.app
      → AtMostOne (rest t.app).app
      → AtMostOne (then_run localhost t rest).app
  then_run-AtMostOne t rest h k = go t.flow refl
    where
      go : (f : Flow) → t.flow ≡ f → AtMostOne (then_run localhost t rest).app
      go go_on e = rw (e, then_run) k
      go break e = rw (e, then_run) h
      go panicked e = rw (e, then_run) h

  -- Whatever happens in the window, the controller and the clients' tasks, and in whatever order: if
  -- at most one server is active at first, at most one is active after it.
  pub run-AtMostOne :
      (xs : List Action) (a : App) → AtMostOne a → AtMostOne (run localhost xs a).app
  unfolding run
  run-AtMostOne [] a h = h
  run-AtMostOne (x ∷ xs) a h =
      let k = act-AtMostOne x a h in
      then_run-AtMostOne (act localhost x a) (run localhost xs) k (run-AtMostOne xs _ k)
