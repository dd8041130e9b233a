-- ===== src/Gui/Controller/LateStats.antt =====
-- A number of clients that the controller of client-gui/src/backend.rs gets after the client has ended.
use craftip_crosscompiletest.Prelude.{
  ℕ, ◌≤◌, ◌≡◌, inl, inr, refl, List, [], ◌∷◌, Option, none, some, false, arith, Bool-cases,
}
use craftip_crosscompiletest.Shared.Utf8.{RustString}
use craftip_crosscompiletest.Client.Structs.{clients_connected}
use craftip_crosscompiletest.Gui.Panels.{
  ServerPanel, is_active, change_active, with_servers, change_servers, set_active_server,
}
use craftip_crosscompiletest.Gui.Controller.{
  App, panicked, Turn, unwrapped, change, as_ended, on_stats, on_ended, from_stats, handle_over,
  act, run, then_run,
}
use craftip_crosscompiletest.Gui.Controller.Active.{
  weight, active, active_in, AtMostOne, active-some, active-or_keep,
}

change_active-none :
    (f : ServerPanel → ServerPanel) (ps : List ServerPanel)
    → active ps ≤ 0
    → change_active f ps ≡ none
unfolding change_active
change_active-none f [] h = refl
change_active-none f (p ∷ ps) h = ground (arith, change_active-none f ps)

inactive-weight : (p : ServerPanel) → is_active p.state ≡ false → weight p ≡ 0
inactive-weight p a = rw a

-- A change that ends the only active server leaves none.
change_active-ends :
    (f : ServerPanel → ServerPanel)
    → ((p : ServerPanel) → weight (f p) ≡ 0)
    → (ps qs : List ServerPanel) → change_active f ps ≡ some qs
    → active ps ≤ 1
    → active qs ≤ 0
unfolding change_active
change_active-ends f z [] qs h k = cc
change_active-ends f z (p ∷ ps) qs h k = elim (Bool-cases (is_active p.state)) [
  | inl a ↦ active-some (f p ∷ ps) qs 0 (rw a at h) (omega (arith, z p, (rw a at k)))
  | inr a ↦ omega (
    arith,
    inactive-weight p a,
    active-or_keep p (change_active f ps) qs 0
        (λ rs e. change_active-ends f z ps rs e (omega (arith, k))) (rw a at h),
  )
]

ends_weight : (e : Option RustString) (p : ServerPanel) → weight (as_ended e p) ≡ 0
ends_weight none p = refl
ends_weight (some x) p = refl

module _ (localhost : RustString → RustString) where
  -- When the client's `handle` is over, a number of clients that is still in the channel of the
  -- statistics makes the controller panic, whether or not the client was the active one.
  pub late_stats_panic :
      (a : App) (e : Option RustString) (n : ℕ)
      → AtMostOne a
      → (run localhost (handle_over e ∷ from_stats (some (clients_connected n)) ∷ []) a).flow
        ≡ panicked
  unfolding run act on_ended on_stats set_active_server
  late_stats_panic a e n h = go a.gui.servers h
    where
      late : ServerPanel → ServerPanel
      late s = record s { clients = n }

      next : App → Turn
      next b = then_run localhost (change late b) (run localhost [])

      by_change :
          (ps : List ServerPanel) (o : Option (List ServerPanel))
          → active ps ≤ 1
          → change_active (as_ended e) ps ≡ o
          → (then_run localhost (unwrapped (with_servers a.gui o) a) next).flow ≡ panicked
      by_change ps none k q = refl
      by_change ps (some qs) k q =
          rw
            (change_active-none late qs (change_active-ends (as_ended e) (ends_weight e) ps qs q k))
            refl

      go :
          (o : Option (List ServerPanel))
          → active_in o ≤ 1
          → (then_run localhost (unwrapped (change_servers (as_ended e) a.gui o) a) next).flow
            ≡ panicked
      go none k = refl
      go (some ps) k = by_change ps (change_active (as_ended e) ps) k refl
