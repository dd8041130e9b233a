-- ===== src/Gui/Updater/Targets.antt =====
-- The asset that client-gui/src/updater.rs takes from a release.
use craftip_crosscompiletest.Prelude.{
  ◌≡◌, ◌≢◌, sym, ap, ◌∙◌, List, [], ◌∷◌, ◌++◌, some, false, inl, inr, Bool-cases, All,
}
use craftip_crosscompiletest.Prelude.Maps.{bytes_beq, bytes_beq_iff}
use craftip_crosscompiletest.Shared.Utf8.{RustString}
use craftip_crosscompiletest.Gui.Updater.{Target, find_target}

-- The first asset for the platform.
pub record FirstFor (target : RustString) (targets : List Target) (asset : Target) : Type 0 where
  pub others : List Target
  pub further : List Target
  pub split : targets ≡ others ++ (asset ∷ further)
  pub matches : asset.target ≡ target
  pub first : All (λ t. t.target ≢ target) others

unwrap : {x y : Target} → some x ≡ some y → x ≡ y
unwrap e = cc

module _ (target : RustString) where
  find_here :
      (t : Target) (ts : List Target) → t.target ≡ target → find_target target (t ∷ ts) ≡ some t
  unfolding find_target
  find_here t ts e = rw ((bytes_beq_iff t.target target).1 e)

  find_further :
      (t : Target) (ts : List Target)
      → bytes_beq t.target target ≡ false
      → find_target target (t ∷ ts) ≡ find_target target ts
  unfolding find_target
  find_further t ts e = rw e

  differs : (t : Target) → bytes_beq t.target target ≡ false → t.target ≢ target
  differs t e same = cc (e, (bytes_beq_iff t.target target).1 same)

  no_targets : (asset : Target) → find_target target [] ≢ some asset
  unfolding find_target
  no_targets asset h = cc

  pub find_target-FirstFor :
      (targets : List Target) (asset : Target)
      → find_target target targets ≡ some asset
      → FirstFor target targets asset
  find_target-FirstFor [] asset h = absurd (no_targets asset h)
  find_target-FirstFor (t ∷ ts) asset h = elim (Bool-cases (bytes_beq t.target target)) [
    | inl same ↦
        let e = (bytes_beq_iff t.target target).0 same in
        record {
          others = [];
          further = ts;
          split = ap (λ u. u ∷ ts) (unwrap (sym (find_here t ts e) ∙ h));
          matches = sym (ap (λ u. u.target) (unwrap (sym (find_here t ts e) ∙ h))) ∙ e;
          first = tt;
        }
    | inr other ↦
        let f = find_target-FirstFor ts asset (sym (find_further t ts other) ∙ h) in
        record {
          others = t ∷ f.others;
          further = f.further;
          split = ap (λ us. t ∷ us) f.split;
          matches = f.matches;
          first = (differs t other, f.first);
        }
  ]

  find_behind :
      (others further : List Target) (asset : Target)
      → asset.target ≡ target
      → All (λ t. t.target ≢ target) others
      → find_target target (others ++ (asset ∷ further)) ≡ some asset
  find_behind [] further asset m h = find_here asset further m
  find_behind (t ∷ ts) further asset m h = elim (Bool-cases (bytes_beq t.target target)) [
    | inl same ↦ absurd (h.0 ((bytes_beq_iff t.target target).0 same))
    | inr other ↦ find_further t _ other ∙ find_behind ts further asset m h.1
  ]

  pub FirstFor-find_target :
      (targets : List Target) (asset : Target)
      → FirstFor target targets asset
      → find_target target targets ≡ some asset
  FirstFor-find_target targets asset f =
      ap (find_target target) f.split ∙ find_behind f.others f.further asset f.matches f.first
