-- ===== src/Gui/Editing/Row.antt =====
-- The row with the local address of a server in client-gui/src/main.rs: what an edit leaves as it is.
use craftip_crosscompiletest.Prelude.{
  ℕ, zero, suc, ◌≡◌, sym, ap, ◌∙◌, subst, inl, inr, ◌⊎◌, List, [], ◌∷◌, Option, none, some, Bool,
  true, false, ◌&&◌, All, Bool-cases,
}
use craftip_crosscompiletest.Shared.Utf8.{RustString}
use craftip_crosscompiletest.Gui.Panels.{ServerPanel, is_active}
use craftip_crosscompiletest.Gui.Editing.{
  configurable, confirmed, group_enabled, EditInput, edit_row, edit, edit_at,
}

-- A server that is active is not being edited.
abbrev pub Idle : ServerPanel → Type 0
Idle p = (is_active p.state ≡ false) ⊎ (p.edit_local ≡ none)

row_of_active :
    (input : EditInput) (p : ServerPanel) → is_active p.state ≡ true → edit_row none input p ≡ p
row_of_active input p h = elim (Bool-cases input.pencil) [ inl t ↦ rw (t, h) | inr f ↦ rw f ]

confirmed-state : (input : EditInput) (p : ServerPanel) → (confirmed input p).state ≡ p.state
confirmed-state input p = elim (Bool-cases input.confirm) [ inl t ↦ rw t | inr f ↦ rw f ]

edit_row-state :
    (o : Option RustString) (input : EditInput) (p : ServerPanel)
    → (edit_row o input p).state ≡ p.state
edit_row-state none input p = elim (Bool-cases (input.pencil && configurable p)) [
  | inl t ↦ rw t
  | inr f ↦ rw f
]
edit_row-state (some text) input p = elim (Bool-cases input.cancel) [
  | inl t ↦ rw t (confirmed-state input p)
  | inr f ↦ rw f (confirmed-state input p)
]

pub edit-state :
    (already : Bool) (input : EditInput) (p : ServerPanel) → (edit already input p).state ≡ p.state
unfolding edit
edit-state already input p = elim (Bool-cases (group_enabled already p)) [
  | inl g ↦ rw g (edit_row-state p.edit_local input p)
  | inr g ↦ rw g
]

-- A row of an active server does not change.
pub edit-active :
    (already : Bool) (input : EditInput) (p : ServerPanel)
    → Idle p
    → is_active p.state ≡ true
    → edit already input p ≡ p
unfolding edit
edit-active already input p (inl a) h = cc
edit-active already input p (inr e) h = elim (Bool-cases (group_enabled already p)) [
  | inl g ↦ rw g (ap (λ o. edit_row o input p) e ∙ row_of_active input p h)
  | inr g ↦ rw g
]

edit-Idle :
    (already : Bool) (input : EditInput) (p : ServerPanel) → Idle p → Idle (edit already input p)
edit-Idle already input p h = elim (Bool-cases (is_active p.state)) [
  | inl a ↦ subst Idle (sym (edit-active already input p h a)) h
  | inr a ↦ inl (ap is_active (edit-state already input p) ∙ a)
]

pub edit_at-Idle :
    (already : Bool) (i : ℕ) (input : EditInput) (ps : List ServerPanel)
    → All Idle ps
    → All Idle (edit_at already i input ps)
unfolding edit_at
edit_at-Idle already i input [] h = tt
edit_at-Idle already zero input (p ∷ ps) h = (edit-Idle already input p h.0, h.1)
edit_at-Idle already (suc i) input (p ∷ ps) h = (h.0, edit_at-Idle already i input ps h.1)
