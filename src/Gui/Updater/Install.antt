-- ===== src/Gui/Updater/Install.antt =====
-- When client-gui/src/updater.rs replaces the program, and by what.
use craftip_crosscompiletest.Prelude.{
  if◌then◌else◌, subst, ◌⊎◌, ◌≡◌, refl, sym, ap, ◌∙◌, List, [], ◌∷◌, Option, none, some, Bool, true,
  false, ok, err, panic, inl, inr,
}
use craftip_crosscompiletest.Shared.Utf8.{RustString}
use craftip_crosscompiletest.Gui.Updater.{
  unix, windows, stays, after_exec, exec, Platform, Exe, no_reply, check_greater, check_compatible,
  check_greater, updater_default, check_compatible, bad_version, after_update, check_for_update,
  restarted, after_check, Updated, Ended, Reply, install, reply, restart, update_thread, Versions,
  update, extract, download, in_temp_dir, replace, Facts, Action, Target, LatestRelease,
  find_target,
}
use craftip_crosscompiletest.Gui.Updater.Targets.{
  FirstFor, find_target-FirstFor, FirstFor-find_target,
}

-- An action is among those that were done.
abbrev pub Does : Action → List Action → Type 0
Does a [] = ⊥
Does a (b ∷ bs) = (b ≡ a) ⊎ Does a bs

abbrev pub all_steps : Target → List Action
all_steps asset = download asset ∷ extract asset ∷ replace asset ∷ []

abbrev pub facts_of : (d a l e r : Bool) → Facts
facts_of d a l e r = record {
  temp_dir_ok = d;
  archive_ok = a;
  download_ok = l;
  extract_ok = e;
  replace_ok = r;
}

replaced_by_all :
    (d a l e r : Bool) (asset b : Target)
    → Does (replace b) (in_temp_dir asset (facts_of d a l e r)).1
    → (asset ≡ b) × ((in_temp_dir asset (facts_of d a l e r)).1 ≡ all_steps asset)
replaced_by_all false a l e r asset b h = elim h [ ]
replaced_by_all true false l e r asset b h = elim h [ ]
replaced_by_all true true false e r asset b h = elim h [ ]
replaced_by_all true true true false r asset b (inl x) = cc
replaced_by_all true true true false r asset b (inr x) = elim x [ ]
replaced_by_all true true true true false asset b (inl x) = cc
replaced_by_all true true true true false asset b (inr (inl x)) = cc
replaced_by_all true true true true false asset b (inr (inr x)) = elim x [ ]
replaced_by_all true true true true true asset b (inl x) = cc
replaced_by_all true true true true true asset b (inr (inl x)) = cc
replaced_by_all true true true true true asset b (inr (inr (inr x))) = elim x [ ]
replaced_by_all true true true true true asset b (inr (inr (inl x))) = (same x, refl)
  where
    same : replace asset ≡ replace b → asset ≡ b
    same x = cc

-- Why the program was replaced by the asset `b`, and all that was done to the machine.
pub record Newer (versions : Versions) (r : Reply) (target : RustString) (b : Target)
    (actions : List Action) : Type 0 where
  pub release : LatestRelease
  pub told : r ≡ reply true (some release)
  pub greater : versions.bump_is_greater release.version ≡ some true
  pub asset_for : FirstFor target release.targets b
  pub all_done : actions ≡ all_steps b

module _ (versions : Versions) (target : RustString) (facts : Facts) (exe : Exe) where
  actions_of : (w : Updated) → (after_update w exe).1 ≡ w.1
  actions_of (ok t, actions) = refl
  actions_of (err e, actions) = refl
  actions_of (panic, actions) = refl

  installed :
      (o : Option Target) (b : Target)
      → Does (replace b) (install o facts).1
      → (o ≡ some b) × ((install o facts).1 ≡ all_steps b)
  installed none b h = elim h [ ]
  installed (some asset) b h =
      let (same, done) =
        replaced_by_all facts.temp_dir_ok facts.archive_ok facts.download_ok facts.extract_ok
          facts.replace_ok asset b h in
      (ap some same, done ∙ ap all_steps same)

  update_installs :
      (release : LatestRelease) (b : Target)
      → Does (replace b) (update target facts (record { release = some release })).1
      → FirstFor target release.targets b
        × ((update target facts (record { release = some release })).1 ≡ all_steps b)
  unfolding update
  update_installs release b h =
      let (found, done) = installed (find_target target release.targets) b h in
      (find_target-FirstFor target release.targets b found, done)

  -- The thread once the release is read, on what the two comparisons say.
  abbrev with_versions : LatestRelease → Option Bool → Option Bool → Ended × List Action
  with_versions release none greater =
      after_check target facts exe (err bad_version, updater_default)
  with_versions release (some compatible) greater =
      after_check target facts exe (check_greater versions greater release updater_default)

  thread_with_versions :
      (release : LatestRelease)
      → update_thread versions (reply true (some release)) target facts exe
        ≡ with_versions release
            (versions.bump_is_compatible release.version)
            (versions.bump_is_greater release.version)
  unfolding update_thread check_for_update
  thread_with_versions release = go (versions.bump_is_compatible release.version)
    where
      go :
          (c : Option Bool)
          → after_check target facts exe (check_compatible versions c release updater_default)
            ≡ with_versions release c (versions.bump_is_greater release.version)
      go none = refl
      go (some compatible) = refl

  newer :
      (release : LatestRelease) (b : Target) (compatible greater : Option Bool)
      → versions.bump_is_greater release.version ≡ greater
      → Does (replace b) (with_versions release compatible greater).1
      → Newer versions
          (reply true (some release))
          target
          b
          (with_versions release compatible greater).1
  newer release b none greater e h = elim h [ ]
  newer release b (some c) none e h = elim h [ ]
  newer release b (some c) (some false) e h = elim h [ ]
  newer release b (some c) (some true) e h =
      let same = actions_of (update target facts (record { release = some release })) in
      let (found, done) = update_installs release b (subst (Does (replace b)) same h) in
      record {
        release = release;
        told = refl;
        greater = e;
        asset_for = found;
        all_done = same ∙ done;
      }

  abbrev Unread : Reply → Type 0
  Unread no_reply = Unit
  Unread (reply success none) = Unit
  Unread (reply true (some release)) = ⊥
  Unread (reply false (some release)) = Unit

  unread : (r : Reply) → Unread r → (update_thread versions r target facts exe).1 ≡ []
  unfolding update_thread check_for_update
  unread no_reply u = refl
  unread (reply false none) u = refl
  unread (reply false (some release)) u = refl
  unread (reply true none) u = refl
  unread (reply true (some release)) u = elim u [ ]

  -- The thread replaces the program only by the first asset for this platform of the latest release,
  -- when the server told that release with a status of success and it is newer; then it has
  -- downloaded and extracted this asset before, and done nothing else.
  pub replaced_only_by-Newer :
      (r : Reply) (b : Target)
      → Does (replace b) (update_thread versions r target facts exe).1
      → Newer versions r target b (update_thread versions r target facts exe).1
  replaced_only_by-Newer no_reply b h = elim (subst (Does (replace b)) (unread no_reply tt) h) [ ]
  replaced_only_by-Newer (reply false none) b h =
      elim (subst (Does (replace b)) (unread (reply false none) tt) h) [ ]
  replaced_only_by-Newer (reply false (some release)) b h =
      elim (subst (Does (replace b)) (unread (reply false (some release)) tt) h) [ ]
  replaced_only_by-Newer (reply true none) b h =
      elim (subst (Does (replace b)) (unread (reply true none) tt) h) [ ]
  replaced_only_by-Newer (reply true (some release)) b h =
      let same = ap (λ t. t.1) (thread_with_versions release) in
      subst (Newer versions (reply true (some release)) target b) (sym same) (
        newer release b (versions.bump_is_compatible release.version)
          (versions.bump_is_greater release.version) refl (subst (Does (replace b)) same h))

exec-ended :
    (platform : Platform) (starts : Bool)
    → after_exec (some (exec platform starts)) ≡ (if starts then restarted else stays)
unfolding exec
exec-ended unix true = refl
exec-ended windows true = refl
exec-ended unix false = refl
exec-ended windows false = refl

-- Where the server tells a newer release that has an asset for this platform, and every step
-- succeeds, the thread installs that asset, whether or not the release is compatible with the running
-- version. Then the program is restarted if it can be started; if not, the thread ends without an
-- error, and the old program goes on.
pub newer_release_installed :
    (versions : Versions) (release : LatestRelease) (compatible : Bool) (target : RustString)
    (asset : Target) (platform : Platform) (starts : Bool)
    → versions.bump_is_compatible release.version ≡ some compatible
    → versions.bump_is_greater release.version ≡ some true
    → FirstFor target release.targets asset
    → update_thread versions
        (reply true (some release))
        target
        (facts_of true true true true true)
        (record { known = true; platform = platform; starts = starts })
      ≡ (if starts then restarted else stays, all_steps asset)
unfolding update restart
newer_release_installed versions release compatible target asset platform starts c g f =
    thread_with_versions versions target (facts_of true true true true true)
      (record { known = true; platform = platform; starts = starts }) release
    ∙ rw (c, g, FirstFor-find_target target release.targets asset f)
        (ap (λ e. (e, all_steps asset)) (exec-ended platform starts))
