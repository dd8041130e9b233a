-- ===== src/Tests/Installing.antt =====
-- The updater of client-gui/src/updater.rs at a concrete release.
use craftip_crosscompiletest.Prelude.{refl, inl, inr, [], ◌∷◌, some, true, false, bytes_of}
use craftip_crosscompiletest.Gui.Updater.{
  unix, Exe, Target, LatestRelease, Versions, reply, update_thread, find_target, check_for_update,
  update, restart, Facts,
}
use craftip_crosscompiletest.Gui.Updater.Install.{Newer, facts_of, replaced_only_by-Newer}

abbrev linux_asset : Target
linux_asset = record {
  name = bytes_of "client.zip";
  url = bytes_of "https://update.example/client.zip";
  target = bytes_of "x86_64-unknown-linux-gnu";
}

abbrev release : LatestRelease
release = record {
  version = bytes_of "1.0.0";
  changelog = [];
  targets =
      record {
        name = bytes_of "client-win.zip";
        url = [];
        target = bytes_of "x86_64-pc-windows-msvc";
      }
      ∷ linux_asset
      ∷ [];
}

-- Any other version is newer, and none is compatible.
abbrev versions : Versions
versions = record { bump_is_compatible = λ v. some false; bump_is_greater = λ v. some true }

abbrev all_fine : Facts
all_fine = facts_of true true true true true

abbrev started : Exe
started = record { known = true; platform = unix; starts = true }

replaced_only_by-Newer_example :
    Newer versions
      (reply true (some release))
      linux_asset.target
      linux_asset
      (update_thread versions (reply true (some release)) linux_asset.target all_fine started).1
unfolding update_thread check_for_update update find_target restart
replaced_only_by-Newer_example =
    replaced_only_by-Newer versions linux_asset.target all_fine started (reply true (some release))
      linux_asset (inr (inr (inl refl)))
