-- ===== src/Gui/Updater.antt =====
-- `Updater` of client-gui/src/updater.rs and the thread of client-gui/src/main.rs that runs it.
-- The network, the file system, the comparison of versions and the replacement of the running program are
-- not code of the repository: `Release`, `Facts` and the arguments say what they answer.
pub mod Targets
pub mod Install
use craftip_crosscompiletest.Prelude.{
  List, [], ◌∷◌, Option, none, some, Bool, true, false, Outcome, ok, err, panic, if◌then◌else◌,
}
use craftip_crosscompiletest.Prelude.Maps.{bytes_beq}
use craftip_crosscompiletest.Shared.Utf8.{RustString}

pub record Target : Type 0 where
  pub name : RustString
  pub url : RustString
  pub target : RustString

pub record LatestRelease : Type 0 where
  pub version : RustString
  pub changelog : RustString
  pub targets : List Target

pub record Updater : Type 0 where
  pub release : Option LatestRelease

-- `Updater::default`
unfoldable pub updater_default : Updater
updater_default = record { release = none }

-- What an `anyhow::Error` of these functions comes from.
pub data UpdateError : Type 0 where
  request_failed bad_status bad_json bad_version : UpdateError
  no_release_for_target no_temp_dir no_archive_file download_failed : UpdateError
  extract_failed replace_failed no_current_exe : UpdateError

-- What the request for the latest release gives: no reply, or a status and, if the body is one, a release.
pub data Reply : Type 0 where
  no_reply : Reply
  reply : (success : Bool) → Option LatestRelease → Reply

-- `self_update::version`, on the version of the crate and the text of another version; `none` where
-- one of them is not a version.
pub record Versions : Type 0 where
  pub bump_is_compatible : RustString → Option Bool
  pub bump_is_greater : RustString → Option Bool

module _ (versions : Versions) where
  open versions use {bump_is_compatible, bump_is_greater}

  abbrev pub check_greater :
      Option Bool → LatestRelease → Updater → Outcome UpdateError Bool × Updater
  check_greater none release u = (err bad_version, u)
  check_greater (some greater) release u = (ok greater, record u { release = some release })

  -- A release that is not compatible is only reported.
  abbrev pub check_compatible :
      Option Bool → LatestRelease → Updater → Outcome UpdateError Bool × Updater
  check_compatible none release u = (err bad_version, u)
  check_compatible (some compatible) release u =
      check_greater (bump_is_greater release.version) release u

  abbrev pub check_body : Option LatestRelease → Updater → Outcome UpdateError Bool × Updater
  check_body none u = (err bad_json, u)
  check_body (some release) u = check_compatible (bump_is_compatible release.version) release u

  unfoldable pub check_for_update : Reply → Updater → Outcome UpdateError Bool × Updater
  check_for_update no_reply u = (err request_failed, u)
  check_for_update (reply false body) u = (err bad_status, u)
  check_for_update (reply true body) u = check_body body u

-- `targets.iter().find(|t| t.target == target)`
unfoldable pub find_target : RustString → List Target → Option Target
find_target target [] = none
find_target target (t ∷ ts) =
    let further = find_target target ts in if bytes_beq t.target target then some t else further

-- Whether the temporary directory, the file in it, the download, the extraction and the replacement
-- of the program succeed.
pub record Facts : Type 0 where
  pub temp_dir_ok : Bool
  pub archive_ok : Bool
  pub download_ok : Bool
  pub extract_ok : Bool
  pub replace_ok : Bool

-- What was done to the machine. `replace` is the program, replaced by the one in the archive that was
-- downloaded for the target.
pub data Action : Type 0 where
  download : Target → Action
  extract : Target → Action
  replace : Target → Action

abbrev pub Updated : Type 0
Updated = Outcome UpdateError (Unit {0}) × List Action

abbrev pub and_then : Action → Updated → Updated
and_then a (r, actions) = (r, a ∷ actions)

abbrev pub replaced : Target → Facts → Updated
replaced asset facts =
    if facts.replace_ok then (ok tt, replace asset ∷ []) else (err replace_failed, [])

abbrev pub extracted : Target → Facts → Updated
extracted asset facts =
    if facts.extract_ok
    then and_then (extract asset) (replaced asset facts)
    else (err extract_failed, [])

-- The check of a signature stands under a feature that client-gui/Cargo.toml does not declare, so it
-- is not part of the program.
abbrev pub downloaded : Target → Facts → Updated
downloaded asset facts =
    if facts.download_ok
    then and_then (download asset) (extracted asset facts)
    else (err download_failed, [])

abbrev pub in_temp_dir : Target → Facts → Updated
in_temp_dir asset facts =
    if facts.temp_dir_ok
    then (if facts.archive_ok then downloaded asset facts else (err no_archive_file, []))
    else (err no_temp_dir, [])

abbrev pub install : Option Target → Facts → Updated
install none facts = (err no_release_for_target, [])
install (some asset) facts = in_temp_dir asset facts

abbrev pub update_from : Option LatestRelease → RustString → Facts → Updated
update_from none target facts = (panic, [])
update_from (some release) target facts = install (find_target target release.targets) facts

-- `target` is the platform that the program was built for.
unfoldable pub update : RustString → Facts → Updater → Updated
update target facts u = update_from u.release target facts

-- `exec` replaces the process on Unix; on Windows it starts another one and exits. If neither can be
-- done, it returns.
pub data Platform : Type 0 where
  unix windows : Platform

pub data Execution : Type 0 where
  replaced_process : Execution
  exited : Execution
  returned : Execution

unfoldable pub exec : Platform → (starts : Bool) → Execution
exec unix true = replaced_process
exec windows true = exited
exec platform false = returned

-- Whether the path of the program is known, what it runs on, and whether it can be started.
pub record Exe : Type 0 where
  pub known : Bool
  pub platform : Platform
  pub starts : Bool

-- What `restart` returns, if it does, and what became of the process. The error of `exec` is dropped.
unfoldable pub restart : Exe → Outcome UpdateError (Unit {0}) × Option Execution
restart exe = elim exe.known [
  | true ↦ (ok tt, some (exec exe.platform exe.starts))
  | false ↦ (err no_current_exe, none)
]

-- How the thread of `main` ends: `unwrap` makes a panic of each error. `stays`: `restart` has returned
-- without an error, and the process is still the old one.
pub data Ended : Type 0 where
  nothing_new : Ended
  restarted : Ended
  stays : Ended
  thread_panicked : Ended

abbrev pub after_exec : Option Execution → Ended
after_exec none = stays
after_exec (some replaced_process) = restarted
after_exec (some exited) = restarted
after_exec (some returned) = stays

abbrev pub after_restart : Outcome UpdateError (Unit {0}) × Option Execution → Ended
after_restart (ok t, execution) = after_exec execution
after_restart (err e, execution) = thread_panicked
after_restart (panic, execution) = thread_panicked

abbrev pub after_update : Updated → Exe → Ended × List Action
after_update (ok t, actions) exe = (after_restart (restart exe), actions)
after_update (err e, actions) exe = (thread_panicked, actions)
after_update (panic, actions) exe = (thread_panicked, actions)

abbrev pub after_check :
    RustString → Facts → Exe → Outcome UpdateError Bool × Updater → Ended × List Action
after_check target facts exe (ok true, u) = after_update (update target facts u) exe
after_check target facts exe (ok false, u) = (nothing_new, [])
after_check target facts exe (err e, u) = (thread_panicked, [])
after_check target facts exe (panic, u) = (thread_panicked, [])

-- The thread that `main` spawns.
unfoldable pub update_thread : Versions → Reply → RustString → Facts → Exe → Ended × List Action
update_thread versions r target facts exe =
    after_check target facts exe (check_for_update versions r updater_default)
