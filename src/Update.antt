-- ===== src/Update.antt =====
-- skeys-core/update/manager.go: the state of the updater, and the check for updates. What the network
-- answers is a parameter; `m.mu` only guards `status`, and the calls are taken one after the other.
pub mod Checking
mod Tests
use skeys.Prelude.{
  ℕ, Bool, true, false, not, ◌&&◌, Option, none, some, List, [], ◌∷◌, ◌++◌, ◌==◌, nat_eq, Result,
  ok, err, if◌then◌else◌,
}
use skeys.Text.{Text, text_eq, codes}
use skeys.Text.Numbers.{ℤ}
use skeys.Map.{Map}
use skeys.Version.{strip_v, is_newer_version, is_patch_update}

pub data State : Type 0 where
  idle checking update_available downloading ready_to_apply applying failed : State

pub record Asset : Type 0 where
  pub name : Text
  pub size : ℤ
  pub browser_download_url : Text

pub record ReleaseInfo : Type 0 where
  pub tag_name : Text
  pub name : Text
  pub body : Text
  pub html_url : Text
  pub prerelease : Bool
  pub published_at : ℕ
  pub assets : List Asset

pub data DownloadState : Type 0 where
  download_starting download_downloading download_verifying download_completed : DownloadState

pub record Progress : Type 0 where
  pub state : DownloadState
  pub bytes_downloaded : ℕ
  pub total_bytes : ℤ
  pub bytes_per_second : ℕ
  pub downloaded_path : Text

pub data UpdateError : Type 0 where
  request_failed no_releases unexpected_status bad_json : UpdateError
  asset_not_found mkdir_failed download_failed create_failed write_failed read_failed : UpdateError
  checksum_unreadable checksum_empty checksum_mismatch : UpdateError
  backup_failed tarball_unreadable invalid_tar_path no_backup remove_failed restore_failed :
      UpdateError

pub record Status : Type 0 where
  pub state : State
  pub available_update : Option ReleaseInfo
  pub download_progress : Option Progress
  pub last_check : Option ℕ
  pub error : Option UpdateError

pub record Manager : Type 0 where
  pub current_version : Text
  pub install_dir : Text
  pub cache_dir : Text
  pub status : Status

pub record Response : Type 0 where
  pub status_code : ℕ
  pub content_length : ℤ
  -- what the reads of the body give, and whether they end without an error
  pub chunks : List Text
  pub ends_well : Bool

-- `http.Client.Do` by URL, `time.Now`, and the JSON decoder on the body of an answer
pub record Network : Type 0 where
  pub get : Text → Option Response
  pub now : ℕ
  pub decode_release : Response → Option ReleaseInfo
  pub decode_releases : Response → Option (List ReleaseInfo)

abbrev pub set_state : State → Manager → Manager
set_state s m = record m { status = record m.status { state = s } }

abbrev pub set_error : UpdateError → Manager → Manager
set_error e m = record m { status = record m.status { state = failed; error = some e } }

pub new_manager : Text → Text → Text → Manager
new_manager current_version install_dir cache_dir = record {
  current_version = current_version;
  install_dir = install_dir;
  cache_dir = cache_dir;
  status = record {
    state = idle;
    available_update = none;
    download_progress = none;
    last_check = none;
    error = none;
  };
}

abbrev releases_url : Text
releases_url = codes "https://api.github.com/repos/automationaddict/skeys/releases"

abbrev first_release : Option (List ReleaseInfo) → Result UpdateError ReleaseInfo
first_release none = err bad_json
first_release (some []) = err no_releases
first_release (some (r ∷ rs)) = ok r

abbrev one_release : Option ReleaseInfo → Result UpdateError ReleaseInfo
one_release none = err bad_json
one_release (some r) = ok r

module _ (n : Network) where
  abbrev release_of_answer : Bool → Option Response → Result UpdateError ReleaseInfo
  release_of_answer prereleases none = err request_failed
  release_of_answer prereleases (some r) =
      if r.status_code == 404
      then err no_releases
      else if not (r.status_code == 200)
      then err unexpected_status
      else if prereleases
      then first_release (n.decode_releases r)
      else one_release (n.decode_release r)

  unfoldable pub fetch_latest_release : Bool → Result UpdateError ReleaseInfo
  fetch_latest_release prereleases =
      release_of_answer prereleases
        (n.get (if prereleases then releases_url else releases_url ++ codes "/latest"))

  abbrev Outcome : Type 0
  Outcome = Result UpdateError (Option ReleaseInfo) × Manager

  -- the part of `CheckForUpdates` behind the fetch
  abbrev pub compare_release : Bool → ReleaseInfo → Manager → Outcome
  compare_release patches release m =
      let latest = strip_v release.tag_name in
      let current = strip_v m.current_version in
      if not (is_newer_version latest current)
      then (ok none, set_state idle m)
      else if not patches && is_patch_update current latest
      then (ok none, set_state idle m)
      else (
        ok (some release),
        record m {
          status = record m.status { state = update_available; available_update = some release };
        },
      )

  abbrev check_fetched : Bool → Result UpdateError ReleaseInfo → Manager → Outcome
  check_fetched patches (err e) m = (err e, set_error e m)
  check_fetched patches (ok release) m =
      compare_release patches release
        (record m { status = record m.status { last_check = some n.now } })

  pub check_for_updates : Bool → Bool → Manager → Outcome
  unfolding fetch_latest_release
  check_for_updates prereleases patches m =
      check_fetched patches (fetch_latest_release prereleases) (set_state checking m)
