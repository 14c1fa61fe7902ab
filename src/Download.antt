-- ===== src/Download.antt =====
-- skeys-core/update/manager.go: the download of an update and the check of its digest. The cache
-- directory is a map from paths to contents. `m.status.DownloadProgress` points to the local variable
-- `progress` from the first call of the inner callback on, which `published` says.
pub mod Verified
mod Tests
use skeys.Prelude.{
  ℕ, ◌+◌, ◌-◌, Bool, true, false, not, ◌&&◌, Option, none, some, List, [], ◌∷◌, ◌++◌, ◌==◌, nat_eq,
  leb, length, Result, ok, err, if◌then◌else◌,
}
use skeys.Text.{Text, text_eq, codes}
use skeys.Text.Numbers.{ℤ, pos, ltℤ}
use skeys.Text.Strings.{to_lower, fields}
use skeys.Map
use skeys.Map.{Map}
use skeys.Update.{
  Asset, ReleaseInfo, UpdateError, Progress, DownloadState, download_starting, download_downloading,
  download_verifying, download_completed, asset_not_found, mkdir_failed, request_failed,
  download_failed, create_failed, write_failed, read_failed, checksum_unreadable, checksum_empty,
  checksum_mismatch, Manager, Network, Response, downloading, ready_to_apply, set_state, set_error,
}

-- what the file system does during one download, and SHA-256 in hexadecimal
pub record Disk : Type 0 where
  pub mkdir_succeeds : Bool
  pub can_create : Text → Bool
  -- whether a write goes through, by the path and the bytes that are there
  pub can_write : Text → ℕ → Bool
  pub can_read : Text → Bool
  pub sha256_hex : Text → Text
  -- the speed that is shown, by the bytes so far
  pub speed : ℕ → ℕ

abbrev pub Cache : Type 0
Cache = Map Text Text

-- the arguments of the callback of `downloadFile`: bytes so far, total, speed
abbrev Event : Type 0
Event = ℕ × ℤ × ℕ

abbrev is_positive : ℤ → Bool
is_positive z = ltℤ (pos 0) z

abbrev total_size : ℤ → ℤ → ℤ
total_size announced expected =
    if not (is_positive announced) && is_positive expected then expected else announced

unfoldable pub find_asset : Text → List Asset → Option Asset
find_asset name [] = none
find_asset name (a ∷ as_) = if a.name == name then some a else find_asset name as_

module _ (d : Disk) where
  -- The loop of `downloadFile`: the chunks that are left, the text so far.
  abbrev pub Copied : Type 0
  Copied = Option UpdateError × Text × List Event

  abbrev add_event : Event → Copied → Copied
  add_event e (r, text, events) = (r, text, e ∷ events)

  unfoldable pub copy_chunks : Text → ℤ → Bool → List Text → Text → Copied
  copy_chunks path total ends_well [] sofar =
      (if ends_well then none else some read_failed, sofar, [])
  copy_chunks path total ends_well ([] ∷ chunks) sofar =
      copy_chunks path total ends_well chunks sofar
  copy_chunks path total ends_well ((c ∷ s) ∷ chunks) sofar =
      let text = sofar ++ c ∷ s in
      let n = length text in
      let rest = copy_chunks path total ends_well chunks text in
      if d.can_write path (length sofar)
      then add_event (n, total, d.speed n) rest
      else (some write_failed, sofar, [])

  abbrev pub Fetched : Type 0
  Fetched = Option UpdateError × Cache × List Event

  abbrev stored : Text → Cache → Copied → Fetched
  stored path cache (r, text, events) = (r, Map.put path text cache, events)

  abbrev fetch_answer : Text → ℤ → Cache → Option Response → Fetched
  fetch_answer path expected cache none = (some request_failed, cache, [])
  fetch_answer path expected cache (some r) =
      if not (r.status_code == 200)
      then (some download_failed, cache, [])
      else if not (d.can_create path)
      then (some create_failed, cache, [])
      else stored path cache
          (copy_chunks path (total_size r.content_length expected) r.ends_well r.chunks [])

  unfoldable pub download_file : Network → Text → Text → ℤ → Cache → Fetched
  unfolding copy_chunks
  download_file n url path expected cache = fetch_answer path expected cache (n.get url)

  abbrev readable : Text → Option Text → Option Text
  readable path none = none
  readable path (some text) = if d.can_read path then some text else none

  abbrev compare_digest : Text → Option Text → Option UpdateError
  compare_digest expected none = some read_failed
  compare_digest expected (some tarball) =
      if d.sha256_hex tarball == expected then none else some checksum_mismatch

  abbrev verify_fields : List Text → Option Text → Option UpdateError
  verify_fields [] tarball = some checksum_empty
  verify_fields (f ∷ fs) tarball = compare_digest (to_lower f) tarball

  abbrev verify_texts : Option Text → Option Text → Option UpdateError
  verify_texts none tarball = some checksum_unreadable
  verify_texts (some sum) tarball = verify_fields (fields sum) tarball

  unfoldable pub verify_checksum : Text → Text → Cache → Option UpdateError
  verify_checksum tarball_path checksum_path cache =
      verify_texts (readable checksum_path (Map.get checksum_path cache))
        (readable tarball_path (Map.get tarball_path cache))

  abbrev show_events : List Event → Progress → Progress
  show_events [] p = p
  show_events ((bytes, total, speed) ∷ es) p = show_events es (record p {
    state = download_downloading;
    bytes_downloaded = bytes;
    total_bytes = total;
    bytes_per_second = speed;
  })

  abbrev publish : List Event → Progress → Manager → Manager
  publish [] p m = m
  publish (e ∷ es) p m = record m {
    status = record m.status { download_progress = some (show_events (e ∷ es) p) };
  }

  abbrev show_state : DownloadState → List Event → Manager → Manager
  show_state s [] m = m
  show_state s (e ∷ es) m = elim m.status.download_progress [
    | none ↦ m
    | some p ↦ record m {
      status = record m.status { download_progress = some (record p { state = s }) };
    }
  ]

  abbrev pub Outcome : Type 0
  Outcome = Result UpdateError Text × Manager × Cache

  abbrev complete_download : Text → Progress → Manager → Cache → Outcome
  complete_download path p m cache = (
    ok path,
    record m {
      status = record m.status {
        state = ready_to_apply;
        download_progress = some (record p { state = download_completed; downloaded_path = path });
      };
    },
    cache,
  )

  -- behind the verification: a bad checksum removes both files
  abbrev after_verify : Option UpdateError → Text → Text → Progress → Manager → Cache → Outcome
  after_verify none path sum_path p m cache = complete_download path p m cache
  after_verify (some e) path sum_path p m cache =
      (err e, set_error e m, Map.delete sum_path (Map.delete path cache))

  -- behind the download of the checksum, without which there is no verification
  abbrev after_checksum : Fetched → Text → Text → List Event → Progress → Manager → Outcome
  after_checksum (some e, cache, evs) path sum_path events p m = complete_download path p m cache
  after_checksum (none, cache, evs) path sum_path events p m =
      after_verify (verify_checksum path sum_path cache) path sum_path p
        (show_state download_verifying events m) cache

  abbrev after_tarball : Network → Asset → Text → Fetched → Progress → Manager → Outcome
  after_tarball n asset path (some e, cache, events) p m =
      (err e, set_error e (publish events p m), cache)
  after_tarball n asset path (none, cache, events) p m =
      let sum_path = path ++ codes ".sha256" in
      after_checksum
        (download_file n (asset.browser_download_url ++ codes ".sha256") sum_path (pos 0) cache)
        path sum_path events (show_events events p) (publish events p m)

  abbrev asset_name : Text → Text
  asset_name tag = codes "skeys-" ++ (tag ++ codes "-linux-x64.tar.gz")

  abbrev with_asset : Network → Option Asset → Text → Manager → Cache → Outcome
  with_asset n none path m cache = (err asset_not_found, set_error asset_not_found m, cache)
  with_asset n (some asset) path m cache =
      if not d.mkdir_succeeds
      then (err mkdir_failed, set_error mkdir_failed m, cache)
      else after_tarball n asset path
          (download_file n asset.browser_download_url path asset.size cache)
          (record {
            state = download_starting;
            bytes_downloaded = 0;
            total_bytes = asset.size;
            bytes_per_second = 0;
            downloaded_path = [];
          })
          m

  -- `filepath.Join` of the cache directory, which is clean, and the name
  pub download_update : Network → ReleaseInfo → Manager → Cache → Outcome
  unfolding download_file verify_checksum find_asset
  download_update n release m cache =
      let name = asset_name release.tag_name in
      with_asset n (find_asset name release.assets) (m.cache_dir ++ b'/' ∷ name)
        (set_state downloading m) cache
