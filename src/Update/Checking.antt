-- ===== src/Update/Checking.antt =====
-- What a check for updates answers, and the state that it leaves.
use skeys.Prelude.{
  ◌≡◌, refl, Bool, true, false, not, ◌&&◌, Option, none, some, Result, ok, err, Bool-cases, inl,
  inr,
}
use skeys.Text.{Text}
use skeys.Version.{strip_v, is_newer_version, is_patch_update}
use skeys.Update.{
  idle, update_available, failed, ReleaseInfo, UpdateError, Manager, Network, compare_release,
  check_fetched, set_state, checking, check_for_updates, fetch_latest_release,
}

-- the release of an answer is newer, and no patch if patches are not wanted
abbrev pub IsWanted : Bool → Text → ReleaseInfo → Type 0
IsWanted patches current r =
    (is_newer_version (strip_v r.tag_name) (strip_v current) ≡ true)
    × ((not patches && is_patch_update (strip_v current) (strip_v r.tag_name)) ≡ false)

-- how a result and a state go together
abbrev pub IsSettled : Bool → Text → Result UpdateError (Option ReleaseInfo) → Manager → Type 0
IsSettled patches current (err e) m = (m.status.state ≡ failed) × (m.status.error ≡ some e)
IsSettled patches current (ok none) m = m.status.state ≡ idle
IsSettled patches current (ok (some r)) m =
    (m.status.state ≡ update_available)
    × (m.status.available_update ≡ some r)
    × IsWanted patches current r

module _ (n : Network) where
  compare-IsSettled :
      (patches : Bool) (r : ReleaseInfo) (m : Manager)
      → IsSettled patches m.current_version
          (compare_release n patches r m).0
          (compare_release n patches r m).1
  compare-IsSettled patches r m =
      elim (Bool-cases (is_newer_version (strip_v r.tag_name) (strip_v m.current_version))) [
        | inr old ↦ rw old refl
        | inl newer ↦
            elim (Bool-cases
              (not patches && is_patch_update (strip_v m.current_version) (strip_v r.tag_name))) [
                | inl unwanted ↦ rw (newer, unwanted) refl
                | inr wanted ↦ rw (newer, wanted) (refl, refl, (newer, wanted))
              ]
      ]

  fetched-IsSettled :
      (patches : Bool) (f : Result UpdateError ReleaseInfo) (m : Manager)
      → IsSettled patches m.current_version
          (check_fetched n patches f m).0
          (check_fetched n patches f m).1
  fetched-IsSettled patches (err e) m = (refl, refl)
  fetched-IsSettled patches (ok r) m =
      compare-IsSettled patches r
        (record m { status = record m.status { last_check = some n.now } })

  -- Every check settles the state of the updater: an error is a failed state with that error, no news is
  -- an idle state, and a release that is answered is kept as the available update, is newer than the
  -- current version, and is no patch if patches are not wanted.
  pub check-IsSettled :
      (prereleases patches : Bool) (m : Manager)
      → IsSettled patches m.current_version
          (check_for_updates n prereleases patches m).0
          (check_for_updates n prereleases patches m).1
  unfolding check_for_updates
  check-IsSettled prereleases patches m =
      fetched-IsSettled patches (fetch_latest_release n prereleases) (set_state checking m)
