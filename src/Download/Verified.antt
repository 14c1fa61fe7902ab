-- ===== src/Download/Verified.antt =====
-- What is on disk and in the state after a download.
use skeys.Prelude.{
  ◌≡◌, ◌⊎◌, ◌∙◌, inl, inr, refl, ap, sym, Bool, Option, none, some, List, [], ◌∷◌, ◌++◌,
  append_assoc, append-nil, arith, ◌==◌, nat_eq, nat_beq_iff, Result, ok, err, length, Bool-cases,
}
use skeys.Text.{Text, text_eq, codes}
use skeys.Text.Numbers.{ℤ, pos}
use skeys.Map
use skeys.Map.{Map}
use skeys.Map.Laws.{get-put_self}
use skeys.Update.{
  Asset, ReleaseInfo, UpdateError, Progress, Manager, Network, Response, failed, ready_to_apply,
  downloading, set_state,
}
use skeys.Text.Strings.{to_lower, fields}
use skeys.Download.{
  readable, compare_digest, verify_fields, verify_texts, Disk, Cache, Event, Fetched, copy_chunks,
  fetch_answer, total_size, download_file, verify_checksum, publish, show_events, show_state,
  after_verify, after_checksum, after_tarball, with_asset, download_update, find_asset, asset_name,
  download_verifying,
}

abbrev pub concat : List Text → Text
concat [] = []
concat (t ∷ ts) = t ++ concat ts

module _ (d : Disk) where
  copied-chunks :
      (path : Text) (total : ℤ) (ends_well : Bool) (chunks : List Text) (sofar : Text)
      → (copy_chunks d path total ends_well chunks sofar).0 ≡ none
      → (copy_chunks d path total ends_well chunks sofar).1 ≡ sofar ++ concat chunks
  unfolding copy_chunks
  copied-chunks path total ends_well [] sofar h = sym (append-nil sofar)
  copied-chunks path total ends_well ([] ∷ chunks) sofar h =
      copied-chunks path total ends_well chunks sofar h
  copied-chunks path total ends_well ((c ∷ s) ∷ chunks) sofar h =
      elim (Bool-cases (d.can_write path (length sofar))) [
        | inr fails ↦ cc (rw fails at h)
        | inl goes ↦ rw goes (
            copied-chunks path total ends_well chunks (sofar ++ c ∷ s) (rw goes at h)
            ∙ append_assoc sofar (c ∷ s) (concat chunks))
      ]

  -- what a fetch without an error has put into the cache
  abbrev pub IsWhole : Network → Text → Text → Cache → Type 0
  IsWhole n url path cache =
      (r : Response) × (n.get url ≡ some r)
      × (r.status_code ≡ 200)
      × (Map.get path cache ≡ some (concat r.chunks))

  answer-IsWhole :
      (n : Network) (url path : Text) (expected : ℤ) (cache : Cache) (o : Option Response)
      → n.get url ≡ o
      → (fetch_answer d path expected cache o).0 ≡ none
      → IsWhole n url path (fetch_answer d path expected cache o).1
  answer-IsWhole n url path expected cache none e h = cc h
  answer-IsWhole n url path expected cache (some r) e h = elim (Bool-cases (r.status_code == 200)) [
    | inr other ↦ cc (rw other at h)
    | inl found ↦ elim (Bool-cases (d.can_create path)) [
      | inr fails ↦ cc (rw (found, fails) at h)
      | inl goes ↦
          let text =
            copy_chunks d path (total_size r.content_length expected) r.ends_well r.chunks [] in
          (
            r,
            e,
            (nat_beq_iff r.status_code 200).0 found,
            rw (found, goes)
                (get-put_self path text.1 cache
                  ∙ ap some (
                      copied-chunks path (total_size r.content_length expected) r.ends_well r.chunks
                        [] (rw (found, goes) at h))),
          )
    ]
  ]

  -- A file that was fetched without an error is the whole body of an answer with status 200.
  fetched-IsWhole :
      (n : Network) (url path : Text) (expected : ℤ) (cache : Cache)
      → (download_file d n url path expected cache).0 ≡ none
      → IsWhole n url path (download_file d n url path expected cache).1
  unfolding download_file
  fetched-IsWhole n url path expected cache h =
      answer-IsWhole n url path expected cache (n.get url) refl h

  -- the first field of the checksum file, in lower case, is the digest of the tarball
  abbrev pub IsMatched : Text → Text → Cache → Type 0
  IsMatched path sum_path cache =
      (tarball sum f : Text) × (fs : List Text) × (Map.get path cache ≡ some tarball)
      × (Map.get sum_path cache ≡ some sum)
      × (fields sum ≡ f ∷ fs)
      × (d.sha256_hex tarball ≡ to_lower f)

  read-some :
      (path : Text) (o : Option Text) (text : Text) → readable d path o ≡ some text → o ≡ some text
  read-some path none text h = h
  read-some path (some t) text h = ground arith

  digest-matched :
      (expected : Text) (o : Option Text)
      → compare_digest d expected o ≡ none
      → (t : Text) × (o ≡ some t) × (d.sha256_hex t ≡ expected)
  digest-matched expected none h = cc h
  digest-matched expected (some t) h =
      (t, refl, ground (arith, text_eq.beq_iff (d.sha256_hex t) expected))

  fields-matched :
      (pieces : List Text) (o : Option Text)
      → verify_fields d pieces o ≡ none
      → (t f : Text) × (fs : List Text) × (o ≡ some t)
        × (pieces ≡ f ∷ fs)
        × (d.sha256_hex t ≡ to_lower f)
  fields-matched [] o h = cc h
  fields-matched (f ∷ fs) o h =
      let (t, found, same) = digest-matched (to_lower f) o h in (t, f, fs, found, refl, same)

  texts-matched :
      (s o : Option Text)
      → verify_texts d s o ≡ none
      → (t sum f : Text) × (fs : List Text) × (o ≡ some t)
        × (s ≡ some sum)
        × (fields sum ≡ f ∷ fs)
        × (d.sha256_hex t ≡ to_lower f)
  texts-matched none o h = cc h
  texts-matched (some sum) o h =
      let (t, f, fs, found, cut, same) = fields-matched (fields sum) o h in
      (t, sum, f, fs, found, refl, cut, same)

  verified-IsMatched :
      (path sum_path : Text) (cache : Cache)
      → verify_checksum d path sum_path cache ≡ none
      → IsMatched path sum_path cache
  unfolding verify_checksum
  verified-IsMatched path sum_path cache h =
      let (t, sum, f, fs, found, read, cut, same) = texts-matched _ _ h in
      (t, sum, f, fs, read-some path _ t found, read-some sum_path _ sum read, cut, same)

  -- what a download without an error has checked: the digest of the tarball, or that no checksum came
  abbrev pub IsChecked : Network → ReleaseInfo → Text → Cache → Type 0
  IsChecked n release path cache =
      IsMatched path (path ++ codes ".sha256") cache
      ⊎ ((a : Asset) × (c : Cache) × (e : UpdateError) × (find_asset (asset_name d release.tag_name)
              release.assets
            ≡ some a)
          × ((download_file d n (a.browser_download_url ++ codes ".sha256")
                (path ++ codes ".sha256") (pos 0) c).0
              ≡ some e))

  -- how the result, the state and the cache go together
  abbrev pub IsSettled : Network → ReleaseInfo → Result UpdateError Text × Manager × Cache → Type 0
  IsSettled n release (err e, m, cache) = (m.status.state ≡ failed) × (m.status.error ≡ some e)
  IsSettled n release (ok path, m, cache) =
      (m.status.state ≡ ready_to_apply) × IsChecked n release path cache

  verified-IsSettled :
      (n : Network) (release : ReleaseInfo) (o : Option UpdateError) (path : Text) (p : Progress)
      (m : Manager) (cache : Cache)
      → verify_checksum d path (path ++ codes ".sha256") cache ≡ o
      → IsSettled n release (after_verify d o path (path ++ codes ".sha256") p m cache)
  verified-IsSettled n release none path p m cache e =
      (refl, inl (verified-IsMatched path (path ++ codes ".sha256") cache e))
  verified-IsSettled n release (some x) path p m cache e = (refl, refl)

  checksum-IsSettled :
      (n : Network) (release : ReleaseInfo) (a : Asset) (path : Text) (f : Fetched d)
      (before : Cache) (events : List Event) (p : Progress) (m : Manager)
      → find_asset (asset_name d release.tag_name) release.assets ≡ some a
      → download_file d n
          (a.browser_download_url ++ codes ".sha256")
          (path ++ codes ".sha256")
          (pos 0)
          before
        ≡ f
      → IsSettled n release (after_checksum d f path (path ++ codes ".sha256") events p m)
  checksum-IsSettled n release a path (some e, cache, evs) before events p m found h =
      (refl, inr (a, before, e, found, ap (λ r. r.0) h))
  checksum-IsSettled n release a path (none, cache, evs) before events p m found h =
      verified-IsSettled n release _ path p (show_state d download_verifying events m) cache refl

  tarball-IsSettled :
      (n : Network) (release : ReleaseInfo) (a : Asset) (path : Text) (f : Fetched d) (p : Progress)
      (m : Manager)
      → find_asset (asset_name d release.tag_name) release.assets ≡ some a
      → IsSettled n release (after_tarball d n a path f p m)
  tarball-IsSettled n release a path (some e, cache, events) p m found = (refl, refl)
  tarball-IsSettled n release a path (none, cache, events) p m found =
      checksum-IsSettled n release a path _ cache events (show_events d events p)
        (publish d events p m) found refl

  asset-IsSettled :
      (n : Network) (release : ReleaseInfo) (o : Option Asset) (path : Text) (m : Manager)
      (cache : Cache)
      → find_asset (asset_name d release.tag_name) release.assets ≡ o
      → IsSettled n release (with_asset d n o path m cache)
  asset-IsSettled n release none path m cache h = (refl, refl)
  asset-IsSettled n release (some a) path m cache h = elim (Bool-cases d.mkdir_succeeds) [
    | inr fails ↦ simp fails (refl, refl)
    | inl goes ↦ simp goes (tarball-IsSettled n release a path _ _ m h)
  ]

  -- Every download settles the state of the updater: an error is a failed state with that error, and a
  -- path that is answered is ready to be applied. Then the digest of the file at that path is the first
  -- field of the checksum file, or else the checksum of the release's asset could not be fetched.
  pub download-IsSettled :
      (n : Network) (release : ReleaseInfo) (m : Manager) (cache : Cache)
      → IsSettled n release (download_update d n release m cache)
  unfolding download_update
  download-IsSettled n release m cache =
      asset-IsSettled n release _ _ (set_state downloading m) cache refl
