-- ===== src/Storage/Saving.antt =====
-- What `save` leaves on disk, for every operation that changes the store.
use skeys.Prelude.{
  ℕ, ◌≡◌, ◌∙◌, refl, ap, ◌⊎◌, inl, inr, Bool, true, false, Option, none, some, List, [], ◌∷◌, ok,
  err, ◌==◌, Option-cases, arith, if◌then◌else◌,
}
use skeys.Text.{Text, text_eq}
use skeys.Map
use skeys.Storage.{
  StoreError, KeyMetadata, RemoteServer, StoreData, Codec, Disk, Store, Outcome, load, save,
  write_failed, rename_failed, key_path_required, remote_id_required, remote_not_found,
  set_key_metadata, delete_key_metadata, add_remote_server, update_remote_server,
  delete_remote_server, update_remote_server_last_connected,
}

-- an operation that may change the store
pub data Change : Type 0 where
  set_metadata : Option KeyMetadata → Change
  delete_metadata : Text → Change
  add_remote : Option RemoteServer → Change
  update_remote : Option RemoteServer → Change
  delete_remote : Text → Change
  connected : Text → ℕ → Change

module _ (codec : Codec) where
  unfoldable pub apply : Disk → Change → Store → Outcome
  apply disk (set_metadata meta) = set_key_metadata codec disk meta
  apply disk (delete_metadata path) = delete_key_metadata codec disk path
  apply disk (add_remote remote) = add_remote_server codec disk remote
  apply disk (update_remote remote) = update_remote_server codec disk remote
  apply disk (delete_remote id) = delete_remote_server codec disk id
  apply disk (connected id at) = update_remote_server_last_connected codec disk id at

  -- Every operation refuses and changes nothing, or saves new contents.
  abbrev Shape : Disk → Store → Outcome → Type 0
  Shape disk s r =
      ((e : StoreError) × (r ≡ (err e, s)))
      ⊎ ((d : StoreData) × (r ≡ save codec disk (record s { contents = d })))

  if-Shape :
      (disk : Disk) (s : Store) (b : Bool) (x y : Outcome)
      → Shape disk s x
      → Shape disk s y
      → Shape disk s (if b then x else y)
  if-Shape disk s true x y hx hy = hx
  if-Shape disk s false x y hx hy = hy

  apply-Shape : (disk : Disk) (ch : Change) (s : Store) → Shape disk s (apply disk ch s)
  unfolding apply set_key_metadata delete_key_metadata add_remote_server update_remote_server
      delete_remote_server update_remote_server_last_connected
  apply-Shape disk (set_metadata none) s = inl (key_path_required, refl)
  apply-Shape disk (set_metadata (some m)) s =
      if-Shape disk s (m.key_path == []) _ _ (inl (key_path_required, refl)) (inr (_, refl))
  apply-Shape disk (delete_metadata path) s = inr (_, refl)
  apply-Shape disk (add_remote none) s = inl (remote_id_required, refl)
  apply-Shape disk (add_remote (some r)) s =
      if-Shape disk s (r.id == []) _ _ (inl (remote_id_required, refl)) (inr (_, refl))
  apply-Shape disk (update_remote none) s = inl (remote_id_required, refl)
  apply-Shape disk (update_remote (some r)) s =
      if-Shape disk s (r.id == []) _ _ (inl (remote_id_required, refl))
        (elim (Option-cases (Map.get r.id s.contents.remote_servers)) [
          | inl absent ↦ rw absent (inl (remote_not_found, refl))
          | inr (old, found) ↦ rw found (inr (_, refl))
        ])
  apply-Shape disk (delete_remote id) s = inr (_, refl)
  apply-Shape disk (connected id at) s =
      elim (Option-cases (Map.get id s.contents.remote_servers)) [
        | inl absent ↦ rw absent (inl (remote_not_found, refl))
        | inr (old, found) ↦ rw found (inr (_, refl))
      ]

  -- A save that reports success has put the encoded contents into the file, and one that fails has
  -- left the file alone.
  Saved : Store → Outcome → Type 0
  Saved s (ok u, t) =
      (t.contents ≡ s.contents)
      × ((text : Text) × (codec.encode s.contents ≡ some text) × (t.meta_file ≡ some text))
  Saved s (err e, t) = (t.contents ≡ s.contents) × (t.meta_file ≡ s.meta_file)

  if-Saved :
      (s : Store) (b : Bool) (x y : Outcome) → Saved s x → Saved s y → Saved s (if b then x else y)
  if-Saved s true x y hx hy = hx
  if-Saved s false x y hx hy = hy

  save-Saved : (disk : Disk) (s : Store) → Saved s (save codec disk s)
  unfolding save
  save-Saved disk s = elim (Option-cases (codec.encode s.contents)) [
    | inl fails ↦ rw fails (unfold Saved in (refl, refl))
    | inr (text, done) ↦ rw done (
        if-Saved s disk.write_succeeds
          (if disk.rename_succeeds
            then (ok tt, record s { meta_file = some text; tmp_file = none })
            else (err rename_failed, record s { tmp_file = none }))
          (err write_failed, record s { tmp_file = disk.torn })
          (if-Saved s disk.rename_succeeds
            (ok tt, record s { meta_file = some text; tmp_file = none })
            (err rename_failed, record s { tmp_file = none })
            (unfold Saved in (refl, (text, done, refl))) (unfold Saved in (refl, refl)))
          (unfold Saved in (refl, refl)))
  ]

  Saved-err :
      (s : Store) (r : Outcome) (e : StoreError)
      → Saved s r
      → r.0 ≡ err e
      → r.1.meta_file ≡ s.meta_file
  unfolding Saved
  Saved-err s (ok u, t) e h p = ground arith
  Saved-err s (err e', t) e h p = h.1

  Saved-ok :
      (s : Store) (r : Outcome)
      → Saved s r
      → r.0 ≡ ok tt
      → (text : Text) × (codec.encode r.1.contents ≡ some text) × (r.1.meta_file ≡ some text)
  unfolding Saved
  Saved-ok s (ok u, t) (same, (text, encoded, written)) p = (text, rw same encoded, written)
  Saved-ok s (err e', t) h p = ground arith

  -- Whatever the disk does, an operation that returns an error leaves the metadata file as it was.
  failure_keeps_file :
      (disk : Disk) (ch : Change) (s : Store) (e : StoreError)
      → (apply disk ch s).0 ≡ err e
      → (apply disk ch s).1.meta_file ≡ s.meta_file
  failure_keeps_file disk ch s e h = elim (apply-Shape disk ch s) [
    | inl (why, refused) ↦ ap (λ r. r.1.meta_file) refused
    | inr (d, saves) ↦
        rw saves (Saved-err (record s { contents = d }) _ e (save-Saved disk _) (rw saves at h))
  ]

  -- If what is encoded can be decoded, then after an operation that reports success the file loads
  -- as exactly the contents in memory.
  load-apply :
      ((d : StoreData) (text : Text) → codec.encode d ≡ some text → codec.decode text ≡ some d)
      → (disk : Disk) (ch : Change) (s : Store) → (apply disk ch s).0 ≡ ok tt
      → load codec (apply disk ch s).1.meta_file ≡ (apply disk ch s).1.contents
  unfolding load
  load-apply law disk ch s h = elim (apply-Shape disk ch s) [
    | inl (why, refused) ↦ ground (arith, h, refused)
    | inr (d, saves) ↦
        let (text, encoded, written) =
          Saved-ok (record s { contents = d }) _ (save-Saved disk _) (rw saves at h) in
        rw saves (rw written (rw (law _ text encoded)))
  ]

  unfoldable pub run : List (Disk × Change) → Store → Store
  run [] s = s
  run ((disk, ch) ∷ rest) s = run rest (apply disk ch s).1

  abbrev after : Outcome → StoreData → StoreData
  after (ok u, t) d = t.contents
  after (err e, t) d = d

  -- The specification of what is durable: the contents at the last success, `d` before the first.
  unfoldable pub durable : List (Disk × Change) → Store → StoreData → StoreData
  durable [] s d = d
  durable ((disk, ch) ∷ rest) s d = durable rest (apply disk ch s).1 (after (apply disk ch s) d)

  load-after :
      ((d : StoreData) (text : Text) → codec.encode d ≡ some text → codec.decode text ≡ some d)
      → (disk : Disk) (ch : Change) (s : Store) (d : StoreData) → load codec s.meta_file ≡ d
      → load codec (apply disk ch s).1.meta_file ≡ after (apply disk ch s) d
  load-after law disk ch s d h =
      from (apply disk ch s) (failure_keeps_file disk ch s) (load-apply law disk ch s)
    where
      from :
          (r : Outcome)
          → ((e : StoreError) → r.0 ≡ err e → r.1.meta_file ≡ s.meta_file)
          → (r.0 ≡ ok tt → load codec r.1.meta_file ≡ r.1.contents)
          → load codec r.1.meta_file ≡ after r d
      from (ok u, t) failed done = done refl
      from (err e, t) failed done = ap (load codec) (failed e refl) ∙ h

  load-run_from :
      ((d : StoreData) (text : Text) → codec.encode d ≡ some text → codec.decode text ≡ some d)
      → (steps : List (Disk × Change)) (s : Store) (d : StoreData) → load codec s.meta_file ≡ d
      → load codec (run steps s).meta_file ≡ durable steps s d
  unfolding run durable
  load-run_from law [] s d h = h
  load-run_from law ((disk, ch) ∷ rest) s d h =
      load-run_from law rest (apply disk ch s).1 _ (load-after law disk ch s d h)

  -- If what is encoded can be decoded, then after any operations, on a disk that fails however often,
  -- a restart finds the contents of the last operation that reported success.
  pub load-run :
      ((d : StoreData) (text : Text) → codec.encode d ≡ some text → codec.decode text ≡ some d)
      → (steps : List (Disk × Change)) (s : Store)
      → load codec (run steps s).meta_file ≡ durable steps s (load codec s.meta_file)
  load-run law steps s = load-run_from law steps s (load codec s.meta_file) refl
