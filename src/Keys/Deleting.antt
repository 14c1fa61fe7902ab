-- ===== src/Keys/Deleting.antt =====
-- Delete takes a pair of files away, and undoes Generate.
use skeys.Prelude.{
  ◌≡◌, ◌∙◌, refl, ap, sym, false, none, some, List, ◌==◌, Result, ok, err, if◌then◌else◌,
  Bool-cases, Option-cases, inl, inr,
}
use skeys.Text.{Text, text_eq}
use skeys.Text.Paths.{join_path}
use skeys.Map
use skeys.Map.Laws.{get-delete}
use skeys.Keys.Generator.{
  KeyError, KeyCrypto, GenerateOptions, Disk, Files, exists, Written, generate_key_pair,
}
use skeys.Keys.Naming.{validate_key_name}
use skeys.Keys.Names.{valid-is_relative}
use skeys.Keys.Pairs.{pair-elsewhere}
use skeys.Keys.{
  Service, path_of, public_path, generate, delete, validated, remove_one, delete_public,
  delete_private, delete_valid, generate_valid, load_written,
}

exists-not : (path : Text) (files : Files) → exists path files ≡ false → Map.get path files ≡ none
unfolding exists
exists-not path files h = elim (Option-cases (Map.get path files)) [
  | inl absent ↦ absent
  | inr (t, there) ↦ cc (rw (there, exists) at h)
]

unchanged :
    (q path : Text) (files : Files)
    → Map.get path files ≡ none
    → Map.get q files ≡ (if path == q then none else Map.get q files)
unchanged q path files h = elim (Bool-cases (path == q)) [
  | inl same ↦ rw same (ap (λ p. Map.get p files) (sym ((text_eq.beq_iff path q).0 same)) ∙ h)
  | inr other ↦ rw other refl
]

module _ (d : Disk) (q : Text) where
  remove_one-get :
      (path : Text) (files left : Files)
      → remove_one d path files ≡ some left
      → Map.get q left ≡ (if path == q then none else Map.get q files)
  remove_one-get path files left h = elim (Bool-cases (exists path files)) [
    | inl there ↦ elim (Bool-cases (d.removable path)) [
      | inl can ↦
          let e : Map.delete path files ≡ left = cc (rw (there, can) at h) in
          rw (← e) (get-delete path q files)
      | inr cannot ↦ cc (rw (there, cannot) at h)
    ]
    | inr absent ↦
        let e : files ≡ left = cc (rw absent at h) in
        rw (← e) (unchanged q path files (exists-not path files absent))
  ]

  delete-public :
      (path : Text) (asked : List Text) (files : Files)
      → (delete_public d path asked files).result ≡ ok tt
      → Map.get q (delete_public d path asked files).files
        ≡ (if path == q then none else Map.get q files)
  delete-public path asked files h = elim (Option-cases (remove_one d path files)) [
    | inl failed ↦ cc (rw (failed) at h)
    | inr (left, done) ↦ rw done (remove_one-get path files left done)
  ]

  delete-private :
      (path : Text) (asked : List Text) (files : Files)
      → (delete_private d path asked files).result ≡ ok tt
      → Map.get q (delete_private d path asked files).files
        ≡ (if public_path path == q then none else if path == q then none else Map.get q files)
  delete-private path asked files h = elim (Option-cases (remove_one d path files)) [
    | inl failed ↦ cc (rw (failed) at h)
    | inr (left, done) ↦ rw done (
        delete-public (public_path path) asked left (rw done at h)
        ∙ rw (remove_one-get path files left done) refl)
  ]

module _ (k : KeyCrypto) (d : Disk) (q : Text) where
  -- what a deletion without an error leaves of each file
  get-delete_key :
      (s : Service) (name : Text) (files : Files)
      → (delete k d s name files).result ≡ ok tt
      → Map.get q (delete k d s name files).files ≡ (
          if public_path (path_of s name) == q
          then none
          else if path_of s name == q
          then none
          else Map.get q files)
  unfolding delete
  get-delete_key s name files h = by_name (validated name) h
    where
      by_name :
          (v : Result KeyError (Unit {0}))
          → (delete_valid k d s name v files).result ≡ ok tt
          → Map.get q (delete_valid k d s name v files).files ≡ (
              if public_path (path_of s name) == q
              then none
              else if path_of s name == q
              then none
              else Map.get q files)
      by_name (err e) h = cc h
      by_name (ok u) h = delete-private d q (path_of s name) _ files h

path-valid :
    (s : Service) (name : Text)
    → validate_key_name name ≡ ok tt
    → path_of s name ≡ join_path s.ssh_dir name
path-valid s name h = rw (valid-is_relative name h) refl

module _ (k : KeyCrypto) (d : Disk) (q : Text) where
  generate-elsewhere_at :
      (s : Service) (o : GenerateOptions) (files : Files)
      → (join_path s.ssh_dir o.name == q) ≡ false
      → (public_path (join_path s.ssh_dir o.name) == q) ≡ false
      → Map.get q (generate_valid k d s o (ok tt) files).1 ≡ Map.get q files
  generate-elsewhere_at s o files p u =
      elim (Bool-cases (exists (join_path s.ssh_dir o.name) files)) [
        | inl there ↦ rw there refl
        | inr absent ↦ rw absent (
            after (generate_key_pair k d o (join_path s.ssh_dir o.name) files)
            ∙ pair-elsewhere k d q (join_path s.ssh_dir o.name) p u o files)
      ]
    where
      after : (w : Written) → Map.get q (load_written k d s o.name w).1 ≡ Map.get q w.1
      after (err e, files) = refl
      after (ok u, files) = refl

  generate-elsewhere :
      (s : Service) (o : GenerateOptions) (files : Files)
      → (path_of s o.name == q) ≡ false
      → (public_path (path_of s o.name) == q) ≡ false
      → Map.get q (generate k d s o files).1 ≡ Map.get q files
  unfolding generate
  generate-elsewhere s o files p u = by_name (validate_key_name o.name) refl
    where
      by_name :
          (v : Result KeyError (Unit {0}))
          → validate_key_name o.name ≡ v
          → Map.get q (generate_valid k d s o v files).1 ≡ Map.get q files
      by_name (err e) h = refl
      by_name (ok u') h =
          let e = path-valid s o.name h in generate-elsewhere_at s o files (rw e at p) (rw e at u)

-- When neither file of a key was there, a Delete without an error that follows a Generate, whatever
-- that answered and whatever the disk did, leaves every file as it was before both.
pub delete-generate :
    (k : KeyCrypto) (d c : Disk) (s : Service) (o : GenerateOptions) (files : Files) (q : Text)
    → Map.get (path_of s o.name) files ≡ none
    → Map.get (public_path (path_of s o.name)) files ≡ none
    → (delete k c s o.name (generate k d s o files).1).result ≡ ok tt
    → Map.get q (delete k c s o.name (generate k d s o files).1).files ≡ Map.get q files
delete-generate k d c s o files q no_private no_public h =
    get-delete_key k c q s o.name (generate k d s o files).1 h
    ∙ by_path (path_of s o.name) (public_path (path_of s o.name)) (generate k d s o files).1
        no_private no_public (generate-elsewhere k d q s o files)
  where
    by_path :
        (path public : Text) (after : Files)
        → Map.get path files ≡ none
        → Map.get public files ≡ none
        → ((path == q) ≡ false → (public == q) ≡ false → Map.get q after ≡ Map.get q files)
        → (if public == q then none else if path == q then none else Map.get q after)
          ≡ Map.get q files
    by_path path public after a b same = elim (Bool-cases (public == q)) [
      | inl is_public ↦
          rw is_public (sym b ∙ ap (λ p. Map.get p files) ((text_eq.beq_iff public q).0 is_public))
      | inr not_public ↦ elim (Bool-cases (path == q)) [
        | inl is_private ↦
            rw (not_public, is_private)
              (sym a ∙ ap (λ p. Map.get p files) ((text_eq.beq_iff path q).0 is_private))
        | inr not_private ↦ rw (not_public, not_private) (same not_private not_public)
      ]
    ]
