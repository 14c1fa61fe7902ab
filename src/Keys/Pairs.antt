-- ===== src/Keys/Pairs.antt =====
-- The two files of a key: what Generate and Delete do to them and to the files beside them.
use skeys.Prelude.{◌≡◌, ◌∙◌, refl, true, false, Option, none, some, ◌==◌, err, Bool-cases, inl, inr}
use skeys.Text.{Text, text_eq}
use skeys.Files.{written, succeeds}
use skeys.Map
use skeys.Map.Laws.{get-put, get-delete, get-delete_self}
use skeys.Keys.Generator.{
  KeyError, KeyCrypto, GenerateOptions, Disk, Files, Algorithm, remove, store, algorithm_of,
  generate_key_pair, with_algorithm, with_key, write_private, with_signer, write_public,
  with_comment, passphrase_of,
}
use skeys.Keys.{public_path}

module _ (q path : Text) (other : (path == q) ≡ false) where
  get-store : (t : Option Text) (files : Files) → Map.get q (store t path files) ≡ Map.get q files
  get-store none files = rw (get-delete path q files, other) refl
  get-store (some text) files = rw (get-put path q text files, other) refl

  get-remove : (d : Disk) (files : Files) → Map.get q (remove d path files) ≡ Map.get q files
  unfolding remove
  get-remove d files = elim (Bool-cases (d.removable path)) [
    | inl can ↦ rw can (rw (get-delete path q files, other) refl)
    | inr cannot ↦ rw cannot refl
  ]

module _ (k : KeyCrypto) (d : Disk) (q path : Text) (p : (path == q) ≡ false)
    (u : (public_path path == q) ≡ false) where
  public-elsewhere :
      (line : Text) (files : Files)
      → Map.get q (write_public k d path line files).1 ≡ Map.get q files
  public-elsewhere line files = elim (Bool-cases (succeeds d.public_write)) [
    | inl good ↦ rw good (get-store q (public_path path) u (written d.public_write line) files)
    | inr bad ↦ rw bad (get-remove q path p d _ ∙ get-store q (public_path path) u _ files)
  ]

  signer-elsewhere :
      (o : GenerateOptions) (s : Option k.PublicKey) (files : Files)
      → Map.get q (with_signer k d o path s files).1 ≡ Map.get q files
  signer-elsewhere o none files = get-remove q path p d files
  signer-elsewhere o (some s) files =
      public-elsewhere (with_comment o.comment (k.marshal_authorized s)) files

  private-elsewhere :
      (o : GenerateOptions) (key : k.PrivateKey) (pem : Option Text) (files : Files)
      → Map.get q (write_private k d o path key pem files).1 ≡ Map.get q files
  private-elsewhere o key none files = refl
  private-elsewhere o key (some pem) files = elim (Bool-cases (succeeds d.private_write)) [
    | inl good ↦ rw good (signer-elsewhere o (k.public_of key) _ ∙ get-store q path p _ files)
    | inr bad ↦ rw bad (get-store q path p (written d.private_write pem) files)
  ]

  key-elsewhere :
      (o : GenerateOptions) (key : Option k.PrivateKey) (files : Files)
      → Map.get q (with_key k d o path key files).1 ≡ Map.get q files
  key-elsewhere o none files = refl
  key-elsewhere o (some key) files =
      private-elsewhere o key (k.marshal_private key o.comment (passphrase_of o.passphrase)) files

  algorithm-elsewhere :
      (o : GenerateOptions) (a : Option Algorithm) (files : Files)
      → Map.get q (with_algorithm k d o path a files).1 ≡ Map.get q files
  algorithm-elsewhere o none files = refl
  algorithm-elsewhere o (some a) files = key-elsewhere o (k.generate a) files

  pub pair-elsewhere :
      (o : GenerateOptions) (files : Files)
      → Map.get q (generate_key_pair k d o path files).1 ≡ Map.get q files
  unfolding generate_key_pair
  pair-elsewhere o files = algorithm-elsewhere o (algorithm_of o) files

-- what is left of a private key that was not there before, when an error is reported
module _ (k : KeyCrypto) (d : Disk) (path : Text) (removable : d.removable path ≡ true)
    (good : succeeds d.private_write ≡ true) where
  remove_self : (files : Files) → Map.get path (remove d path files) ≡ none
  unfolding remove
  remove_self files = rw removable (get-delete_self path files)

  public-cleanup :
      (line : Text) (files : Files) (e : KeyError)
      → (write_public k d path line files).0 ≡ err e
      → Map.get path (write_public k d path line files).1 ≡ none
  public-cleanup line files e h = elim (Bool-cases (succeeds d.public_write)) [
    | inl fine ↦ cc (rw fine at h)
    | inr bad ↦ rw bad (remove_self _)
  ]

  signer-cleanup :
      (o : GenerateOptions) (s : Option k.PublicKey) (files : Files) (e : KeyError)
      → (with_signer k d o path s files).0 ≡ err e
      → Map.get path (with_signer k d o path s files).1 ≡ none
  signer-cleanup o none files e h = remove_self files
  signer-cleanup o (some s) files e h =
      public-cleanup (with_comment o.comment (k.marshal_authorized s)) files e h

  private-cleanup :
      (o : GenerateOptions) (key : k.PrivateKey) (pem : Option Text) (files : Files) (e : KeyError)
      → Map.get path files ≡ none
      → (write_private k d o path key pem files).0 ≡ err e
      → Map.get path (write_private k d o path key pem files).1 ≡ none
  private-cleanup o key none files e a h = a
  private-cleanup o key (some pem) files e a h =
      rw good (signer-cleanup o (k.public_of key) _ e (rw good at h))

  key-cleanup :
      (o : GenerateOptions) (key : Option k.PrivateKey) (files : Files) (e : KeyError)
      → Map.get path files ≡ none
      → (with_key k d o path key files).0 ≡ err e
      → Map.get path (with_key k d o path key files).1 ≡ none
  key-cleanup o none files e a h = a
  key-cleanup o (some key) files e a h =
      private-cleanup o key (k.marshal_private key o.comment (passphrase_of o.passphrase)) files e a
        h

  algorithm-cleanup :
      (o : GenerateOptions) (g : Option Algorithm) (files : Files) (e : KeyError)
      → Map.get path files ≡ none
      → (with_algorithm k d o path g files).0 ≡ err e
      → Map.get path (with_algorithm k d o path g files).1 ≡ none
  algorithm-cleanup o none files e a h = a
  algorithm-cleanup o (some g) files e a h = key-cleanup o (k.generate g) files e a h

-- If the private key was not there, its write does not break off, and it can be removed, then after
-- any error of GenerateKeyPair there is no private key.
pub failed_pair_is_removed :
    (k : KeyCrypto) (d : Disk) (o : GenerateOptions) (path : Text) (files : Files) (e : KeyError)
    → d.removable path ≡ true
    → succeeds d.private_write ≡ true
    → Map.get path files ≡ none
    → (generate_key_pair k d o path files).0 ≡ err e
    → Map.get path (generate_key_pair k d o path files).1 ≡ none
unfolding generate_key_pair
failed_pair_is_removed k d o path files e r g a h =
    algorithm-cleanup k d path r g o (algorithm_of o) files e a h
