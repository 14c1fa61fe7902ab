-- ===== src/Keys/Changing.antt =====
-- ChangePassphrase keeps the private key.
use skeys.Prelude.{◌≡◌, Option, none, some, [], ok, err, if◌then◌else◌, Option-cases, inl, inr}
use skeys.Text.{Text, text_eq}
use skeys.Files.{Write, complete, broken, written, succeeds}
use skeys.Map
use skeys.Map.Laws.{get-put_self}
use skeys.Keys.Generator.{
  KeyError, KeyCrypto, Disk, Files, read_file, store, passphrase_of, rewrite_key, change_read,
  change_key_passphrase,
}

-- the private key that a passphrase opens in a file
abbrev pub opened : (k : KeyCrypto) → Option Text → Option Text → Option k.PrivateKey
opened k none pass = none
opened k (some pem) pass = k.parse_private pem pass

abbrev pub ReadsBack : KeyCrypto → Type 0
ReadsBack k =
    (key : k.PrivateKey) (comment pem : Text) (pass : Option Text)
    → k.marshal_private key comment pass ≡ some pem
    → k.parse_private pem pass ≡ some key

module _ (k : KeyCrypto) (d : Disk) (path new : Text) (law : ReadsBack k) where
  rewritten :
      (key : k.PrivateKey) (files : Files)
      → (rewrite_key k d path (k.marshal_private key [] (passphrase_of new)) files).0 ≡ ok tt
      → opened k
          (Map.get path
            (rewrite_key k d path (k.marshal_private key [] (passphrase_of new)) files).1)
          (passphrase_of new)
        ≡ some key
  rewritten key files h = elim (Option-cases (k.marshal_private key [] (passphrase_of new))) [
    | inl failed ↦ cc (rw failed at h)
    | inr (pem, done) ↦ rw done (by_write d.private_write pem done (rw done at h))
  ]
    where
      by_write :
          (w : Write) (pem : Text)
          → k.marshal_private key [] (passphrase_of new) ≡ some pem
          → (if succeeds w then ok tt else err KeyError.private_write_failed) ≡ ok tt
          → opened k (Map.get path (store (written w pem) path files)) (passphrase_of new)
            ≡ some key
      by_write complete pem done h =
          rw (get-put_self path pem files) (law key [] pem (passphrase_of new) done)
      by_write (broken left) pem done h = cc h

-- If a private key that is marshalled with a passphrase is parsed back with it, then after a change of
-- the passphrase without an error the new one opens the very key that the old one opened before.
pub change_keeps_key :
    (k : KeyCrypto) (d : Disk) (path old new : Text) (files : Files)
    → ReadsBack k
    → (change_key_passphrase k d path old new files).0 ≡ ok tt
    → opened k (Map.get path (change_key_passphrase k d path old new files).1) (passphrase_of new)
      ≡ opened k (read_file d path files) (passphrase_of old)
unfolding change_key_passphrase
change_keeps_key k d path old new files law h = by_file (read_file d path files) h
  where
    by_file :
        (pem : Option Text)
        → (change_read k d path old new pem files).0 ≡ ok tt
        → opened k (Map.get path (change_read k d path old new pem files).1) (passphrase_of new)
          ≡ opened k pem (passphrase_of old)
    by_file none h = cc h
    by_file (some pem) h = elim (Option-cases (k.parse_private pem (passphrase_of old))) [
      | inl wrong ↦ cc (rw wrong at h)
      | inr (key, opens) ↦ rw opens (rewritten k d path new law key files (rw opens at h))
    ]
