-- ===== src/Keys/Generator.antt =====
-- skeys-core/keys/keygen.go: a pair of keys is made and written, its passphrase changed, and a public
-- key asked for its fingerprint, its size and its type.
use skeys.Prelude.{
  ℕ, zero, suc, Bool, true, false, ◌||◌, Option, none, some, List, [], ◌∷◌, ◌++◌, ◌==◌, Result, ok,
  err, ◌>>=◌, if◌then◌else◌,
}
use skeys.Text.{Text, text_eq, codes}
use skeys.Text.Numbers.{ℤ, pos, negsuc}
use skeys.Map
use skeys.Map.{Map}
use skeys.Files.{Write, written, succeeds}

pub data KeyError : Type 0 where
  empty_name path_separator leading_dot already_exists unsupported_type unsupported_algorithm
        generation_failed marshal_failed private_write_failed signer_failed public_write_failed
        public_unreadable invalid_public private_unreadable parse_failed dir_unreadable
        remove_failed :
      KeyError

pub data Algorithm : Type 0 where
  ed25519 ecdsa_p256 : Algorithm
  rsa : ℤ → Algorithm

pub record KeyCrypto : Type 1 where
  pub PrivateKey : Type 0
  pub PublicKey : Type 0
  -- the answer of the generators
  pub generate : Algorithm → Option PrivateKey
  -- `MarshalPrivateKey` with a comment, or `MarshalPrivateKeyWithPassphrase`, and `pem.EncodeToMemory`
  pub marshal_private : PrivateKey → Text → Option Text → Option Text
  -- `ParseRawPrivateKey` or `ParseRawPrivateKeyWithPassphrase`
  pub parse_private : Text → Option Text → Option PrivateKey
  -- the public key of `NewSignerFromKey`
  pub public_of : PrivateKey → Option PublicKey
  pub marshal_authorized : PublicKey → Text
  pub parse_authorized : Text → Option PublicKey
  pub fingerprint_sha256 : PublicKey → Text
  pub fingerprint_legacy_md5 : PublicKey → Text
  -- the size of an RSA modulus or of a curve, 256 for Ed25519, nothing for another key
  pub bit_size : PublicKey → Option ℕ
  pub type_of : PublicKey → Text

pub record GenerateOptions : Type 0 where
  pub name : Text
  pub key_type : Text
  pub bits : ℤ
  pub comment : Text
  pub passphrase : Text

pub record Disk : Type 0 where
  pub readable : Text → Bool
  pub removable : Text → Bool
  pub private_write : Write
  pub public_write : Write
  -- the files and directories that are found in the directory of the keys
  pub entries : Option (List (Text × Bool))
  pub mod_time : Text → ℕ

abbrev pub Files : Type 0
Files = Map Text Text

unfoldable pub exists : Text → Files → Bool
exists path files = elim (Map.get path files) [ none ↦ false | some t ↦ true ]

unfoldable pub read_file : Disk → Text → Files → Option Text
read_file d path files = if d.readable path then Map.get path files else none

abbrev pub store : Option Text → Text → Files → Files
store none path files = Map.delete path files
store (some text) path files = Map.put path text files

-- `os.Remove`, whose error a caller may ignore
unfoldable pub remove : Disk → Text → Files → Files
remove d path files = if d.removable path then Map.delete path files else files

abbrev pub passphrase_of : Text → Option Text
passphrase_of p = if p == [] then none else some p

abbrev pub rsa_bits : ℤ → ℤ
rsa_bits (pos zero) = pos 4096
rsa_bits (pos (suc n)) = pos (suc n)
rsa_bits (negsuc n) = negsuc n

unfoldable pub algorithm_of : GenerateOptions → Option Algorithm
algorithm_of o =
    if o.key_type == codes "ed25519" || o.key_type == []
    then some ed25519
    else if o.key_type == codes "ecdsa"
    then some ecdsa_p256
    else if o.key_type == codes "rsa"
    then some (rsa (rsa_bits o.bits))
    else none

-- all bytes but the last
abbrev pub but_last : Text → Text
but_last [] = []
but_last (c ∷ []) = []
but_last (c ∷ d ∷ s) = c ∷ but_last (d ∷ s)

abbrev pub with_comment : Text → Text → Text
with_comment comment line =
    if comment == [] then line else but_last line ++ (b' ' ∷ comment ++ b'\n' ∷ [])

abbrev pub Written : Type 0
Written = Result KeyError (Unit {0}) × Files

module _ (k : KeyCrypto) where
  abbrev pub write_public : Disk → Text → Text → Files → Written
  write_public d path line files =
      let left = store (written d.public_write line) (path ++ codes ".pub") files in
      if succeeds d.public_write
      then (ok tt, left)
      else (err public_write_failed, remove d path left)

  abbrev pub with_signer : Disk → GenerateOptions → Text → Option k.PublicKey → Files → Written
  with_signer d o path none files = (err signer_failed, remove d path files)
  with_signer d o path (some p) files =
      write_public d path (with_comment o.comment (k.marshal_authorized p)) files

  abbrev pub write_private :
      Disk → GenerateOptions → Text → k.PrivateKey → Option Text → Files → Written
  write_private d o path key none files = (err marshal_failed, files)
  write_private d o path key (some pem) files =
      let left = store (written d.private_write pem) path files in
      if succeeds d.private_write
      then with_signer d o path (k.public_of key) left
      else (err private_write_failed, left)

  abbrev pub with_key : Disk → GenerateOptions → Text → Option k.PrivateKey → Files → Written
  with_key d o path none files = (err generation_failed, files)
  with_key d o path (some key) files =
      write_private d o path key (k.marshal_private key o.comment (passphrase_of o.passphrase))
        files

  abbrev pub with_algorithm : Disk → GenerateOptions → Text → Option Algorithm → Files → Written
  with_algorithm d o path none files = (err unsupported_type, files)
  with_algorithm d o path (some a) files = with_key d o path (k.generate a) files

  unfoldable pub generate_key_pair : Disk → GenerateOptions → Text → Files → Written
  unfolding algorithm_of remove
  generate_key_pair d o path files = with_algorithm d o path (algorithm_of o) files

  abbrev parsed : Option Text → Result KeyError k.PublicKey
  parsed none = err public_unreadable
  parsed (some line) = elim (k.parse_authorized line) [ none ↦ err invalid_public | some p ↦ ok p ]

  unfoldable pub fingerprint_of : k.PublicKey → Text → Result KeyError Text
  fingerprint_of p algorithm =
      if algorithm == codes "sha256" || algorithm == []
      then ok (k.fingerprint_sha256 p)
      else if algorithm == codes "md5"
      then ok (k.fingerprint_legacy_md5 p)
      else err unsupported_algorithm

  unfoldable pub calculate_fingerprint : Option Text → Text → Result KeyError Text
  unfolding fingerprint_of
  calculate_fingerprint line algorithm = parsed line >>= (λ p. fingerprint_of p algorithm)

  abbrev size_of : Option ℕ → Result KeyError ℕ
  size_of none = err unsupported_type
  size_of (some n) = ok n

  unfoldable pub get_key_bits : Option Text → Result KeyError ℕ
  get_key_bits line = parsed line >>= (λ p. size_of (k.bit_size p))

  unfoldable pub key_type_of : k.PublicKey → Text
  key_type_of p =
      let t = k.type_of p in
      if t == codes "ssh-rsa"
      then codes "rsa"
      else if t == codes "ecdsa-sha2-nistp256"
          || (t == codes "ecdsa-sha2-nistp384" || t == codes "ecdsa-sha2-nistp521")
      then codes "ecdsa"
      else if t == codes "ssh-ed25519"
      then codes "ed25519"
      else t

  unfoldable pub get_key_type : Option Text → Result KeyError Text
  unfolding key_type_of
  get_key_type line = parsed line >>= (λ p. ok (key_type_of p))

  abbrev pub rewrite_key : Disk → Text → Option Text → Files → Written
  rewrite_key d path none files = (err marshal_failed, files)
  rewrite_key d path (some pem) files = (
    (if succeeds d.private_write then ok tt else err private_write_failed),
    store (written d.private_write pem) path files,
  )

  abbrev pub with_new_passphrase : Disk → Text → Text → Option k.PrivateKey → Files → Written
  with_new_passphrase d path new none files = (err parse_failed, files)
  with_new_passphrase d path new (some key) files =
      rewrite_key d path (k.marshal_private key [] (passphrase_of new)) files

  abbrev pub change_read : Disk → Text → Text → Text → Option Text → Files → Written
  change_read d path old new none files = (err private_unreadable, files)
  change_read d path old new (some pem) files =
      with_new_passphrase d path new (k.parse_private pem (passphrase_of old)) files

  -- The comment of the key is not kept: `extractCommentFromPrivateKey` always answers none.
  unfoldable pub change_key_passphrase : Disk → Text → Text → Text → Files → Written
  unfolding read_file
  change_key_passphrase d path old new files =
      change_read d path old new (read_file d path files) files
