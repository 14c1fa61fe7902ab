-- ===== src/Keys/Naming.antt =====
-- The names of keys in skeys-core/keys/service.go, and what filepath.IsAbs and filepath.Base say.
use skeys.Prelude.{
  Bool, false, ◌||◌, ◌&&◌, List, [], ◌∷◌, ◌==◌, nat_eq, Result, ok, err, if◌then◌else◌,
}
use skeys.Text.{Text, text_eq, codes}
use skeys.Text.Strings.{contains, has_prefix, split}
use skeys.Keys.Generator.{KeyError, empty_name, path_separator, leading_dot}

pub data KeyType : Type 0 where
  rsa ed25519 ecdsa ed25519_sk ecdsa_sk unknown : KeyType

unfoldable pub parse_key_type : Text → KeyType
parse_key_type t =
    if t == codes "ssh-rsa"
    then rsa
    else if t == codes "ssh-ed25519"
    then ed25519
    else if t == codes "ecdsa-sha2-nistp256"
        || (t == codes "ecdsa-sha2-nistp384" || t == codes "ecdsa-sha2-nistp521")
    then ecdsa
    else if t == codes "sk-ssh-ed25519@openssh.com"
    then ed25519_sk
    else if t == codes "sk-ecdsa-sha2-nistp256@openssh.com"
    then ecdsa_sk
    else unknown

unfoldable pub has_suffix : Text → Text → Bool
has_suffix [] p = p == []
has_suffix (c ∷ s) p = (c ∷ s) == p || has_suffix s p

unfoldable pub should_skip_file : Text → Bool
unfolding has_suffix has_prefix
should_skip_file name =
    (name == codes "config"
      || (name == codes "known_hosts"
          || (name == codes "authorized_keys" || name == codes "environment")))
    || (has_suffix name (codes ".pub") || has_prefix name (codes "."))

unfoldable pub validate_key_name : Text → Result KeyError (Unit {0})
unfolding contains has_prefix
validate_key_name name =
    if name == []
    then err empty_name
    else if contains name (codes "/") || contains name (codes "\\")
    then err path_separator
    else if has_prefix name (codes ".")
    then err leading_dot
    else ok tt

abbrev pub is_abs : Text → Bool
is_abs [] = false
is_abs (c ∷ s) = c == b'/'

unfoldable pub trim_slashes : Text → Text
trim_slashes [] = []
trim_slashes (c ∷ s) = let rest = trim_slashes s in if c == b'/' && rest == [] then [] else c ∷ rest

abbrev pub last_piece : List Text → Text
last_piece [] = []
last_piece (w ∷ []) = w
last_piece (w ∷ v ∷ ws) = last_piece (v ∷ ws)

abbrev pub or_root : Text → Text
or_root [] = codes "/"
or_root (c ∷ s) = c ∷ s

-- `filepath.Base`
unfoldable pub base : Text → Text
unfolding trim_slashes split
base [] = codes "."
base (c ∷ s) = or_root (last_piece (split b'/' (trim_slashes (c ∷ s))))
