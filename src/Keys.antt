-- ===== src/Keys.antt =====
-- skeys-core/keys/service.go and keygen.go: the pairs of key files in ~/.ssh. What
-- golang.org/x/crypto/ssh and the packages crypto answer is a `KeyCrypto`, what the file system answers
-- in one call is a `Disk`, and the files are a map from their paths. `os.Stat` fails only for a file
-- that is not there.
pub mod Base64
pub mod Passphrase
pub mod Generator
pub mod Naming
pub mod Pairs
pub mod Names
pub mod Deleting
pub mod Changing
pub mod Tests
use skeys.Prelude.{
  ℕ, Bool, true, false, not, ◌&&◌, ◌||◌, Option, none, some, List, [], ◌∷◌, ◌++◌, ◌==◌, Result, ok,
  err, ◌>>=◌, if◌then◌else◌,
}
use skeys.Text.{Text, text_eq, codes}
use skeys.Text.Strings.{fields, join, trim_space}
use skeys.Text.Paths.{join_path}
use skeys.Map
use skeys.Map.{Map}
use skeys.Keys.Passphrase.{Panic, check_has_passphrase}
use skeys.Keys.Generator.{
  KeyError, already_exists, invalid_public, public_unreadable, dir_unreadable, remove_failed,
  KeyCrypto, GenerateOptions, Disk, Files, exists, read_file, Written, generate_key_pair,
  calculate_fingerprint, get_key_bits, change_key_passphrase,
}
use skeys.Keys.Naming.{KeyType, parse_key_type, should_skip_file, validate_key_name, is_abs, base}

pub record Key : Type 0 where
  pub id : Text
  pub name : Text
  pub private_key_path : Text
  public_key_path : Text
  pub key_type : KeyType
  pub bits : ℕ
  pub comment : Text
  pub fingerprint : Text
  pub public_key : Text
  has_passphrase : Bool
  in_agent : Bool
  modified_at : ℕ

-- the fingerprints that the agent lists
pub record AgentChecker : Type 0 where
  loaded_fingerprints : Option (List Text)

pub record Service : Type 0 where
  pub ssh_dir : Text
  pub agent_checker : Option AgentChecker

abbrev pub path_of : Service → Text → Text
path_of s name = if is_abs name then name else join_path s.ssh_dir name

abbrev pub public_path : Text → Text
public_path path = path ++ codes ".pub"

unfoldable pub is_listed : Text → List Text → Bool
is_listed f [] = false
is_listed f (g ∷ gs) = g == f || is_listed f gs

abbrev in_checker : Text → Option AgentChecker → Bool
in_checker f none = false
in_checker f (some a) = elim a.loaded_fingerprints [ none ↦ false | some fs ↦ is_listed f fs ]

unfoldable pub is_key_in_agent : Service → Text → Bool
unfolding is_listed
is_key_in_agent s f =
    if f == [] || f == codes "unknown" then false else in_checker f s.agent_checker

abbrev pub or_unknown : Result KeyError Text → Text
or_unknown (err e) = codes "unknown"
or_unknown (ok f) = f

abbrev pub or_zero : Result KeyError ℕ → ℕ
or_zero (err e) = 0
or_zero (ok n) = n

-- the files that are left, and the fingerprints that the agent was asked to remove
pub record Deleted : Type 0 where
  pub result : Result KeyError (Unit {0})
  pub files : Files
  removed : List Text

abbrev pub remove_one : Disk → Text → Files → Option Files
remove_one d path files =
    if exists path files
    then (if d.removable path then some (Map.delete path files) else none)
    else some files

abbrev after_public : List Text → Files → Option Files → Deleted
after_public asked files none = record {
  result = err remove_failed;
  files = files;
  removed = asked;
}
after_public asked files (some left) = record { result = ok tt; files = left; removed = asked }

abbrev pub delete_public : Disk → Text → List Text → Files → Deleted
delete_public d path asked files = after_public asked files (remove_one d path files)

abbrev after_private : Disk → Text → List Text → Files → Option Files → Deleted
after_private d path asked files none = record {
  result = err remove_failed;
  files = files;
  removed = asked;
}
after_private d path asked files (some left) = delete_public d (public_path path) asked left

abbrev pub delete_private : Disk → Text → List Text → Files → Deleted
delete_private d path asked files = after_private d path asked files (remove_one d path files)

abbrev pub asked_of : Option AgentChecker → Result KeyError Text → List Text
asked_of none f = []
asked_of (some a) (err e) = []
asked_of (some a) (ok f) = if f == [] then [] else f ∷ []

abbrev pub validated : Text → Result KeyError (Unit {0})
validated name = if is_abs name then ok tt else validate_key_name name

module _ (k : KeyCrypto) where
  unfoldable pub fingerprint : Disk → Service → Text → Text → Files → Result KeyError Text
  unfolding exists read_file calculate_fingerprint
  fingerprint d s name algorithm files =
      let path = path_of s name in
      let read_from = if exists (public_path path) files then public_path path else path in
      calculate_fingerprint k (read_file d read_from files) algorithm

  abbrev loaded : Disk → Service → Text → Text → Text → Text → Text → Files → Bool → Key
  loaded d s name path line type_word comment files encrypted =
      let f = or_unknown (fingerprint d s name (codes "sha256") files) in
      record {
        id = f;
        name = name;
        private_key_path = path;
        public_key_path = public_path path;
        key_type = parse_key_type type_word;
        bits = or_zero (get_key_bits k (read_file d (public_path path) files));
        comment = comment;
        fingerprint = f;
        public_key = trim_space line;
        has_passphrase = encrypted;
        in_agent = is_key_in_agent s f;
        modified_at = if exists path files then d.mod_time path else 0;
      }

  abbrev load_fields :
      Disk → Service → Text → Text → Text → List Text → Files → Result Panic (Result KeyError Key)
  load_fields d s name path line [] files = ok (err invalid_public)
  load_fields d s name path line (t ∷ []) files = ok (err invalid_public)
  load_fields d s name path line (t ∷ b ∷ rest) files =
      check_has_passphrase (read_file d path files)
      >>= (λ e. ok (ok (loaded d s name path line t (join (b' ' ∷ []) rest) files e)))

  abbrev load_line :
      Disk → Service → Text → Text → Option Text → Files → Result Panic (Result KeyError Key)
  load_line d s name path none files = ok (err public_unreadable)
  load_line d s name path (some line) files = load_fields d s name path line (fields line) files

  -- The name of an absolute path is its base, also where the fingerprint is asked for.
  unfoldable pub load : Disk → Service → Text → Files → Result Panic (Result KeyError Key)
  unfolding fingerprint read_file check_has_passphrase is_key_in_agent
  load d s name files =
      let path = path_of s name in
      load_line d s (if is_abs name then base name else name) path
        (read_file d (public_path path) files) files

  abbrev push : Result KeyError Key → List Key → List Key
  push (err e) keys = keys
  push (ok key) keys = key ∷ keys

  unfoldable pub list_entries :
      Disk → Service → List Text → List (Text × Bool) → Files → Result Panic (List Key)
  unfolding load should_skip_file
  list_entries d s seen [] files = ok []
  list_entries d s seen ((name, is_dir) ∷ es) files =
      let skipped = list_entries d s seen es files in
      let more =
        (load d s name files
          >>= (λ r. list_entries d s (name ∷ seen) es files >>= (λ keys. ok (push r keys)))) in
      if is_dir
        || (should_skip_file name
            || (not (exists (join_path s.ssh_dir (name ++ codes ".pub")) files)
                || is_listed name seen))
      then skipped
      else more

  abbrev listed :
      Disk
      → Service
      → Option (List (Text × Bool))
      → Files
      → Result Panic (Result KeyError (List Key))
  listed d s none files = ok (err dir_unreadable)
  listed d s (some es) files = list_entries d s [] es files >>= (λ keys. ok (ok keys))

  unfoldable pub list : Disk → Service → Files → Result Panic (Result KeyError (List Key))
  unfolding list_entries
  list d s files = listed d s d.entries files

  abbrev pub Generated : Type 0
  Generated = Result Panic (Result KeyError Key) × Files

  abbrev pub load_written : Disk → Service → Text → Written → Generated
  load_written d s name (err e, files) = (ok (err e), files)
  load_written d s name (ok u, files) = (load d s name files, files)

  abbrev pub generate_valid :
      Disk → Service → GenerateOptions → Result KeyError (Unit {0}) → Files → Generated
  generate_valid d s o (err e) files = (ok (err e), files)
  generate_valid d s o (ok u) files =
      let path = join_path s.ssh_dir o.name in
      if exists path files
      then (ok (err already_exists), files)
      else load_written d s o.name (generate_key_pair k d o path files)

  unfoldable pub generate : Disk → Service → GenerateOptions → Files → Generated
  unfolding load validate_key_name generate_key_pair
  generate d s o files = generate_valid d s o (validate_key_name o.name) files

  abbrev pub delete_valid : Disk → Service → Text → Result KeyError (Unit {0}) → Files → Deleted
  delete_valid d s name (err e) files = record { result = err e; files = files; removed = [] }
  delete_valid d s name (ok u) files =
      delete_private d (path_of s name)
        (asked_of s.agent_checker (fingerprint d s name (codes "sha256") files)) files

  unfoldable pub delete : Disk → Service → Text → Files → Deleted
  unfolding fingerprint validate_key_name exists
  delete d s name files = delete_valid d s name (validated name) files

  abbrev change_valid : Disk → Text → Text → Text → Result KeyError (Unit {0}) → Files → Written
  change_valid d path old new (err e) files = (err e, files)
  change_valid d path old new (ok u) files = change_key_passphrase k d path old new files

  unfoldable pub change_passphrase : Disk → Service → Text → Text → Text → Files → Written
  unfolding change_key_passphrase validate_key_name
  change_passphrase d s name old new files =
      change_valid d (path_of s name) old new (validated name) files
