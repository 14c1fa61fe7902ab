-- ===== src/KnownHosts/Entries.antt =====
-- skeys-core/hosts/known_hosts.go: the entries of known_hosts, and how they are read.
use skeys.Prelude.{
  ℕ, suc, Bool, true, false, ◌||◌, Option, none, some, List, [], ◌∷◌, ◌==◌, nat_eq, Result, ok, err,
  if◌then◌else◌,
}
use skeys.Text.{Text, text_eq, codes}
use skeys.Text.Decimal.{itoa}
use skeys.Text.Strings.{split, trim_space, fields, has_prefix, scan_lines}
use skeys.Files.{Write}

pub data HostsError : Type 0 where
  open_failed line_too_long command_failed fingerprint_unreadable : HostsError
  temp_failed hash_failed mkdir_failed write_failed : HostsError

pub record KnownHost : Type 0 where
  pub id : Text
  pub hostnames : List Text
  pub key_type : Text
  -- never filled in
  pub fingerprint : Text
  pub public_key : Text
  pub is_hashed : Bool
  pub is_revoked : Bool
  pub is_cert_auth : Bool
  pub line_number : ℕ

pub record ScannedKey : Type 0 where
  pub hostname : Text
  pub port : ℕ
  pub key_type : Text
  pub public_key : Text
  pub fingerprint : Text

-- The output, if the command succeeds, and the file behind it.
pub record Executor : Type 0 where
  pub run : Text → List Text → Option Text → Option Text × Option Text

pub record Disk : Type 0 where
  pub readable : Bool
  pub temp_succeeds : Bool
  pub mkdir_succeeds : Bool
  pub openable : Bool
  pub file_write : Write
  -- the path of a temporary file
  pub temp_path : Text

abbrev pub markers : Text → Bool × Bool
markers p = if p == codes "@revoked" then (true, false) else (false, p == codes "@cert-authority")

abbrev pub host_of_fields : ℕ → Bool × Bool → List Text → Option KnownHost
host_of_fields n marks [] = none
host_of_fields n marks (h ∷ []) = none
host_of_fields n marks (h ∷ t ∷ []) = none
host_of_fields n (revoked, cert) (h ∷ t ∷ key ∷ rest) =
    let hashed = has_prefix h (codes "|1|") in
    some (record {
      id = itoa n;
      hostnames = if hashed then codes "[hashed]" ∷ [] else split b',' h;
      key_type = t;
      fingerprint = [];
      public_key = key;
      is_hashed = hashed;
      is_revoked = revoked;
      is_cert_auth = cert;
      line_number = n;
    })

abbrev pub parse_fields : ℕ → List Text → Option KnownHost
parse_fields n [] = none
parse_fields n (p ∷ []) = none
parse_fields n (p ∷ q ∷ []) = none
parse_fields n (p ∷ q ∷ r ∷ ps) =
    let marks = markers p in
    if marks.0 || marks.1
    then host_of_fields n marks (q ∷ r ∷ ps)
    else host_of_fields n marks (p ∷ q ∷ r ∷ ps)

unfoldable pub parse_line : Text → ℕ → Option KnownHost
parse_line line n = parse_fields n (fields line)

abbrev pub push_some : {A : Type 0} → Option A → List A → List A
push_some none xs = xs
push_some (some x) xs = x ∷ xs

abbrev pub is_skipped : Text → Bool
is_skipped line = line == [] || has_prefix line (codes "#")

unfoldable pub hosts_of_lines : ℕ → List Text → List KnownHost
unfolding parse_line
hosts_of_lines n [] = []
hosts_of_lines n (raw ∷ lines) =
    let rest = hosts_of_lines (suc n) lines in
    if is_skipped (trim_space raw) then rest else push_some (parse_line (trim_space raw) n) rest

abbrev pub list_text : Text → Result HostsError (List KnownHost)
list_text text =
    if (scan_lines text).1 then err line_too_long else ok (hosts_of_lines 1 (scan_lines text).0)

unfoldable pub list : Disk → Option Text → Result HostsError (List KnownHost)
unfolding hosts_of_lines
list d none = ok []
list d (some text) = if d.readable then list_text text else err open_failed
