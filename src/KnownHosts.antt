-- ===== src/KnownHosts.antt =====
-- skeys-core/hosts/known_hosts.go: the file ~/.ssh/known_hosts, `none` where it does not exist. The
-- executor runs a command on a file, at a path that its arguments name: an argument and a result are
-- the file before and after. Ports and time-outs are natural numbers.
mod Entries
pub mod Adding
pub mod Commands
mod Tests
pub use skeys.KnownHosts.Entries.{
  HostsError, open_failed, line_too_long, command_failed, fingerprint_unreadable, temp_failed,
  hash_failed, mkdir_failed, write_failed, KnownHost, ScannedKey, Executor, Disk, push_some,
  is_skipped, list_text,
}
unfoldable pub use skeys.KnownHosts.Entries.{parse_line, hosts_of_lines, list}
use skeys.Prelude.{
  ℕ, suc, Bool, true, false, not, ◌&&◌, ◌||◌, Option, none, some, List, [], ◌∷◌, ◌++◌, ◌==◌, nat_eq,
  Result, ok, err, if◌then◌else◌,
}
use skeys.Text.{Text, text_eq, codes}
use skeys.Text.Decimal.{itoa}
use skeys.Text.Strings.{split, trim_space, fields, has_prefix, scan_lines}
use skeys.Files.{Write, complete, broken}

-- `defaultExecutor.Run` in front of the real command
pub default_executor : Executor → Executor
default_executor e = record {
  run = λ name args file.
      if name == codes "ssh-keygen" || name == codes "ssh-keyscan"
      then e.run name args file
      else (none, file);
}

-- the loop of `Lookup`, where each line has the number 0
unfoldable pub looked_up : List Text → List KnownHost
unfolding parse_line
looked_up [] = []
looked_up (raw ∷ lines) =
    let rest = looked_up lines in
    if is_skipped (trim_space raw) then rest else push_some (parse_line (trim_space raw) 0) rest

abbrev Outcome : Type 0
Outcome = Result HostsError (Unit {0}) × Option Text

abbrev hosts_of_output : Option Text → List KnownHost
hosts_of_output none = []
hosts_of_output (some output) = looked_up (split b'\n' output)

abbrev done : Option Text × Option Text → Outcome
done (none, file) = (err command_failed, file)
done (some output, file) = (ok tt, file)

abbrev append_text : Write → Option Text → Text → Option Text
append_text complete none text = some text
append_text complete (some old) text = some (old ++ text)
append_text (broken left) file text = left

-- a standard port is not shown
unfoldable pub host_entry : Text → ℕ → Text
host_entry hostname port =
    if not (port == 0) && not (port == 22)
    then b'[' ∷ (hostname ++ (b']' ∷ b':' ∷ itoa port))
    else hostname

abbrev pub host_line : Text → Text → Text → Text
host_line entry key_type public_key = entry ++ (b' ' ∷ (key_type ++ (b' ' ∷ public_key)))

abbrev last_or : KnownHost → List KnownHost → KnownHost
last_or h [] = h
last_or h (x ∷ xs) = last_or x xs

abbrev answer : Result HostsError (List KnownHost) → KnownHost → KnownHost
answer (err e) h = h
answer (ok hosts) h = last_or h hosts

abbrev second_field : List Text → Text
second_field [] = []
second_field (f ∷ []) = []
second_field (f ∷ g ∷ fs) = g

abbrev fingerprint_of_output : Option Text → Text
fingerprint_of_output none = []
fingerprint_of_output (some output) = second_field (fields output)

module _ (e : Executor) (path : Text) where
  pub lookup : Text → Option Text → List KnownHost
  unfolding looked_up
  lookup hostname file =
      hosts_of_output
        (e.run (codes "ssh-keygen") (codes "-F" ∷ hostname ∷ codes "-f" ∷ path ∷ []) file).0

  pub remove : Text → Option Text → Outcome
  remove hostname file =
      done (e.run (codes "ssh-keygen") (codes "-R" ∷ hostname ∷ codes "-f" ∷ path ∷ []) file)

  pub hash : Option Text → Outcome
  hash file = done (e.run (codes "ssh-keygen") (codes "-H" ∷ codes "-f" ∷ path ∷ []) file)

  -- `calculateFingerprint`; its errors leave the fingerprint empty
  unfoldable pub calculate_fingerprint : Disk → Text → Text
  calculate_fingerprint d line =
      if d.temp_succeeds
      then fingerprint_of_output
          (e.run (codes "ssh-keygen") (codes "-l" ∷ codes "-f" ∷ d.temp_path ∷ [])
            (some (line ++ b'\n' ∷ []))).0
      else []

  abbrev scanned_key : Disk → ℕ → Text → List Text → Option ScannedKey
  scanned_key d port line [] = none
  scanned_key d port line (h ∷ []) = none
  scanned_key d port line (h ∷ t ∷ []) = none
  scanned_key d port line (h ∷ t ∷ key ∷ rest) = some (record {
    hostname = h;
    port = port;
    key_type = t;
    public_key = key;
    fingerprint = calculate_fingerprint d line;
  })

  unfoldable pub scanned_keys : Disk → ℕ → List Text → List ScannedKey
  unfolding calculate_fingerprint
  scanned_keys d port [] = []
  scanned_keys d port (raw ∷ lines) =
      let rest = scanned_keys d port lines in
      if is_skipped (trim_space raw)
      then rest
      else push_some (scanned_key d port (trim_space raw) (fields (trim_space raw))) rest

  abbrev keys_of_output : Disk → ℕ → Option Text → Result HostsError (List ScannedKey)
  keys_of_output d port none = err command_failed
  keys_of_output d port (some output) = ok (scanned_keys d port (split b'\n' output))

  abbrev or_default : ℕ → ℕ → ℕ
  or_default default n = if n == 0 then default else n

  pub scan_host_keys : Disk → Text → ℕ → ℕ → Result HostsError (List ScannedKey)
  unfolding scanned_keys
  scan_host_keys d hostname port timeout_secs =
      let p = or_default 22 port in
      keys_of_output d p
        (e.run (codes "ssh-keyscan")
          (codes "-T"
            ∷ itoa (or_default 10 timeout_secs)
            ∷ ((if p == 22 then [] else codes "-p" ∷ itoa p ∷ []) ++ hostname ∷ []))
          none).0

  -- the line for the file: hashed in a temporary file, or as it is
  abbrev hashed_line : Option Text × Option Text → Result HostsError Text
  hashed_line (none, file) = err hash_failed
  hashed_line (some output, none) = err temp_failed
  hashed_line (some output, some text) = ok text

  unfoldable pub line_to_add : Disk → Bool → Text → Result HostsError Text
  line_to_add d hashing line =
      if not hashing
      then ok line
      else if not d.temp_succeeds
      then err temp_failed
      else hashed_line
          (e.run (codes "ssh-keygen") (codes "-H" ∷ codes "-f" ∷ d.temp_path ∷ []) (some line))

  abbrev Added : Type 0
  Added = Result HostsError KnownHost × Option Text

  abbrev answer_write : Disk → Write → Option Text → KnownHost → Added
  answer_write d complete file h = (ok (answer (list d file) h), file)
  answer_write d (broken left) file h = (err write_failed, file)

  abbrev append_line : Disk → Result HostsError Text → KnownHost → Option Text → Added
  append_line d (err x) h file = (err x, file)
  append_line d (ok line) h file =
      if not d.mkdir_succeeds
      then (err mkdir_failed, file)
      else if not d.openable
      then (err open_failed, file)
      else answer_write d d.file_write (append_text d.file_write file line) h

  -- It answers the last entry of the file, or one of its own where there is none.
  pub add : Disk → Text → ℕ → Text → Text → Bool → Option Text → Added
  unfolding list line_to_add host_entry
  add d hostname port key_type public_key hashing file =
      let entry = host_entry hostname port in
      append_line d (line_to_add d hashing (host_line entry key_type public_key ++ b'\n' ∷ []))
        (record {
          id = [];
          hostnames = entry ∷ [];
          key_type = key_type;
          fingerprint = [];
          public_key = public_key;
          is_hashed = hashing;
          is_revoked = false;
          is_cert_auth = false;
          line_number = 0;
        })
        file
