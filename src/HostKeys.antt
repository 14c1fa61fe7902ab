-- ===== src/HostKeys.antt =====
-- skeys-core/remote/hostkey.go: the keys of hosts against the file ~/.ssh/known_hosts, `none` where it does
-- not exist. The packages golang.org/x/crypto/ssh and knownhosts, and the network, are parameters.
pub mod Messages
pub mod Testing
pub mod Trusted
pub mod Refusing
mod Tests
use skeys.Prelude.{
  ℕ, Bool, true, false, not, Option, none, some, List, [], ◌∷◌, ◌++◌, ◌==◌, nat_eq, Result, ok, err,
  if◌then◌else◌,
}
use skeys.Text.{Text, codes}
use skeys.Text.Decimal.{itoa}
use skeys.Text.Strings.{contains}
use skeys.Files.{Write, complete, broken}

pub data HostKeyStatus : Type 0 where
  unspecified verified unknown mismatch added : HostKeyStatus

pub record HostKeyInfo : Type 0 where
  pub hostname : Text
  pub port : ℕ
  pub key_type : Text
  pub fingerprint : Text
  pub public_key : Text

pub data HostKeyError : Type 0 where
  no_home known_hosts_unparsable scan_failed unexpected_error bad_public_key mkdir_failed
        open_failed write_failed :
      HostKeyError

-- No error, a KeyError that wants no key, one that wants others, or another error.
pub data Verdict : Type 0 where
  accepts wants_none wants_others fails : Verdict

pub record Library : Type 1 where
  pub Key : Type 0
  pub Signer : Type 0
  pub key_type : Key → Text
  -- `Marshal` in base64, and base64 read by `ssh.ParsePublicKey`
  pub print_key : Key → Text
  pub read_key : Text → Option Key
  -- the SHA-256 of `Marshal` in base64
  pub digest : Key → Text
  -- `knownhosts.New` on a text: the answer for a host with its port, a remote address and a key
  pub read_known_hosts : Text → Option (Text → Text → Key → Verdict)
  -- `knownhosts.Line`
  pub line : Text → Key → Text
  -- `ssh.ParsePrivateKey`, and `ParsePrivateKeyWithPassphrase` with the passphrase second
  pub parse_private_key : Text → Result Text Signer
  pub parse_with_passphrase : Text → Text → Result Text Signer

-- what the disk does, besides the text of known_hosts
pub record Disk : Type 0 where
  pub home : Option Text
  pub readable : Bool
  pub mkdir_succeeds : Bool
  pub openable : Bool
  -- what `WriteString` appends where it fails
  pub append : Write
  pub read_file : Text → Option Text

abbrev pub or_22 : ℕ → ℕ
or_22 port = if port == 0 then 22 else port

-- `net.JoinHostPort`
abbrev pub join_host_port : Text → ℕ → Text
join_host_port host port =
    if contains host (codes ":")
    then codes "[" ++ (host ++ (codes "]:" ++ itoa port))
    else host ++ b':' ∷ itoa port

abbrev pub known_name : Text → ℕ → Text
known_name host port =
    if not (port == 22) then codes "[" ++ (host ++ (codes "]:" ++ itoa port)) else host

abbrev pub text_or_empty : Option Text → Text
text_or_empty none = []
text_or_empty (some text) = text

abbrev pub appended : Write → Option Text → Text → Option Text
appended complete file s = some (text_or_empty file ++ s)
appended (broken left) file s = some (text_or_empty file ++ text_or_empty left)

module _ (l : Library) where
  abbrev pub Callback : Type 0
  Callback = Text → Text → l.Key → Verdict

  -- the key that a server shows at an address, and how `net.ParseIP` prints a host
  pub record Network : Type 0 where
    pub shown_key : Text → Option l.Key
    pub parse_ip : Text → Option Text

  abbrev pub parsed_file : Disk → Text → Option Callback
  parsed_file d text = if d.readable then l.read_known_hosts text else none

  abbrev pub info_of : Text → ℕ → l.Key → HostKeyInfo
  info_of host port key = record {
    hostname = host;
    port = port;
    key_type = l.key_type key;
    fingerprint = codes "SHA256:" ++ l.digest key;
    public_key = l.print_key key;
  }

  abbrev pub remote_address : Option Text → ℕ → Text
  remote_address none port = join_host_port (codes "127.0.0.1") port
  remote_address (some ip) port = join_host_port ip port

  abbrev pub status_for :
      Verdict → Option HostKeyInfo → Result HostKeyError (HostKeyStatus × Option HostKeyInfo)
  status_for accepts info = ok (verified, info)
  status_for wants_none info = ok (unknown, info)
  status_for wants_others info = ok (mismatch, info)
  status_for fails info = err unexpected_error

  abbrev pub check_shown :
      Network
      → Text
      → ℕ
      → Callback
      → Option l.Key
      → Result HostKeyError (HostKeyStatus × Option HostKeyInfo)
  check_shown n host port callback none = err scan_failed
  check_shown n host port callback (some key) =
      status_for (callback (join_host_port host port) (remote_address (n.parse_ip host) port) key)
        (some (info_of host port key))

  -- The key is taken from a handshake that is then aborted.
  abbrev pub scan_host_key : Network → Text → ℕ → Option l.Key
  scan_host_key n host port = n.shown_key (join_host_port host port)

  abbrev pub check_against :
      Network
      → Text
      → ℕ
      → Option Callback
      → Result HostKeyError (HostKeyStatus × Option HostKeyInfo)
  check_against n host port none = err known_hosts_unparsable
  check_against n host port (some callback) =
      check_shown n host port callback (scan_host_key n host port)

  unfoldable pub check_host_key :
      Disk
      → Network
      → Text
      → ℕ
      → Option Text
      → Result HostKeyError (HostKeyStatus × Option HostKeyInfo)
  unfolding contains itoa
  check_host_key d n host port none = ok (unknown, none)
  check_host_key d n host port (some text) = check_against n host (or_22 port) (parsed_file d text)

  -- The line is appended as it is, also to a text whose last line has no end.
  abbrev pub add_line : Disk → Text → Option Text → Result HostKeyError (Unit {0}) × Option Text
  add_line d line file =
      if not d.mkdir_succeeds
      then (err mkdir_failed, file)
      else if not d.openable
      then (err open_failed, file)
      else (
        (elim d.append [ complete ↦ ok tt | broken left ↦ err write_failed ]),
        appended d.append file (line ++ b'\n' ∷ []),
      )

  abbrev pub add_key :
      Disk → Text → ℕ → Option l.Key → Option Text → Result HostKeyError (Unit {0}) × Option Text
  add_key d host port none file = (err bad_public_key, file)
  add_key d host port (some key) file = add_line d (l.line (known_name host port) key) file

  unfoldable pub add_host_key :
      Disk → Text → ℕ → Text → Option Text → Result HostKeyError (Unit {0}) × Option Text
  unfolding itoa
  add_host_key d host port public_key file =
      add_key d host (or_22 port) (l.read_key public_key) file

  abbrev pub trusting : Verdict → Verdict
  trusting wants_none = accepts
  trusting accepts = accepts
  trusting wants_others = wants_others
  trusting fails = fails

  abbrev pub callback_of : Bool → Option Callback → Result HostKeyError Callback
  callback_of trust none = err known_hosts_unparsable
  callback_of true (some callback) = ok (λ host remote key. trusting (callback host remote key))
  callback_of false (some callback) = ok callback

  unfoldable pub create_host_key_callback : Disk → Bool → Option Text → Result HostKeyError Callback
  create_host_key_callback d trust none =
      ok (λ host remote key. if trust then accepts else wants_none)
  create_host_key_callback d trust (some text) = callback_of trust (parsed_file d text)
