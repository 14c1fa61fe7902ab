-- ===== src/HostKeys/Testing.antt =====
-- skeys-core/remote/connection.go: TestConnection, which checks the key of a host before it connects.
use skeys.Prelude.{
  ℕ, Bool, true, false, not, ◌&&◌, ◌||◌, Option, none, some, List, [], ◌∷◌, ◌++◌, ◌==◌, nat_eq,
  Result, ok, err, ◌>>=◌, if◌then◌else◌,
}
use skeys.Text.{Text, text_eq, codes}
use skeys.Text.Decimal.{itoa}
use skeys.Text.Strings.{contains, trim_space}
use skeys.Pool.{ConnectionConfig, AuthMethod, public_keys, agent_keys}
use skeys.HostKeys.Messages.{
  Message, verifier_failed, check_failed, host_changed, host_unknown, key_not_added, key_unparsable,
  key_file_unread, passphrase_needed, no_auth_methods, callback_failed, TestResult, Dialled, failed,
  dialled, friendly_error, greeting_of,
}
use skeys.HostKeys.{
  HostKeyStatus, unspecified, verified, unknown, mismatch, added, HostKeyInfo, HostKeyError,
  Library, Disk, Network, Callback, or_22, check_host_key, add_host_key, create_host_key_callback,
}

unfoldable pub is_passphrase_error : Text → Bool
unfolding contains
is_passphrase_error msg =
    contains msg (codes "this private key is passphrase protected")
    || contains msg (codes "decryption password")

abbrev pub is_empty : {S : Type 0} → List (AuthMethod S) → Bool
is_empty [] = true
is_empty (m ∷ ms) = false

abbrev pub address_of : ConnectionConfig → Text
address_of cfg = cfg.host ++ b':' ∷ itoa cfg.port

abbrev pub with_defaults : ConnectionConfig → ConnectionConfig
with_defaults cfg = record cfg {
  port = or_22 cfg.port;
  timeout = if cfg.timeout == 0 then 10000000000 else cfg.timeout;
}

module _ (l : Library) where
  abbrev pub Methods : Type 0
  Methods = List (AuthMethod l.Signer)

  pub record World : Type 0 where
    pub disk : Disk
    pub network : Network l
    pub agent_answers : Text → Bool
    -- `ssh.Dial` to an address as a user, with the methods, the check of the host key and a timeout
    pub dial : Text → Text → Methods → Callback l → ℕ → Dialled
    pub latency : ℕ

  -- the methods, and whether a key has needed a passphrase
  abbrev pub add_signer : Result Text l.Signer → Methods × Bool → Result Message (Methods × Bool)
  add_signer (ok signer) (methods, needs) = ok (methods ++ public_keys signer ∷ [], needs)
  add_signer (err msg) (methods, needs) =
      if is_passphrase_error msg then ok (methods, true) else err key_unparsable

  abbrev pub parse_key : Text → Text → Result Text l.Signer
  parse_key key passphrase =
      if not (passphrase == [])
      then l.parse_with_passphrase key passphrase
      else l.parse_private_key key

  abbrev pub add_private_key : ConnectionConfig → Methods × Bool → Result Message (Methods × Bool)
  add_private_key cfg ms =
      if not (cfg.private_key == [])
      then add_signer (parse_key cfg.private_key cfg.passphrase) ms
      else ok ms

  abbrev pub add_file : Text → Option Text → Methods × Bool → Result Message (Methods × Bool)
  add_file passphrase none ms = err key_file_unread
  add_file passphrase (some key) ms = add_signer (parse_key key passphrase) ms

  abbrev pub add_key_file :
      Disk → ConnectionConfig → Methods × Bool → Result Message (Methods × Bool)
  add_key_file d cfg ms =
      if not (cfg.private_key_path == [])
      then add_file cfg.passphrase (d.read_file cfg.private_key_path) ms
      else ok ms

  abbrev pub add_agent : World → ConnectionConfig → Methods × Bool → Methods
  add_agent w cfg (methods, needs) =
      if not (cfg.agent_socket == [])
        && (is_empty methods || needs)
        && w.agent_answers cfg.agent_socket
      then methods ++ agent_keys ∷ []
      else methods

  unfoldable pub auth_methods : World → ConnectionConfig → Result Message (Methods × Bool)
  unfolding is_passphrase_error
  auth_methods w cfg = do
    direct ← add_private_key cfg ([], false)
    both ← add_key_file w.disk cfg direct
    ok (add_agent w cfg both, both.1)

  abbrev pub dial_checked :
      World
      → ConnectionConfig
      → Methods
      → HostKeyStatus
      → Option HostKeyInfo
      → Result HostKeyError (Callback l)
      → TestResult
  dial_checked w cfg methods status info (err e) = failed callback_failed 0 status info
  dial_checked w cfg methods status info (ok callback) =
      dialled w.latency status info (w.dial (address_of cfg) cfg.user methods callback cfg.timeout)

  abbrev pub connect_with :
      World
      → ConnectionConfig
      → HostKeyStatus
      → Option HostKeyInfo
      → Option Text
      → Result Message (Methods × Bool)
      → TestResult
  connect_with w cfg status info file (err m) = failed m 0 status info
  connect_with w cfg status info file (ok ([], needs)) =
      failed (if needs then passphrase_needed else no_auth_methods) 0 status info
  connect_with w cfg status info file (ok (m ∷ methods, needs)) =
      dial_checked w cfg (m ∷ methods) status info (create_host_key_callback l w.disk false file)

  abbrev pub connect :
      World → ConnectionConfig → HostKeyStatus → Option HostKeyInfo → Option Text → TestResult
  connect w cfg status info file = connect_with w cfg status info file (auth_methods w cfg)

  abbrev pub connect_added :
      World
      → ConnectionConfig
      → HostKeyInfo
      → Result HostKeyError (Unit {0}) × Option Text
      → TestResult × Option Text
  connect_added w cfg info (err e, file) = (failed key_not_added 0 unspecified none, file)
  connect_added w cfg info (ok u, file) = (connect w cfg added (some info) file, file)

  -- Of a host without known_hosts there is no key to add.
  abbrev pub trust :
      World → ConnectionConfig → Option HostKeyInfo → Option Text → TestResult × Option Text
  trust w cfg none file = (connect w cfg unknown none file, file)
  trust w cfg (some info) file =
      connect_added w cfg info (add_host_key l w.disk cfg.host cfg.port info.public_key file)

  abbrev pub go_on :
      World
      → ConnectionConfig
      → Option Text
      → HostKeyStatus
      → Option HostKeyInfo
      → TestResult × Option Text
  go_on w cfg file mismatch info = (failed host_changed 0 mismatch info, file)
  go_on w cfg file unknown info =
      if cfg.trust_host_key
      then trust w cfg info file
      else (failed host_unknown 0 unknown info, file)
  go_on w cfg file verified info = (connect w cfg verified info file, file)
  go_on w cfg file added info = (connect w cfg added info file, file)
  go_on w cfg file unspecified info = (connect w cfg unspecified info file, file)

  abbrev pub after_check :
      World
      → ConnectionConfig
      → Option Text
      → Result HostKeyError (HostKeyStatus × Option HostKeyInfo)
      → TestResult × Option Text
  after_check w cfg file (err e) = (failed check_failed 0 unspecified none, file)
  after_check w cfg file (ok (status, info)) = go_on w cfg file status info

  abbrev pub from_home :
      World → ConnectionConfig → Option Text → Option Text → TestResult × Option Text
  from_home w cfg file none = (failed verifier_failed 0 unspecified none, file)
  from_home w cfg file (some home) =
      after_check w cfg file (check_host_key l w.disk w.network cfg.host cfg.port file)

  unfoldable pub test_connection : World → ConnectionConfig → Option Text → TestResult × Option Text
  unfolding auth_methods check_host_key add_host_key create_host_key_callback friendly_error
      greeting_of itoa trim_space
  test_connection w cfg file = from_home w (with_defaults cfg) file w.disk.home
