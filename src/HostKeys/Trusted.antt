-- ===== src/HostKeys/Trusted.antt =====
-- skeys-core/remote/connection.go and hostkey.go: a connection test only succeeds with a key of the file.
use skeys.Prelude.{
  ℕ, ◌≡◌, refl, Bool, true, false, Option, none, some, [], ◌∷◌, Result, ok, err, if◌then◌else◌,
}
use skeys.Text.{Text}
use skeys.Pool.{ConnectionConfig}
use skeys.HostKeys.{
  HostKeyStatus, unspecified, verified, unknown, mismatch, added, HostKeyInfo, HostKeyError,
  Library, Disk, Callback, accepts, wants_none, parsed_file, callback_of, create_host_key_callback,
  check_host_key,
}
use skeys.HostKeys.Messages.{TestResult, Dialled, refused, connected, Message, dialled}
use skeys.HostKeys.Testing.{
  World, Methods, dial_checked, connect_with, connect, connect_added, trust, go_on, after_check,
  from_home, with_defaults, address_of, auth_methods, test_connection,
}

module _ (l : Library) where
  -- A key that the check accepts, at some remote address.
  pub record IsShown (callback : Callback l) (address : Text) : Type 0 where
    pub remote : Text
    pub key : l.Key
    pub accepted : callback address remote key ≡ accepts

  -- `ssh.Dial` aborts the handshake unless the check accepts the key that the server shows.
  abbrev pub IsChecking : World l → Type 0
  IsChecking w =
      (address user : Text) (methods : Methods l) (callback : Callback l) (timeout : ℕ)
      (version : Text) (greeting : Option Text)
      → w.dial address user methods callback timeout ≡ connected version greeting
      → IsShown callback address

  -- The file can be read and parsed, and accepts a key for the address.
  pub record IsAccepted (d : Disk) (file : Option Text) (address : Text) : Type 0 where
    pub text : Text
    pub callback : Callback l
    pub found : file ≡ some text
    pub parsed : parsed_file l d text ≡ some callback
    pub shown : IsShown callback address

  module _ (w : World l) (checks : IsChecking w) (cfg : ConnectionConfig) where
    abbrev pub Trusts : TestResult × Option Text → Type 0
    Trusts r = r.0.success ≡ true → IsAccepted w.disk r.1 (address_of cfg)

    dialled-connected :
        (latency : ℕ) (status : HostKeyStatus) (info : Option HostKeyInfo) (callback : Callback l)
        (methods : Methods l) (x : Dialled)
        → w.dial (address_of cfg) cfg.user methods callback cfg.timeout ≡ x
        → (dialled latency status info x).success ≡ true
        → IsShown callback (address_of cfg)
    dialled-connected latency status info callback methods (refused msg) e h = absurd (cc h)
    dialled-connected latency status info callback methods (connected version greeting) e h =
        checks (address_of cfg) cfg.user methods callback cfg.timeout version greeting e

    none_accepted :
        {address : Text} → IsShown (λ host remote key. wants_none) address → wants_none ≡ accepts
    none_accepted s = s.accepted

    parsed-Trusts :
        (methods : Methods l) (status : HostKeyStatus) (info : Option HostKeyInfo) (text : Text)
        (o : Option (Callback l))
        → parsed_file l w.disk text ≡ o
        → Trusts (dial_checked l w cfg methods status info (callback_of l false o), some text)
    parsed-Trusts methods status info text none e h = absurd (cc h)
    parsed-Trusts methods status info text (some callback) e h = record {
      text = text;
      callback = callback;
      found = refl;
      parsed = e;
      shown = dialled-connected w.latency status info callback methods _ refl h;
    }

    checked-Trusts :
        (methods : Methods l) (status : HostKeyStatus) (info : Option HostKeyInfo)
        (file : Option Text)
        → Trusts (
          dial_checked l w cfg methods status info (create_host_key_callback l w.disk false file),
          file,
        )
    unfolding create_host_key_callback
    checked-Trusts methods status info none h = absurd (
        cc (
          none_accepted (
            dialled-connected w.latency status info (λ host remote key. wants_none) methods _ refl
              h)))
    checked-Trusts methods status info (some text) h =
        parsed-Trusts methods status info text _ refl h

    connect-Trusts :
        (status : HostKeyStatus) (info : Option HostKeyInfo) (file : Option Text)
        (ms : Result Message (Methods l × Bool))
        → Trusts (connect_with l w cfg status info file ms, file)
    connect-Trusts status info file (err m) h = absurd (cc h)
    connect-Trusts status info file (ok ([], needs)) h = absurd (cc h)
    connect-Trusts status info file (ok (m ∷ methods, needs)) h =
        checked-Trusts (m ∷ methods) status info file h

    connected-Trusts :
        (status : HostKeyStatus) (info : Option HostKeyInfo) (file : Option Text)
        → Trusts (connect l w cfg status info file, file)
    connected-Trusts status info file = connect-Trusts status info file (auth_methods l w cfg)

    added-Trusts :
        (info : HostKeyInfo) (r : Result HostKeyError (Unit {0}) × Option Text)
        → Trusts (connect_added l w cfg info r)
    added-Trusts info (err e, file) h = absurd (cc h)
    added-Trusts info (ok u, file) h = connected-Trusts added (some info) file h

    trust-Trusts :
        (info : Option HostKeyInfo) (file : Option Text) → Trusts (trust l w cfg info file)
    trust-Trusts none file = connected-Trusts unknown none file
    trust-Trusts (some info) file = added-Trusts info _

    branches :
        (b : Bool) (x y : TestResult × Option Text)
        → Trusts x
        → Trusts y
        → Trusts (if b then x else y)
    branches true x y p q = p
    branches false x y p q = q

    go_on-Trusts :
        (file : Option Text) (status : HostKeyStatus) (info : Option HostKeyInfo)
        → Trusts (go_on l w cfg file status info)
    go_on-Trusts file mismatch info h = absurd (cc h)
    go_on-Trusts file unknown info h =
        branches cfg.trust_host_key _ _ (trust-Trusts info file)
          (λ (e : false ≡ true). absurd (cc e)) h
    go_on-Trusts file verified info h = connected-Trusts verified info file h
    go_on-Trusts file added info h = connected-Trusts added info file h
    go_on-Trusts file unspecified info h = connected-Trusts unspecified info file h

    check-Trusts :
        (file : Option Text) (r : Result HostKeyError (HostKeyStatus × Option HostKeyInfo))
        → Trusts (after_check l w cfg file r)
    check-Trusts file (err e) h = absurd (cc h)
    check-Trusts file (ok (status, info)) h = go_on-Trusts file status info h

    pub home-Trusts : (file home : Option Text) → Trusts (from_home l w cfg file home)
    home-Trusts file none h = absurd (cc h)
    home-Trusts file (some home) h =
        check-Trusts file (check_host_key l w.disk w.network cfg.host cfg.port file) h

-- If ssh.Dial aborts unless the check accepts the key of the server, a connection test only succeeds when
-- the file known_hosts, as the test leaves it, can be read and parsed and accepts a key for the address
-- that is dialled, whatever the user has trusted.
pub success-IsAccepted :
    (l : Library) (w : World l) (cfg : ConnectionConfig) (file : Option Text)
    → IsChecking l w
    → (test_connection l w cfg file).0.success ≡ true
    → IsAccepted l w.disk (test_connection l w cfg file).1 (address_of (with_defaults cfg))
unfolding test_connection
success-IsAccepted l w cfg file checks = home-Trusts l w checks (with_defaults cfg) file w.disk.home
