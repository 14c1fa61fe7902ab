-- ===== src/HostKeys/Refusing.antt =====
-- skeys-core/remote/connection.go: the connection tests that fail, or leave known_hosts as it is.
use skeys.Prelude.{◌≡◌, refl, Bool, true, false, Option, none, some, Result, ok, err, if◌then◌else◌}
use skeys.Text.{Text}
use skeys.Pool.{ConnectionConfig}
use skeys.HostKeys.{
  HostKeyStatus, unspecified, verified, unknown, mismatch, added, HostKeyInfo, HostKeyError,
  Library, Disk, check_host_key,
}
use skeys.HostKeys.Messages.{TestResult, failed, host_unknown}
use skeys.HostKeys.Testing.{
  World, trust, go_on, after_check, from_home, with_defaults, address_of, test_connection,
}
use skeys.HostKeys.Trusted.{IsChecking, IsAccepted, home-Trusts}

-- the result on a machine without the file, where there is no key that could be added
without_file :
    (l : Library) (w : World l) (cfg : ConnectionConfig) (home : Option Text)
    → (from_home l w cfg none home).1 ≡ none
unfolding check_host_key
without_file l w cfg none = refl
without_file l w cfg (some home) = kept cfg.trust_host_key
  where
    kept :
        (b : Bool)
        → (if b then trust l w cfg none none else (failed host_unknown 0 unknown none, none)).1
          ≡ none
    kept true = refl
    kept false = refl

not_there :
    (l : Library) (d : Disk) (b : Bool) (file : Option Text) (address : Text)
    → file ≡ none
    → (b ≡ true → IsAccepted l d file address)
    → b ≡ false
not_there l d true file address e f = absurd (cc ((f refl).found, e))
not_there l d false file address e f = refl

-- If ssh.Dial aborts unless the check accepts the key of the server, no connection test succeeds on a
-- machine without the file known_hosts, and none creates it, also where the user trusts the host.
pub first_test_fails :
    (l : Library) (w : World l) (cfg : ConnectionConfig)
    → IsChecking l w
    → ((test_connection l w cfg none).0.success ≡ false) × ((test_connection l w cfg none).1 ≡ none)
unfolding test_connection
first_test_fails l w cfg checks = (
  not_there l w.disk _ _ (address_of (with_defaults cfg))
      (without_file l w (with_defaults cfg) w.disk.home)
      (home-Trusts l w checks (with_defaults cfg) none w.disk.home),
  without_file l w (with_defaults cfg) w.disk.home,
)

-- A connection test with a host that the user has not trusted leaves the file known_hosts as it is.
pub untrusted_keeps_file :
    (l : Library) (w : World l) (cfg : ConnectionConfig) (file : Option Text)
    → cfg.trust_host_key ≡ false
    → (test_connection l w cfg file).1 ≡ file
unfolding test_connection
untrusted_keeps_file l w cfg file h = from_home_keeps w.disk.home
  where
    kept :
        (b : Bool) (r s : TestResult × Option Text)
        → b ≡ false
        → s.1 ≡ file
        → (if b then r else s).1 ≡ file
    kept true r s e k = absurd (cc e)
    kept false r s e k = k

    decided :
        (status : HostKeyStatus) (info : Option HostKeyInfo)
        → (go_on l w (with_defaults cfg) file status info).1 ≡ file
    decided mismatch info = refl
    decided unknown info = kept cfg.trust_host_key _ _ h refl
    decided verified info = refl
    decided added info = refl
    decided unspecified info = refl

    checked :
        (r : Result HostKeyError (HostKeyStatus × Option HostKeyInfo))
        → (after_check l w (with_defaults cfg) file r).1 ≡ file
    checked (err e) = refl
    checked (ok (status, info)) = decided status info

    from_home_keeps : (home : Option Text) → (from_home l w (with_defaults cfg) file home).1 ≡ file
    from_home_keeps none = refl
    from_home_keeps (some home) =
        checked
          (check_host_key l w.disk w.network (with_defaults cfg).host (with_defaults cfg).port file)
