-- ===== src/HostKeys/Tests.antt =====
-- skeys-core/remote/connection.go and hostkey.go: runs with keys that are texts, of which the file accepts
-- those that stand in it.
use skeys.Prelude.{
  ◌≡◌, refl, Bool, true, false, Option, none, some, [], ◌∷◌, ◌++◌, ok, if◌then◌else◌,
}
use skeys.Text.{Text, text_eq, codes}
use skeys.Text.Strings.{contains, has_prefix}
use skeys.Files.{complete}
use skeys.Pool.{ConnectionConfig}
use skeys.HostKeys.{Library, Callback, Verdict, accepts, wants_none, wants_others, fails}
use skeys.HostKeys.Messages.{Dialled, refused, connected}
use skeys.HostKeys.Testing.{World, test_connection, address_of, with_defaults}
use skeys.HostKeys.Refusing.{first_test_fails, untrusted_keeps_file}
use skeys.HostKeys.Trusted.{IsChecking, IsShown, IsAccepted, success-IsAccepted}

abbrev toy : Library
toy = record {
  Key = Text;
  Signer = Text;
  key_type = λ k. codes "ssh-ed25519";
  print_key = λ k. k;
  read_key = λ t. some t;
  digest = λ k. k;
  read_known_hosts =
      λ text. some (λ host remote key. if contains text key then accepts else wants_none);
  line = λ host key. host ++ b' ' ∷ key;
  parse_private_key = λ key. ok key;
  parse_with_passphrase = λ key passphrase. ok key;
}

abbrev server_key : Text
server_key = codes "AAAA"

abbrev answered : Verdict → Dialled
answered accepts = connected (codes "SSH-2.0-OpenSSH") none
answered wants_none = refused (codes "ssh: handshake failed: knownhosts: key is unknown")
answered wants_others = refused (codes "ssh: handshake failed: knownhosts: key mismatch")
answered fails = refused (codes "ssh: handshake failed")

abbrev world : World toy
world = record {
  disk = record {
    home = some (codes "/home/ann");
    readable = true;
    mkdir_succeeds = true;
    openable = true;
    append = complete;
    read_file = λ p. none;
  };
  network = record { shown_key = λ a. some server_key; parse_ip = λ h. none };
  agent_answers = λ s. false;
  dial = λ address user methods callback timeout.
      answered (callback address (codes "192.0.2.1:2222") server_key);
  latency = 12;
}

answered-IsShown :
    (callback : Callback toy) (address version : Text) (greeting : Option Text) (v : Verdict)
    → callback address (codes "192.0.2.1:2222") server_key ≡ v
    → answered v ≡ connected version greeting
    → IsShown toy callback address
answered-IsShown callback address version greeting accepts e h = record {
  remote = codes "192.0.2.1:2222";
  key = server_key;
  accepted = e;
}
answered-IsShown callback address version greeting wants_none e h = absurd (cc h)
answered-IsShown callback address version greeting wants_others e h = absurd (cc h)
answered-IsShown callback address version greeting fails e h = absurd (cc h)

world-IsChecking : IsChecking toy world
world-IsChecking address user methods callback timeout version greeting =
    answered-IsShown callback address version greeting
      (callback address (codes "192.0.2.1:2222") server_key) refl

abbrev config_with : Bool → ConnectionConfig
config_with trusted = record {
  host = codes "h.example";
  port = 2222;
  user = codes "ann";
  private_key = codes "key";
  private_key_path = [];
  passphrase = [];
  timeout = 0;
  agent_socket = [];
  key_fingerprint = [];
  trust_host_key = trusted;
}

trusted_host_is_added :
    (test_connection toy world (config_with true) (some [])).1
    ≡ some (codes "[h.example]:2222 AAAA\n")
unfolding test_connection has_prefix
trusted_host_is_added = refl

success-IsAccepted_example :
    IsAccepted toy world.disk
      (test_connection toy world (config_with true) (some [])).1
      (address_of (with_defaults (config_with true)))
unfolding test_connection has_prefix
success-IsAccepted_example =
    success-IsAccepted toy world (config_with true) (some []) world-IsChecking refl

first_test_fails_example :
    ((test_connection toy world (config_with true) none).0.success ≡ false)
    × ((test_connection toy world (config_with true) none).1 ≡ none)
first_test_fails_example = first_test_fails toy world (config_with true) world-IsChecking

untrusted_keeps_file_example :
    (test_connection toy world (config_with false) (some (codes "other BBBB"))).1
    ≡ some (codes "other BBBB")
untrusted_keeps_file_example =
    untrusted_keeps_file toy world (config_with false) (some (codes "other BBBB")) refl
