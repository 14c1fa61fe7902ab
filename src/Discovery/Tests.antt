-- ===== src/Discovery/Tests.antt =====
-- skeys-core/config/discovery.go: runs on a machine of Debian with sshd, without a configuration of ssh.
use skeys.Prelude.{◌≡◌, refl, false, ◌||◌, none, some, [], ◌∷◌, ◌++◌, ◌==◌, if◌then◌else◌}
use skeys.Text.{Text, text_eq, codes}
use skeys.Host.{Host, present, missing}
use skeys.Text.Strings.{has_prefix}
use skeys.Discovery.Distribution.{detect_distribution}
use skeys.Discovery.Packages.{get_server_config_from_package_manager}
use skeys.Discovery.Paths.{discover}
use skeys.Discovery.Consistent.{IsTruthful, discover-IsTruthful}

abbrev server_path : Text
server_path = codes "/etc/ssh/sshd_config"

abbrev listing : Text
listing = codes "/etc/ssh" ++ b'\n' ∷ codes "/usr/share/openssh/sshd_config" ++ b'\n' ∷ []

abbrev machine : Host
machine = record {
  stat = λ p. if p == server_path || p == server_path ++ codes ".d" then present else missing;
  open_file = λ p.
      if p == server_path
      then some []
      else if p == codes "/etc/os-release"
      then some (codes "NAME=Debian\nID=\"debian\"\n")
      else none;
  appends = λ p. false;
  home = some (codes "/home/ann");
  look_path = λ c. if c == codes "sshd" || c == codes "dpkg" then some c else none;
  run = λ c args. record {
    succeeds = c == codes "dpkg";
    stdout = if c == codes "dpkg" then listing else [];
    stderr = [];
    failure = [];
  };
  visit = λ m. m;
}

distribution_of_machine : detect_distribution machine ≡ codes "debian"
unfolding detect_distribution
distribution_of_machine = refl

default_of_package : get_server_config_from_package_manager machine ≡ server_path
unfolding get_server_config_from_package_manager has_prefix
default_of_package = refl

discover-IsTruthful_example :
    IsTruthful machine (discover machine).client_user_config
    × (IsTruthful machine (discover machine).client_system_config
        × IsTruthful machine (discover machine).server_config)
discover-IsTruthful_example = discover-IsTruthful machine refl
