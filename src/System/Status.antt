-- ===== src/System/Status.antt =====
-- skeys-core/system/service.go: what is said of the client, the server and the whole machine.
use skeys.Prelude.{
  ℕ, nat_eq, Bool, true, false, Option, none, some, List, [], ◌∷◌, ◌++◌, ◌==◌, take, if◌then◌else◌,
}
use skeys.Text.{Text, text_eq, codes}
use skeys.Text.Strings.{has_prefix, trim_prefix, trim_space, index, scan_lines}
use skeys.Text.Paths.{join_path}
use skeys.Host.{Host, is_present, is_some}
use skeys.Discovery.Distribution.{trim_quotes}
use skeys.System.Commands.{Shell}
use skeys.System.Service.{ServiceStatus, get_ssh_service_status}
use skeys.System.Network.{Machine, NetworkInfo, FirewallStatus, get_network_info}
use skeys.System.Firewall.{get_firewall_status}

pub record ConfigPathInfo : Type 0 where
  pub path : Text
  pub exists : Bool
  pub readable : Bool
  pub writable : Bool
  pub include_dir : Text

pub record SshClientStatus : Type 0 where
  pub installed : Bool
  pub version : Text
  pub binary_path : Text
  pub system_config : ConfigPathInfo
  pub user_config : ConfigPathInfo

pub record SshServerStatus : Type 0 where
  pub installed : Bool
  pub version : Text
  pub binary_path : Text
  pub service : ServiceStatus
  pub config : ConfigPathInfo

pub record SshStatus : Type 0 where
  pub distribution : Text
  pub distribution_version : Text
  pub client : SshClientStatus
  pub server : SshServerStatus
  pub network : NetworkInfo
  pub firewall : FirewallStatus

abbrev pub info_at : Text → ConfigPathInfo
info_at path = record {
  path = path;
  exists = false;
  readable = false;
  writable = false;
  include_dir = [];
}

-- the last ID and the last VERSION_ID of the lines
unfoldable pub read_release : List Text → Text × Text → Text × Text
unfolding has_prefix trim_prefix trim_quotes
read_release [] found = found
read_release (line ∷ lines) (distro, version) = read_release lines (
    if has_prefix line (codes "ID=")
    then (trim_quotes (trim_prefix line (codes "ID=")), version)
    else if has_prefix line (codes "VERSION_ID=")
    then (distro, trim_quotes (trim_prefix line (codes "VERSION_ID=")))
    else (distro, version))

abbrev pub release_of : Option Text → Text × Text
release_of none = (codes "unknown", [])
release_of (some text) = read_release (scan_lines text).0 (codes "unknown", [])

-- the text before the first comma, if it is not at the start
abbrev pub before_comma : Option ℕ → Text → Text
before_comma none output = trim_space output
before_comma (some i) output = if i == 0 then trim_space output else trim_space (take i output)

module _ (h : Host) where
  unfoldable pub get_distribution_info : Text × Text
  unfolding read_release scan_lines
  get_distribution_info = release_of (h.open_file (codes "/etc/os-release"))

  -- of ssh and of sshd
  unfoldable pub get_version : Text → Text
  unfolding index trim_space
  get_version path =
      let output = (h.run path (codes "-V" ∷ [])).stderr in
      before_comma (index output (codes ",")) output

  unfoldable pub check_config_path : Text → ConfigPathInfo
  check_config_path path =
      if is_present (h.stat path)
      then record {
        path = path;
        exists = true;
        readable = is_some (h.open_file path);
        writable = h.appends path;
        include_dir = if is_present (h.stat (path ++ codes ".d")) then path ++ codes ".d" else [];
      }
      else info_at path

  abbrev pub user_config_of : Option Text → ConfigPathInfo
  user_config_of none = info_at []
  user_config_of (some home) =
      check_config_path (join_path (join_path home (codes ".ssh")) (codes "config"))

  abbrev pub client_status : Option Text → SshClientStatus
  client_status none = record {
    installed = false;
    version = [];
    binary_path = [];
    system_config = check_config_path (codes "/etc/ssh/ssh_config");
    user_config = user_config_of h.home;
  }
  client_status (some path) = record {
    installed = true;
    version = get_version path;
    binary_path = path;
    system_config = check_config_path (codes "/etc/ssh/ssh_config");
    user_config = user_config_of h.home;
  }

  unfoldable pub get_ssh_client_status : SshClientStatus
  unfolding check_config_path get_version join_path
  get_ssh_client_status = client_status (h.look_path (codes "ssh"))

  abbrev pub server_status : ServiceStatus → Option Text → SshServerStatus
  server_status service none = record {
    installed = false;
    version = [];
    binary_path = [];
    service = service;
    config = check_config_path (codes "/etc/ssh/sshd_config");
  }
  server_status service (some path) = record {
    installed = true;
    version = get_version path;
    binary_path = path;
    service = service;
    config = check_config_path (codes "/etc/ssh/sshd_config");
  }

  -- the commands on the service, on a machine that stays as it is
  abbrev pub shell : Shell
  shell done c = h.run c.name c.args

  unfoldable pub get_ssh_server_status : (Text → Option ℕ) → SshServerStatus
  unfolding check_config_path get_version get_ssh_service_status
  get_ssh_server_status parse_time =
      server_status (get_ssh_service_status parse_time shell []).0 (h.look_path (codes "sshd"))

unfoldable pub get_ssh_status : (Text → Option ℕ) → Machine → SshStatus
unfolding get_distribution_info get_ssh_client_status get_ssh_server_status get_network_info
    get_firewall_status
get_ssh_status parse_time m = record {
  distribution = (get_distribution_info m.host).0;
  distribution_version = (get_distribution_info m.host).1;
  client = get_ssh_client_status m.host;
  server = get_ssh_server_status m.host parse_time;
  network = get_network_info m;
  firewall = get_firewall_status m.host;
}
