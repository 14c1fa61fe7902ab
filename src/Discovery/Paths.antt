-- ===== src/Discovery/Paths.antt =====
-- skeys-core/config/discovery.go: what is told of the paths of the configurations.
use skeys.Prelude.{
  Bool, nat_eq, true, false, Option, none, some, List, [], ◌∷◌, ◌++◌, if◌then◌else◌,
}
use skeys.Text.{Text, text_eq, codes}
use skeys.Text.Paths.{join_path}
use skeys.Host.{Host, Stat, present, missing, denied, is_present, is_some, is_command_available}
use skeys.Discovery.Distribution.{detect_distribution}
use skeys.Discovery.Packages.{
  get_client_config_from_command, get_server_config_from_command,
  get_client_config_from_package_manager, get_server_config_from_package_manager,
}

pub data DiscoveryMethod : Type 0 where
  unspecified command package_manager common_path user_specified : DiscoveryMethod

pub record ConfigPathInfo : Type 0 where
  pub path : Text
  pub exists : Bool
  pub readable : Bool
  pub writable : Bool
  pub include_dir : Text
  pub discovery_method : DiscoveryMethod

pub record DiscoveredPaths : Type 0 where
  pub client_system_config : ConfigPathInfo
  pub client_user_config : ConfigPathInfo
  pub server_config : ConfigPathInfo
  pub distribution : Text
  pub ssh_client_installed : Bool
  pub ssh_server_installed : Bool

abbrev pub no_info : ConfigPathInfo
no_info = record {
  path = [];
  exists = false;
  readable = false;
  writable = false;
  include_dir = [];
  discovery_method = unspecified;
}

abbrev is_missing : Stat → Bool
is_missing present = false
is_missing missing = true
is_missing denied = false

module _ (h : Host) where
  unfoldable pub check_path : Text → ConfigPathInfo
  check_path path =
      if is_present (h.stat path)
      then record no_info {
        path = path;
        exists = true;
        readable = is_some (h.open_file path);
        writable = h.appends path;
      }
      else record no_info { path = path }

  -- An include directory is kept unless it is missing.
  abbrev pub with_include : Text → DiscoveryMethod → ConfigPathInfo → ConfigPathInfo
  with_include dir m info = record info {
    discovery_method = m;
    include_dir = if is_missing (h.stat dir) then [] else dir;
  }

  abbrev pub found_at : Text → DiscoveryMethod → ConfigPathInfo
  found_at path m = with_include (path ++ codes ".d") m (check_path path)

  abbrev pub user_config : Option Text → ConfigPathInfo
  user_config none = no_info
  user_config (some home) =
      with_include (join_path (join_path home (codes ".ssh")) (codes "config.d")) common_path
        (check_path (join_path (join_path home (codes ".ssh")) (codes "config")))

  unfoldable pub discover_client_user_config : ConfigPathInfo
  unfolding check_path join_path
  discover_client_user_config = user_config h.home

  unfoldable pub first_common : List Text → ConfigPathInfo → ConfigPathInfo
  unfolding check_path
  first_common [] fallback = fallback
  first_common (p ∷ ps) fallback =
      let later = first_common ps fallback in
      if (check_path p).exists then found_at p common_path else later

  abbrev pub at_or : Text → DiscoveryMethod → ConfigPathInfo → ConfigPathInfo
  at_or [] m later = later
  at_or (c ∷ s) m later = found_at (c ∷ s) m

  abbrev pub client_default : ConfigPathInfo
  client_default = record no_info {
    path = codes "/etc/ssh/ssh_config";
    discovery_method = common_path;
  }

  abbrev pub other_client_paths : List Text
  other_client_paths = codes "/etc/ssh_config" ∷ codes "/usr/local/etc/ssh/ssh_config" ∷ []

  abbrev pub client_by_path : ConfigPathInfo
  client_by_path = first_common (codes "/etc/ssh/ssh_config" ∷ other_client_paths) client_default

  abbrev pub client_by_package : ConfigPathInfo
  client_by_package =
      at_or (get_client_config_from_package_manager h) package_manager client_by_path

  unfoldable pub discover_client_system_config : ConfigPathInfo
  unfolding get_client_config_from_command get_client_config_from_package_manager first_common
  discover_client_system_config = at_or (get_client_config_from_command h) command client_by_package

  -- Of a default in /usr/share, the file in /etc/ssh is answered.
  abbrev pub server_include : Text
  server_include =
      if is_present (h.stat (codes "/usr/share/openssh/sshd_config"))
      then codes "/etc/ssh/sshd_config.d"
      else []

  abbrev pub server_default : ConfigPathInfo
  server_default = record no_info {
    path = codes "/etc/ssh/sshd_config";
    discovery_method = common_path;
    include_dir = server_include;
  }

  abbrev pub other_server_paths : List Text
  other_server_paths = codes "/etc/sshd_config" ∷ codes "/usr/local/etc/ssh/sshd_config" ∷ []

  abbrev pub server_by_path : ConfigPathInfo
  server_by_path = first_common (codes "/etc/ssh/sshd_config" ∷ other_server_paths) server_default

  abbrev pub server_by_package : ConfigPathInfo
  server_by_package =
      at_or (get_server_config_from_package_manager h) package_manager server_by_path

  unfoldable pub discover_server_config : ConfigPathInfo
  unfolding get_server_config_from_command get_server_config_from_package_manager first_common
  discover_server_config = at_or (get_server_config_from_command h) command server_by_package

  unfoldable pub discover : DiscoveredPaths
  unfolding detect_distribution discover_client_user_config discover_client_system_config
      discover_server_config
  discover = record {
    client_system_config = discover_client_system_config;
    client_user_config = discover_client_user_config;
    server_config = discover_server_config;
    distribution = detect_distribution h;
    ssh_client_installed = is_command_available h (codes "ssh");
    ssh_server_installed = is_command_available h (codes "sshd");
  }
