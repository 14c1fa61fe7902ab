-- ===== src/Discovery/Distribution.antt =====
-- skeys-core/config/discovery.go: the distribution, and the paths that are usual in it.
use skeys.Prelude.{nat_eq, ◌&&◌, Option, none, some, List, [], ◌∷◌, ◌==◌, if◌then◌else◌}
use skeys.Text.{Text, text_eq, codes}
use skeys.Text.Strings.{to_lower, has_prefix, trim_prefix, scan_lines}
use skeys.Host.{Host, is_present}

-- `strings.Trim(s, "\"")`
unfoldable pub trim_quotes : Text → Text
trim_quotes s = drop_last (drop_first s)
  where
    drop_first : Text → Text
    drop_first [] = []
    drop_first (c ∷ s) = let rest = drop_first s in if c == b'"' then rest else c ∷ s

    drop_last : Text → Text
    drop_last [] = []
    drop_last (c ∷ s) = let rest = drop_last s in if c == b'"' && rest == [] then [] else c ∷ rest

-- the first line with the prefix, without it and its quotes
unfoldable pub value_line : Text → List Text → Option Text
unfolding has_prefix trim_prefix trim_quotes
value_line p [] = none
value_line p (line ∷ lines) =
    let later = value_line p lines in
    if has_prefix line p then some (trim_quotes (trim_prefix line p)) else later

abbrev value_in : Text → Option Text → Option Text
value_in p none = none
value_in p (some text) = value_line p (scan_lines text).0

abbrev pub distro_files : List (Text × Text)
distro_files =
    (codes "/etc/debian_version", codes "debian")
    ∷ (codes "/etc/redhat-release", codes "rhel")
    ∷ (codes "/etc/fedora-release", codes "fedora")
    ∷ (codes "/etc/arch-release", codes "arch")
    ∷ (codes "/etc/gentoo-release", codes "gentoo")
    ∷ (codes "/etc/SuSE-release", codes "suse")
    ∷ []

module _ (h : Host) where
  unfoldable pub distro_of : List (Text × Text) → Text
  distro_of [] = codes "unknown"
  distro_of ((file, distro) ∷ files) =
      let later = distro_of files in if is_present (h.stat file) then distro else later

  abbrev distro_or : Option Text → Text → Text
  distro_or none later = later
  distro_or (some d) later = d

  abbrev lower_of : Option Text → Option Text
  lower_of none = none
  lower_of (some d) = some (to_lower d)

  unfoldable pub detect_distribution : Text
  unfolding value_line scan_lines distro_of to_lower
  detect_distribution = distro_or (value_in (codes "ID=") (h.open_file (codes "/etc/os-release"))) (
      distro_or (lower_of (value_in (codes "DISTRIB_ID=") (h.open_file (codes "/etc/lsb-release"))))
        (distro_of (h.visit distro_files)))

  unfoldable pub get_default_server_config_path : Text
  unfolding detect_distribution
  get_default_server_config_path =
      if detect_distribution == codes "freebsd"
      then codes "/usr/local/etc/ssh/sshd_config"
      else codes "/etc/ssh/sshd_config"

  unfoldable pub get_default_client_config_path : Text
  unfolding detect_distribution
  get_default_client_config_path =
      if detect_distribution == codes "freebsd"
      then codes "/usr/local/etc/ssh/ssh_config"
      else codes "/etc/ssh/ssh_config"
