-- ===== src/Discovery/Packages.antt =====
-- skeys-core/config/discovery.go: what ssh, sshd and the package managers say of the paths.
use skeys.Prelude.{Bool, nat_eq, false, not, ◌&&◌, ◌||◌, List, [], ◌∷◌, if◌then◌else◌}
use skeys.Text.{Text, text_eq, codes}
use skeys.Text.Strings.{contains, split, trim_space, fields}
use skeys.Keys.Naming.{has_suffix}
use skeys.Host.{Host, is_command_available}

-- the first list that gives a path
abbrev first_path : Text → Text → Text
first_path [] later = later
first_path (c ∷ s) later = c ∷ s

-- the first line that passes the test, trimmed
unfoldable pub first_line : (Text → Bool) → List Text → Text
unfolding trim_space
first_line test [] = []
first_line test (line ∷ lines) =
    let later = first_line test lines in if test line then trim_space line else later

-- the second field of the first line that passes the test and has two
abbrev second_or : List Text → Text → Text
second_or [] later = later
second_or (a ∷ []) later = later
second_or (a ∷ b ∷ ws) later = b

unfoldable pub second_field : (Text → Bool) → List Text → Text
unfolding fields
second_field test [] = []
second_field test (line ∷ lines) =
    let later = second_field test lines in
    if test line then second_or (fields line) later else later

module _ (h : Host) where
  abbrev output_lines : Text → Text → Text → List Text
  output_lines tool flag pack =
      let a = h.run tool (flag ∷ pack ∷ []) in
      if is_command_available h tool && a.succeeds then split b'\n' a.stdout else []

  unfoldable pub get_client_config_from_command : Text
  get_client_config_from_command =
      if (h.run (codes "ssh") (codes "-G" ∷ codes "localhost" ∷ [])).succeeds
      then codes "/etc/ssh/ssh_config"
      else []

  unfoldable pub get_server_config_from_command : Text
  unfolding contains
  get_server_config_from_command =
      if contains (h.run (codes "sshd") (codes "-T" ∷ [])).stderr (codes "/etc/ssh/sshd_config")
      then codes "/etc/ssh/sshd_config"
      else if is_command_available h (codes "sshd")
      then codes "/etc/ssh/sshd_config"
      else []

  abbrev ends_in_etc : Text → Text → Bool
  ends_in_etc name line = has_suffix line name && contains line (codes "/etc/")

  unfoldable pub get_client_config_from_package_manager : Text
  unfolding has_suffix contains split first_line second_field
  get_client_config_from_package_manager =
      first_path
        (first_line (ends_in_etc (codes "ssh_config"))
          (output_lines (codes "dpkg") (codes "-L") (codes "openssh-client")))
        (first_path
          (first_line (ends_in_etc (codes "ssh_config"))
            (output_lines (codes "rpm") (codes "-ql") (codes "openssh-clients")))
          (second_field
            (λ line.
              contains line (codes "ssh_config")
              && (contains line (codes "/etc/") && not (contains line (codes "sshd"))))
            (output_lines (codes "pacman") (codes "-Ql") (codes "openssh"))))

  unfoldable pub any_line : (Text → Bool) → List Text → Bool
  any_line test [] = false
  any_line test (line ∷ lines) = test line || any_line test lines

  abbrev default_of : List Text → Text
  default_of lines =
      if any_line
        (λ line. has_suffix line (codes "sshd_config") && contains line (codes "/usr/share/")) lines
      then codes "/etc/ssh/sshd_config"
      else []

  unfoldable pub get_server_config_from_package_manager : Text
  unfolding has_suffix contains split first_line second_field any_line
  get_server_config_from_package_manager =
      let debian = output_lines (codes "dpkg") (codes "-L") (codes "openssh-server") in
      first_path (first_line (ends_in_etc (codes "sshd_config")) debian) (
        first_path (default_of debian) (
          first_path
            (first_line (ends_in_etc (codes "sshd_config"))
              (output_lines (codes "rpm") (codes "-ql") (codes "openssh-server")))
            (second_field
              (λ line. contains line (codes "sshd_config") && contains line (codes "/etc/"))
              (output_lines (codes "pacman") (codes "-Ql") (codes "openssh")))))
