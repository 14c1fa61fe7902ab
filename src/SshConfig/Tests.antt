-- ===== src/SshConfig/Tests.antt =====
-- Runs of the manager on small files, and the theorems at concrete inputs.
use skeys.Prelude.{◌≡◌, refl, true, false, none, some, [], ok}
use skeys.Text.{Text, codes}
use skeys.Text.Strings.{
  trim_space, trim_left, trim_right, is_space, split, contains, has_prefix, join,
}
use skeys.Text.Splitting.{is_free}
use skeys.Files.{broken}
use skeys.SshConfig.{
  Manager, Disk, begin_marker, enable, enabled_of, disable, is_enabled, read_config, write_config,
  remove_managed_block, filter_lines, drop_blank,
}
use skeys.SshConfig.Enabling.{healthy, restored, disable-enable}
use skeys.SshConfig.Backup.{IsKept, old_text-IsKept}

abbrev user_file : Text
user_file = codes "Port 7"

abbrev plain : Manager
plain = record { agent_socket = codes "/run/a"; config = some user_file; backup = none }

abbrev full_disk : Disk
full_disk = record healthy { config_write = broken (some []) }

no_marker : enabled_of plain.config ≡ false
unfolding contains has_prefix
no_marker = refl

enable_succeeds : (enable healthy plain).0 ≡ ok tt
unfolding enable is_enabled read_config write_config contains has_prefix
enable_succeeds = refl

abbrev marked : Manager
marked = record plain { config = some begin_marker }

socket_is_free : is_free b'\n' plain.agent_socket ≡ true
unfolding is_free
socket_is_free = refl

disable-enable_example :
    (disable healthy (enable healthy plain).1).1.config ≡ some (restored (some user_file))
disable-enable_example =
    disable-enable plain socket_is_free no_marker
      (unfold split trim_space trim_left trim_right is_space in ((refl, refl), tt))

restored_file : restored (some user_file) ≡ user_file
unfolding split join drop_blank trim_space trim_left trim_right is_space
restored_file = refl

disable_succeeds : (disable healthy marked).0 ≡ ok tt
unfolding disable read_config write_config remove_managed_block split filter_lines drop_blank
    trim_space trim_left trim_right is_space
disable_succeeds = refl

old_text-IsKept_example :
    IsKept (some user_file) (enable full_disk plain).1
    × IsKept (some user_file) (disable full_disk plain).1
old_text-IsKept_example = old_text-IsKept full_disk plain
