-- ===== src/System/Commands.antt =====
-- skeys-core/system/service.go: the commands that are run on the service. A command is answered by what
-- the commands before it have left; the ones that a call has run are listed in order.
use skeys.Prelude.{List, [], ◌∷◌, if◌then◌else◌}
use skeys.Text.{Text, codes}
use skeys.Host.{Host, Answer, is_command_available}

pub record Command : Type 0 where
  pub name : Text
  pub args : List Text

abbrev pub Shell : Type 0
Shell = List Command → Command → Answer

pub record SystemManager : Type 0 where
  pub privilege_cmd : Text

unfoldable pub new_system_manager : Host → SystemManager
new_system_manager h = record {
  privilege_cmd = if is_command_available h (codes "pkexec") then codes "pkexec" else codes "sudo";
}

abbrev pub cat_command : Text → Command
cat_command service = record { name = codes "systemctl"; args = codes "cat" ∷ service ∷ [] }

abbrev pub show_command : Text → Command
show_command service = record {
  name = codes "systemctl";
  args =
      codes "show"
      ∷ service
      ∷ codes "--property=ActiveState,SubState,LoadState,MainPID,ActiveEnterTimestamp,UnitFileState"
      ∷ [];
}

abbrev pub journal_command : Text → Command
journal_command service = record {
  name = codes "journalctl";
  args = codes "-u" ∷ service ∷ codes "-n" ∷ codes "5" ∷ codes "--no-pager" ∷ codes "-q" ∷ [];
}

abbrev pub privileged_command : SystemManager → Text → Text → Command
privileged_command m verb service = record {
  name = m.privilege_cmd;
  args = codes "systemctl" ∷ verb ∷ service ∷ [];
}
