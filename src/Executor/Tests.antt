-- ===== src/Executor/Tests.antt =====
-- Runs of the executors.
use skeys.Prelude.{◌≡◌, refl, none, some, [], ◌∷◌, ok, err}
use skeys.Text.{codes}
use skeys.Text.Strings.{has_prefix}
use skeys.Executor.{
  System, sudo, pkexec, new_privilege_executor, new_local_executor, command_not_allowed,
  path_not_allowed, run_local, run, read_file, escalate, call_write, perform,
}
use skeys.Executor.Launching.{ArePermitted, perform-ArePermitted}

-- every command succeeds and prints nothing
abbrev quiet : System
quiet = λ l. some []

local_refuses :
    run_local quiet new_local_executor (codes "rm") (codes "-rf" ∷ [])
    ≡ (err command_not_allowed, [])
unfolding run_local new_local_executor
local_refuses = refl

path_refused :
    read_file quiet (new_privilege_executor sudo) (codes "/etc/shadow") ≡ (err path_not_allowed, [])
unfolding read_file new_privilege_executor has_prefix
path_refused = refl

-- The allowed paths bind neither `Run` nor `Execute`.
cat_anywhere :
    run quiet (new_privilege_executor sudo) (codes "cat") (codes "/etc/shadow" ∷ [])
    ≡ (ok [], escalate sudo (codes "cat") (codes "/etc/shadow" ∷ []) none ∷ [])
unfolding run new_privilege_executor
cat_anywhere = refl

perform-ArePermitted_example :
    ArePermitted
      (perform quiet
        (new_privilege_executor pkexec)
        (call_write (codes "/etc/ssh/sshd_config") (codes "Port 22"))).1
perform-ArePermitted_example =
    perform-ArePermitted quiet pkexec (call_write (codes "/etc/ssh/sshd_config") (codes "Port 22"))
