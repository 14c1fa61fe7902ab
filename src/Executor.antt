-- ===== src/Executor.antt =====
-- skeys-core/executor/executor.go: the commands that the program lets run. What the operating system
-- answers to a command is a parameter; a method beside the two constants is not modelled.
pub mod Launching
mod Tests
use skeys.Prelude.{
  Bool, true, false, Option, none, some, List, [], ◌∷◌, ◌++◌, ◌==◌, ◌||◌, Result, ok, err,
  if◌then◌else◌,
}
use skeys.Text.{Text, text_eq, codes}
use skeys.Text.Strings.{has_prefix}

pub data ExecutorError : Type 0 where
  command_not_allowed path_not_allowed command_failed : ExecutorError

pub data PrivilegeMethod : Type 0 where
  pkexec sudo : PrivilegeMethod

-- a process that is started, with what stands on its standard input if that is set
pub record Launch : Type 0 where
  pub name : Text
  pub args : List Text
  pub stdin : Option Text

-- the output of a command that succeeds
abbrev pub System : Type 0
System = Launch → Option Text

-- the answer of a call and what it has started
abbrev pub Ran : Type 0
Ran = Result ExecutorError Text × List Launch

pub record LocalExecutor : Type 0 where
  allowed_commands : List Text

pub record PrivilegeExecutor : Type 0 where
  method : PrivilegeMethod
  allowed_commands : List Text
  allowed_paths : List Text

unfoldable pub is_listed : Text → List Text → Bool
is_listed name [] = false
is_listed name (c ∷ cs) = name == c || is_listed name cs

unfoldable pub new_local_executor : LocalExecutor
new_local_executor = record {
  allowed_commands =
      codes "ssh-keygen"
      ∷ codes "ssh-add"
      ∷ codes "ssh-agent"
      ∷ codes "ssh"
      ∷ codes "sshd"
      ∷ codes "ssh-keyscan"
      ∷ [];
}

unfoldable pub new_privilege_executor : PrivilegeMethod → PrivilegeExecutor
new_privilege_executor m = record {
  method = m;
  allowed_commands = codes "sshd" ∷ codes "systemctl" ∷ codes "cat" ∷ codes "tee" ∷ [];
  allowed_paths = codes "/etc/ssh/" ∷ [];
}

abbrev answer_of : Option Text → Result ExecutorError Text
answer_of none = err command_failed
answer_of (some output) = ok output

abbrev start : System → Launch → Ran
start os l = (answer_of (os l), l ∷ [])

unfoldable pub run_local : System → LocalExecutor → Text → List Text → Ran
unfolding is_listed
run_local os e name args =
    if is_listed name e.allowed_commands
    then start os (record { name = name; args = args; stdin = none })
    else (err command_not_allowed, [])

-- the command behind the program that gives it the privileges
unfoldable pub escalate : PrivilegeMethod → Text → List Text → Option Text → Launch
escalate pkexec name args input = record {
  name = codes "pkexec";
  args = name ∷ args;
  stdin = input;
}
escalate sudo name args input = record {
  name = codes "sudo";
  args = codes "-n" ∷ name ∷ args;
  stdin = input;
}

unfoldable pub run : System → PrivilegeExecutor → Text → List Text → Ran
unfolding is_listed escalate
run os e name args =
    if is_listed name e.allowed_commands
    then start os (escalate e.method name args none)
    else (err command_not_allowed, [])

unfoldable pub has_allowed_prefix : Text → List Text → Bool
has_allowed_prefix path [] = false
has_allowed_prefix path (a ∷ allowed) = has_prefix path a || has_allowed_prefix path allowed

abbrev pub is_allowed_path : PrivilegeExecutor → Text → Bool
is_allowed_path e path = has_allowed_prefix path e.allowed_paths

unfoldable pub read_file : System → PrivilegeExecutor → Text → Ran
unfolding run has_allowed_prefix
read_file os e path =
    if is_allowed_path e path
    then run os e (codes "cat") (path ∷ [])
    else (err path_not_allowed, [])

-- Without an error, what `tee` prints is dropped.
abbrev without_output : Result ExecutorError Text → Result ExecutorError Text
without_output (err e) = err e
without_output (ok output) = ok []

unfoldable pub write_file : System → PrivilegeExecutor → Text → Text → Ran
unfolding escalate has_allowed_prefix
write_file os e path text =
    if is_allowed_path e path
    then (
      without_output (answer_of (os (escalate e.method (codes "tee") (path ∷ []) (some text)))),
      escalate e.method (codes "tee") (path ∷ []) (some text) ∷ [],
    )
    else (err path_not_allowed, [])

unfoldable pub execute : System → PrivilegeExecutor → Text → List Text → Ran
unfolding run
execute os e name args = run os e name args

-- a call of the privileged executor
pub data Call : Type 0 where
  call_run : Text → List Text → Call
  call_read : Text → Call
  call_write : Text → Text → Call
  call_execute : Text → List Text → Call

unfoldable pub perform : System → PrivilegeExecutor → Call → Ran
unfolding run read_file write_file execute
perform os e (call_run name args) = run os e name args
perform os e (call_read path) = read_file os e path
perform os e (call_write path text) = write_file os e path text
perform os e (call_execute name args) = execute os e name args
