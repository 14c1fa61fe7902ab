-- ===== src/System/Service.antt =====
-- skeys-core/system/service.go: the service of the SSH server. How a time of systemd is read depends on
-- the zone of the machine and is a parameter.
use skeys.Prelude.{
  ℕ, Bool, true, false, ◌||◌, Option, none, some, List, [], ◌∷◌, ◌++◌, ◌==◌, if◌then◌else◌, Result,
  ok, err,
}
use skeys.Text.{Text, text_eq, codes}
use skeys.Text.Numbers.{ℤ, pos, int_of}
use skeys.Text.Strings.{cut, contains, split}
use skeys.System.Details.{get_service_failure_details}
use skeys.System.Commands.{
  Command, Shell, cat_command, show_command, privileged_command, SystemManager,
}
use skeys.Host.{Answer}

pub data ServiceState : Type 0 where
  unspecified running stopped failed not_found unknown : ServiceState

pub record ServiceStatus : Type 0 where
  pub state : ServiceState
  pub enabled : Bool
  pub active_state : Text
  pub sub_state : Text
  pub load_state : Text
  pub pid : ℤ
  -- not set for the time of zero
  pub started_at : Option ℕ
  pub service_name : Text

pub data ServiceError : Type 0 where
  service_not_found command_failed : ServiceError
  start_failed : List ℕ → ServiceError

abbrev pub status_with : ServiceState → Text → ServiceStatus
status_with state name = record {
  state = state;
  enabled = false;
  active_state = [];
  sub_state = [];
  load_state = [];
  pid = pos 0;
  started_at = none;
  service_name = name;
}

abbrev pub state_of : Text → ServiceState → ServiceState
state_of value state =
    if value == codes "active"
    then running
    else if value == codes "inactive"
    then stopped
    else if value == codes "failed"
    then failed
    else state

abbrev pub loaded_state : Text → ServiceState → ServiceState
loaded_state value state = if value == codes "not-found" then not_found else state

abbrev pub pid_or : Option ℤ → ℤ → ℤ
pid_or none old = old
pid_or (some p) old = p

abbrev pub time_or : Option ℕ → Option ℕ → Option ℕ
time_or none old = old
time_or (some t) old = some t

abbrev pub service_names : List Text
service_names = codes "ssh.service" ∷ codes "sshd.service" ∷ []

-- the first service that systemctl knows, and the commands that have been run
unfoldable pub find_service : Shell → List Text → List Command → Option Text × List Command
find_service sh [] done = (none, done)
find_service sh (name ∷ names) done =
    let asked = done ++ cat_command name ∷ [] in
    let rest = find_service sh names asked in
    if (sh done (cat_command name)).succeeds then (some name, asked) else rest

unfoldable pub find_ssh_service_name : Shell → List Command → Option Text × List Command
unfolding find_service
find_ssh_service_name sh done = find_service sh service_names done

module _ (parse_time : Text → Option ℕ) where
  unfoldable pub set_property : Text → Text → ServiceStatus → ServiceStatus
  unfolding int_of
  set_property key value s =
      if key == codes "ActiveState"
      then record s { active_state = value; state = state_of value s.state }
      else if key == codes "SubState"
      then record s { sub_state = value }
      else if key == codes "LoadState"
      then record s { load_state = value; state = loaded_state value s.state }
      else if key == codes "MainPID"
      then record s { pid = pid_or (int_of value) s.pid }
      else if key == codes "ActiveEnterTimestamp"
      then (if value == [] || value == codes "n/a"
          then s
          else record s { started_at = time_or (parse_time value) s.started_at })
      else if key == codes "UnitFileState"
      then record s { enabled = value == codes "enabled" }
      else s

  abbrev pub set_parts : Option (Text × Text) → ServiceStatus → ServiceStatus
  set_parts none s = s
  set_parts (some (key, value)) s = set_property key value s

  unfoldable pub set_lines : List Text → ServiceStatus → ServiceStatus
  unfolding cut set_property
  set_lines [] s = s
  set_lines (line ∷ lines) s = set_lines lines (set_parts (cut b'=' line) s)

  unfoldable pub parse_status : Answer → Text → ServiceStatus
  unfolding split set_lines contains
  parse_status a name =
      if a.succeeds
      then set_lines (split b'\n' a.stdout) (status_with unknown name)
      else if contains a.failure (codes "not found")
      then status_with not_found name
      else status_with unknown name

  abbrev pub get_service_status : Shell → Text → List Command → ServiceStatus × List Command
  get_service_status sh name done =
      (parse_status (sh done (show_command name)) name, done ++ show_command name ∷ [])

  abbrev pub status_of_found : Shell → Option Text × List Command → ServiceStatus × List Command
  status_of_found sh (none, done) = (status_with not_found (codes "ssh.service"), done)
  status_of_found sh (some name, done) = get_service_status sh name done

  unfoldable pub get_ssh_service_status : Shell → List Command → ServiceStatus × List Command
  unfolding find_ssh_service_name parse_status
  get_ssh_service_status sh done = status_of_found sh (find_ssh_service_name sh done)

  module _ (m : SystemManager) (sh : Shell) where
    -- the answer of the command, and the status after it if it succeeds
    abbrev pub ask_status :
        Bool → Text → List Command → Result ServiceError ServiceStatus × List Command
    ask_status false name done = (err command_failed, done)
    ask_status true name done = let shown = get_service_status sh name done in (ok shown.0, shown.1)

    abbrev pub act_on :
        Text → Option Text × List Command → Result ServiceError ServiceStatus × List Command
    act_on verb (none, done) = (err service_not_found, done)
    act_on verb (some name, done) =
        let c = privileged_command m verb name in
        ask_status (sh done c).succeeds name (done ++ c ∷ [])

    unfoldable pub stop_ssh_service :
        List Command → Result ServiceError ServiceStatus × List Command
    unfolding find_ssh_service_name parse_status
    stop_ssh_service done = act_on (codes "stop") (find_ssh_service_name sh done)

    unfoldable pub restart_ssh_service :
        List Command → Result ServiceError ServiceStatus × List Command
    unfolding find_ssh_service_name parse_status
    restart_ssh_service done = act_on (codes "restart") (find_ssh_service_name sh done)

    unfoldable pub reload_ssh_service :
        List Command → Result ServiceError ServiceStatus × List Command
    unfolding find_ssh_service_name parse_status
    reload_ssh_service done = act_on (codes "reload") (find_ssh_service_name sh done)

    unfoldable pub enable_ssh_service :
        List Command → Result ServiceError ServiceStatus × List Command
    unfolding find_ssh_service_name parse_status
    enable_ssh_service done = act_on (codes "enable") (find_ssh_service_name sh done)

    unfoldable pub disable_ssh_service :
        List Command → Result ServiceError ServiceStatus × List Command
    unfolding find_ssh_service_name parse_status
    disable_ssh_service done = act_on (codes "disable") (find_ssh_service_name sh done)

    abbrev pub failure : List ℕ → ServiceError
    failure [] = command_failed
    failure (c ∷ details) = start_failed (c ∷ details)

    abbrev pub ask_started :
        Bool → Text → List Command → Result ServiceError ServiceStatus × List Command
    ask_started true name done = ask_status true name done
    ask_started false name done =
        let found = get_service_failure_details sh name done in (err (failure found.0), found.1)

    abbrev pub start_on :
        Option Text × List Command → Result ServiceError ServiceStatus × List Command
    start_on (none, done) = (err service_not_found, done)
    start_on (some name, done) =
        let c = privileged_command m (codes "start") name in
        ask_started (sh done c).succeeds name (done ++ c ∷ [])

    unfoldable pub start_ssh_service :
        List Command → Result ServiceError ServiceStatus × List Command
    unfolding find_ssh_service_name parse_status get_service_failure_details
    start_ssh_service done = start_on (find_ssh_service_name sh done)
