-- ===== src/System/Actions.antt =====
-- skeys-core/system/service.go: what the six actions on the service run with privileges.
use skeys.Prelude.{
  ℕ, ◌≡◌, refl, sym, ap, ◌∙◌, Bool, true, false, Option, none, some, List, [], ◌∷◌, ◌++◌, ◌==◌,
  append-nil, if◌then◌else◌, Result, arith, Bool-cases, inl, inr,
}
use skeys.Text.{Text, text_eq, codes}
use skeys.Host.{Host, is_command_available}
use skeys.System.Commands.{
  Command, Shell, SystemManager, new_system_manager, cat_command, show_command, journal_command,
  privileged_command,
}
use skeys.System.Details.{get_service_failure_details}
use skeys.System.Service.{
  ServiceStatus, ServiceError, find_service, find_ssh_service_name, service_names, ask_status,
  ask_started, act_on, start_on, start_ssh_service, stop_ssh_service, restart_ssh_service,
  reload_ssh_service, enable_ssh_service, disable_ssh_service,
}

pub data Action : Type 0 where
  start stop restart reload enable disable : Action

abbrev pub verb : Action → Text
verb start = codes "start"
verb stop = codes "stop"
verb restart = codes "restart"
verb reload = codes "reload"
verb enable = codes "enable"
verb disable = codes "disable"

-- the commands with the name
unfoldable pub named : Text → List Command → List Command
named n [] = []
named n (c ∷ cs) = let rest = named n cs in if c.name == n then c ∷ rest else rest

named-append : (n : Text) (cs ds : List Command) → named n (cs ++ ds) ≡ named n cs ++ named n ds
unfolding named
named-append n [] ds = refl
named-append n (c ∷ cs) ds = elim (Bool-cases (c.name == n)) [
  | inl e ↦ rw e (ap (λ r. c ∷ r) (named-append n cs ds))
  | inr e ↦ rw e (named-append n cs ds)
]

-- A command with another name is not listed.
named-other :
    (n : Text) (cs : List Command) (c : Command)
    → (c.name == n) ≡ false
    → named n (cs ++ c ∷ []) ≡ named n cs
unfolding named
named-other n cs c e = named-append n cs (c ∷ []) ∙ rw e (append-nil (named n cs))

find-named :
    (n : Text) (sh : Shell) (names : List Text) (done : List Command)
    → (codes "systemctl" == n) ≡ false
    → named n (find_service sh names done).1 ≡ named n done
unfolding find_service
find-named n sh [] done e = refl
find-named n sh (name ∷ names) done e = elim (Bool-cases (sh done (cat_command name)).succeeds) [
  | inl s ↦ rw s (named-other n done (cat_command name) e)
  | inr s ↦ rw s (
      find-named n sh names (done ++ cat_command name ∷ []) e
      ∙ named-other n done (cat_command name) e)
]

-- what an action asks for, of the service that is found
abbrev pub requested : SystemManager → Text → Option Text → List Command
requested m v none = []
requested m v (some name) = privileged_command m v name ∷ []

module _ (parse_time : Text → Option ℕ) (m : SystemManager) (sh : Shell) where
  unfoldable pub perform : Action → List Command → Result ServiceError ServiceStatus × List Command
  unfolding start_ssh_service stop_ssh_service restart_ssh_service reload_ssh_service
      enable_ssh_service disable_ssh_service
  perform start done = start_ssh_service parse_time m sh done
  perform stop done = stop_ssh_service parse_time m sh done
  perform restart done = restart_ssh_service parse_time m sh done
  perform reload done = reload_ssh_service parse_time m sh done
  perform enable done = enable_ssh_service parse_time m sh done
  perform disable done = disable_ssh_service parse_time m sh done

  module _ (plain : (codes "systemctl" == m.privilege_cmd) ≡ false)
      (quiet : (codes "journalctl" == m.privilege_cmd) ≡ false) where
    privileged-named :
        (done : List Command) (v name : Text)
        → named m.privilege_cmd (done ++ privileged_command m v name ∷ [])
          ≡ named m.privilege_cmd done ++ privileged_command m v name ∷ []
    unfolding named
    privileged-named done v name =
        named-append m.privilege_cmd done (privileged_command m v name ∷ [])
        ∙ rw ((text_eq.beq_iff m.privilege_cmd m.privilege_cmd).1 refl) refl

    ask_status-named :
        (b : Bool) (name : Text) (done : List Command)
        → named m.privilege_cmd (ask_status parse_time m sh b name done).1
          ≡ named m.privilege_cmd done
    ask_status-named true name done = named-other m.privilege_cmd done (show_command name) plain
    ask_status-named false name done = refl

    details-named :
        (name : Text) (done : List Command)
        → named m.privilege_cmd (get_service_failure_details sh name done).1
          ≡ named m.privilege_cmd done
    unfolding get_service_failure_details
    details-named name done = named-other m.privilege_cmd done (journal_command name) quiet

    ask_started-named :
        (b : Bool) (name : Text) (done : List Command)
        → named m.privilege_cmd (ask_started parse_time m sh b name done).1
          ≡ named m.privilege_cmd done
    ask_started-named true name done = ask_status-named true name done
    ask_started-named false name done = details-named name done

    act_on-named :
        (v : Text) (found : Option Text × List Command)
        → named m.privilege_cmd (act_on parse_time m sh v found).1
          ≡ named m.privilege_cmd found.1 ++ requested m v found.0
    act_on-named v (none, done) = sym (append-nil _)
    act_on-named v (some name, done) =
        ask_status-named _ name (done ++ privileged_command m v name ∷ [])
        ∙ privileged-named done v name

    start_on-named :
        (found : Option Text × List Command)
        → named m.privilege_cmd (start_on parse_time m sh found).1
          ≡ named m.privilege_cmd found.1 ++ requested m (codes "start") found.0
    start_on-named (none, done) = sym (append-nil _)
    start_on-named (some name, done) =
        ask_started-named _ name (done ++ privileged_command m (codes "start") name ∷ [])
        ∙ privileged-named done (codes "start") name

    find_name-named :
        (v : Text)
        → named m.privilege_cmd (find_ssh_service_name sh []).1
            ++ requested m v (find_ssh_service_name sh []).0
          ≡ requested m v (find_ssh_service_name sh []).0
    unfolding find_ssh_service_name named
    find_name-named v =
        ap (λ cs. cs ++ requested m v (find_ssh_service_name sh []).0)
          (find-named m.privilege_cmd sh service_names [] plain)

    perform-named :
        (a : Action)
        → named m.privilege_cmd (perform a []).1
          ≡ requested m (verb a) (find_ssh_service_name sh []).0
    unfolding perform start_ssh_service stop_ssh_service restart_ssh_service reload_ssh_service
        enable_ssh_service disable_ssh_service
    perform-named start =
        start_on-named (find_ssh_service_name sh []) ∙ find_name-named (codes "start")
    perform-named stop =
        act_on-named (codes "stop") (find_ssh_service_name sh []) ∙ find_name-named (codes "stop")
    perform-named restart =
        act_on-named (codes "restart") (find_ssh_service_name sh [])
        ∙ find_name-named (codes "restart")
    perform-named reload =
        act_on-named (codes "reload") (find_ssh_service_name sh [])
        ∙ find_name-named (codes "reload")
    perform-named enable =
        act_on-named (codes "enable") (find_ssh_service_name sh [])
        ∙ find_name-named (codes "enable")
    perform-named disable =
        act_on-named (codes "disable") (find_ssh_service_name sh [])
        ∙ find_name-named (codes "disable")

pub data IsSshService : Option Text → Type 0 where
  not_there : IsSshService none
  is_ssh : IsSshService (some (codes "ssh.service"))
  is_sshd : IsSshService (some (codes "sshd.service"))

found_if :
    (b : Bool) (x y : Option Text × List Command)
    → IsSshService x.0
    → IsSshService y.0
    → IsSshService (if b then x else y).0
found_if true x y p q = p
found_if false x y p q = q

find-IsSshService :
    (sh : Shell) (done : List Command) → IsSshService (find_ssh_service_name sh done).0
unfolding find_ssh_service_name find_service
find-IsSshService sh done = found_if _ _ _ is_ssh (found_if _ _ _ is_sshd not_there)

-- ssh.service if systemctl can show its unit, or else sshd.service if it can show that
abbrev pub known_service : Shell → Option Text
known_service sh =
    let ssh = cat_command (codes "ssh.service") in
    let sshd = cat_command (codes "sshd.service") in
    if (sh [] ssh).succeeds
    then some (codes "ssh.service")
    else if (sh (ssh ∷ []) sshd).succeeds
    then some (codes "sshd.service")
    else none

find-known : (sh : Shell) → (find_ssh_service_name sh []).0 ≡ known_service sh
unfolding find_ssh_service_name find_service
find-known sh = ground arith

not_privilege_cmd :
    (h : Host) (s : Text)
    → (s == codes "pkexec") ≡ false
    → (s == codes "sudo") ≡ false
    → (s == (new_system_manager h).privilege_cmd) ≡ false
unfolding new_system_manager
not_privilege_cmd h s p q = elim (Bool-cases (is_command_available h (codes "pkexec"))) [
  | inl e ↦ rw e p
  | inr e ↦ rw e q
]

pub action-runs_once :
    (h : Host) (parse_time : Text → Option ℕ) (sh : Shell) (a : Action)
    → (named
          (new_system_manager h).privilege_cmd
          (perform parse_time (new_system_manager h) sh a []).1
        ≡ requested (new_system_manager h) (verb a) (find_ssh_service_name sh []).0)
      × IsSshService (find_ssh_service_name sh []).0
      × ((find_ssh_service_name sh []).0 ≡ known_service sh)
action-runs_once h parse_time sh a = (
  perform-named parse_time (new_system_manager h) sh
      (not_privilege_cmd h (codes "systemctl") refl refl)
      (not_privilege_cmd h (codes "journalctl") refl refl) a,
  find-IsSshService sh [],
  find-known sh,
)
