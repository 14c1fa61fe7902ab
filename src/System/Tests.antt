-- ===== src/System/Tests.antt =====
-- skeys-core/system/service.go and network.go: runs on a machine of Debian.
use skeys.Prelude.{
  ℕ, zero, suc, ◌≡◌, refl, Bool, true, false, ◌&&◌, Option, none, some, List, [], ◌∷◌, ◌==◌,
  if◌then◌else◌, err, arith,
}
use skeys.Text.{Text, text_eq, codes}
use skeys.Text.Decimal.{itoa}
use skeys.Text.Numbers.{pos}
use skeys.Text.Splitting.{is_free}
use skeys.Text.Strings.{
  scan_lines, contains, split, trim_space, has_prefix, is_space, trim_left, trim_right,
}
use skeys.Host.{Host, Answer, missing}
use skeys.System.Commands.{Shell, new_system_manager}
use skeys.System.Details.{get_service_failure_details, utf8, shorten, encode_rune}
use skeys.System.Service.{
  parse_status, find_ssh_service_name, stopped, parse_status, start_ssh_service, start_failed,
}
use skeys.System.Actions.{
  start, named, perform, requested, IsSshService, known_service, action-runs_once,
}
use skeys.System.Failures.{IsAbridged, last_telling_line_is_told}
use skeys.System.Parsing.{
  Shown, IsShown, print_properties, properties_of, status_of, parse_status-print,
}
use skeys.System.Network.{Machine, get_ssh_port, port_of_line}
use skeys.System.Firewall.{lets_ssh_in}
use skeys.System.Ports.{main_config_decides}

abbrev answer : Bool → Text → Answer
answer b out = record { succeeds = b; stdout = out; stderr = []; failure = codes "exit status 1" }

abbrev server_config : Text
server_config = codes "Include /etc/ssh/sshd_config.d/*.conf\n\nPort 2222\nPort 2200\n"

abbrev debian : Host
debian = record {
  stat = λ p. missing;
  open_file = λ p.
      if p == codes "/etc/ssh/sshd_config"
      then some server_config
      else if p == codes "/etc/ssh/sshd_config.d/90.conf"
      then some (codes "Port 22022\n")
      else none;
  appends = λ p. false;
  home = none;
  look_path = λ c. if c == codes "sudo" then some c else none;
  run = λ c args. answer false [];
  visit = λ m. m;
}

abbrev machine : Machine
machine = record {
  host = debian;
  hostname = none;
  interfaces = none;
  read_dir = λ p. some ((codes "90.conf", false) ∷ []);
}

abbrev asks_for_sshd : List Text → Bool
asks_for_sshd [] = false
asks_for_sshd (a ∷ []) = false
asks_for_sshd (a ∷ b ∷ args) = a == codes "cat" && b == codes "sshd.service"

-- The service is sshd.service, and it does not start.
abbrev broken_service : Shell
broken_service done c =
    if c.name == codes "journalctl"
    then answer true (codes "sshd: Cannot bind any address.\n")
    else if asks_for_sshd c.args
    then answer true []
    else answer false []

abbrev no_time : Text → Option ℕ
no_time t = none

start_fails :
    (start_ssh_service no_time (new_system_manager debian) broken_service []).0
    ≡ err (start_failed (codes "sshd: Cannot bind any address."))
unfolding start_ssh_service has_prefix is_space new_system_manager trim_left trim_right
start_fails = refl

action-runs_once_example :
    (named (codes "sudo") (perform no_time (new_system_manager debian) broken_service start []).1
      ≡ requested
          (new_system_manager debian)
          (codes "start")
          (find_ssh_service_name broken_service []).0)
    × IsSshService (find_ssh_service_name broken_service []).0
    × ((find_ssh_service_name broken_service []).0 ≡ known_service broken_service)
unfolding new_system_manager
action-runs_once_example = action-runs_once debian no_time broken_service start

last_telling_line_is_told_example :
    IsAbridged
      (utf8 (trim_space (codes "sshd: Cannot bind any address.")))
      (get_service_failure_details broken_service (codes "sshd.service") []).0
unfolding trim_space trim_left trim_right is_space contains has_prefix split
last_telling_line_is_told_example =
    last_telling_line_is_told broken_service (codes "sshd.service") [] []
      (codes "sshd: Cannot bind any address.") [] refl refl
      (record {
        no_missing = refl;
        no_denial = refl;
        no_clash = refl;
        no_bad = refl;
        no_error = refl;
      })
      refl (record { full = refl; not_starting = refl; not_stopped = refl }) tt

abbrev dashes : ℕ → Text → Text
dashes zero s = s
dashes (suc n) s = b'-' ∷ dashes n s

-- The first bytes of a line that is cut end inside of a code point.
cut_splits_rune : shorten (dashes 199 (0xe9 ∷ [])) ≡ dashes 199 (0xc3 ∷ codes "...")
unfolding shorten utf8 encode_rune
cut_splits_rune = refl

-- a unit that has been removed, without a process
abbrev removed : Shown
removed = record {
  main_pid = 0;
  load_state = codes "not-found";
  active_state = codes "inactive";
  sub_state = codes "dead";
  unit_file_state = [];
  timestamp = [];
}

removed-IsShown : IsShown removed
unfolding is_free
removed-IsShown = record {
  bound = omega arith;
  load = refl;
  active = refl;
  sub = refl;
  unit_file = refl;
  time = refl;
}

removed_is_stopped : (status_of removed (codes "ssh.service") none).state ≡ stopped
removed_is_stopped = refl

parse_status-print_example :
    parse_status no_time
      (answer true (print_properties (properties_of removed)))
      (codes "ssh.service")
    ≡ status_of removed (codes "ssh.service") none
parse_status-print_example =
    parse_status-print no_time removed (codes "ssh.service") [] (codes "exit status 1")
      removed-IsShown

-- The port 8022 is let in, and counts as the one of SSH.
other_port_counts : lets_ssh_in (codes "8022/tcp  ALLOW  Anywhere") ≡ true
unfolding lets_ssh_in has_prefix
other_port_counts = refl

main_config_decides_example : get_ssh_port machine ≡ pos 2222
unfolding scan_lines port_of_line has_prefix itoa is_space trim_left trim_right
main_config_decides_example =
    main_config_decides machine server_config
      (codes "Include /etc/ssh/sshd_config.d/*.conf" ∷ [] ∷ []) (codes "Port 2200" ∷ []) 2222 refl
      refl (refl, (refl, tt)) (omega arith)
