-- ===== src/System/Firewall.antt =====
-- skeys-core/system/network.go: what ufw and firewalld say of SSH.
use skeys.Prelude.{
  Bool, true, false, not, ◌&&◌, ◌||◌, Option, none, some, List, [], ◌∷◌, ◌==◌, if◌then◌else◌,
}
use skeys.Text.{Text, text_eq, codes}
use skeys.Text.Strings.{to_lower, contains, split, trim_space}
use skeys.Host.{Host, is_command_available}
use skeys.System.Network.{FirewallStatus, ufw, firewalld, no_firewall}

-- A port with these digits in it is taken for the port of SSH.
unfoldable pub lets_ssh_in : Text → Bool
unfolding contains to_lower
lets_ssh_in line =
    let low = to_lower line in
    (contains low (codes "22") || (contains low (codes "ssh") || contains low (codes "openssh")))
    && contains low (codes "allow")

unfoldable pub some_lets_in : List Text → Bool
unfolding lets_ssh_in
some_lets_in [] = false
some_lets_in (line ∷ lines) = lets_ssh_in line || some_lets_in lines

abbrev pub first_line : List Text → Text
first_line [] = []
first_line (line ∷ lines) = line

abbrev pub ufw_with : Bool → Bool → Text → FirewallStatus
ufw_with active allowed status = record {
  type = ufw;
  active = active;
  ssh_allowed = allowed;
  status_text = status;
}

unfoldable pub ufw_status : Text → FirewallStatus
unfolding trim_space split contains some_lets_in
ufw_status output =
    let status = trim_space (first_line (split b'\n' output)) in
    if contains output (codes "Status: active")
    then ufw_with true (some_lets_in (split b'\n' output)) status
    else ufw_with false (contains output (codes "Status: inactive")) status

module _ (h : Host) where
  unfoldable pub check_ufw : Option FirewallStatus
  unfolding ufw_status
  check_ufw =
      let a = h.run (codes "ufw") (codes "status" ∷ []) in
      if not (is_command_available h (codes "ufw"))
      then none
      else if a.succeeds
      then some (ufw_status a.stdout)
      else some (ufw_with false false (codes "ufw installed but status unknown"))

  -- The ports are only asked for where the services do not name SSH.
  abbrev pub firewalld_lets_in : Bool
  firewalld_lets_in =
      let services = h.run (codes "firewall-cmd") (codes "--list-services" ∷ []) in
      let ports = h.run (codes "firewall-cmd") (codes "--list-ports" ∷ []) in
      (services.succeeds && contains services.stdout (codes "ssh"))
      || (ports.succeeds && contains ports.stdout (codes "22/tcp"))

  unfoldable pub check_firewalld : Option FirewallStatus
  unfolding trim_space contains
  check_firewalld =
      let a = h.run (codes "firewall-cmd") (codes "--state" ∷ []) in
      let state = trim_space a.stdout in
      let runs = state == codes "running" in
      if not (is_command_available h (codes "firewall-cmd"))
      then none
      else if a.succeeds
      then some (record {
        type = firewalld;
        active = runs;
        ssh_allowed = runs && firewalld_lets_in;
        status_text = state;
      })
      else some (record {
        type = firewalld;
        active = false;
        ssh_allowed = true;
        status_text = codes "firewalld installed but not running";
      })

  abbrev pub status_or : Option FirewallStatus → FirewallStatus → FirewallStatus
  status_or none later = later
  status_or (some status) later = status

  unfoldable pub get_firewall_status : FirewallStatus
  unfolding check_ufw check_firewalld
  get_firewall_status = status_or check_ufw (
      status_or check_firewalld (record {
        type = no_firewall;
        active = false;
        ssh_allowed = true;
        status_text = codes "no firewall detected";
      }))
