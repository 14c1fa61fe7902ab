-- ===== src/System/Network.antt =====
-- skeys-core/system/network.go: the port of the SSH server, the addresses of the machine and its firewall.
use skeys.Prelude.{
  ℕ, Bool, not, ◌&&◌, ◌||◌, Option, none, some, List, [], ◌∷◌, ◌++◌, ◌==◌, nat_eq, take, drop,
  if◌then◌else◌,
}
use skeys.Text.{Text, text_eq, codes}
use skeys.Text.Decimal.{is_digit}
use skeys.Text.Numbers.{ℤ, pos, int_of}
use skeys.Text.Strings.{to_lower, has_prefix, trim_space, scan_lines}
use skeys.Keys.Naming.{has_suffix}
use skeys.Host.{Host}

pub record Interface : Type 0 where
  pub is_loopback : Bool
  pub is_up : Bool
  -- the addresses, each with the answer of IsLoopback, or none where it has no IP
  pub addrs : Option (List (Option (Text × Bool)))

pub record Machine : Type 0 where
  pub host : Host
  pub hostname : Option Text
  pub interfaces : Option (List Interface)
  -- the names in a directory, and whether each is a directory
  pub read_dir : Text → Option (List (Text × Bool))

pub record NetworkInfo : Type 0 where
  pub hostname : Text
  pub ip_addresses : List Text
  pub ssh_port : ℤ

pub data FirewallType : Type 0 where
  unspecified ufw firewalld iptables no_firewall : FirewallType

pub record FirewallStatus : Type 0 where
  pub type : FirewallType
  pub active : Bool
  pub ssh_allowed : Bool
  pub status_text : Text

-- The regular expression `(?i)^\s*Port\s+(\d+)`: the digits that it finds.
abbrev pub is_blank : ℕ → Bool
is_blank c = c == 9 || (c == 10 || (c == 12 || (c == 13 || c == 32)))

unfoldable pub skip_blank : Text → Text
skip_blank [] = []
skip_blank (c ∷ s) = let rest = skip_blank s in if is_blank c then rest else c ∷ s

unfoldable pub leading_digits : Text → Text
unfolding is_digit
leading_digits [] = []
leading_digits (c ∷ s) = let rest = leading_digits s in if is_digit c then c ∷ rest else []

abbrev pub some_digits : Text → Option Text
some_digits [] = none
some_digits (c ∷ s) = some (c ∷ s)

unfoldable pub digits_behind : Text → Option Text
unfolding skip_blank leading_digits
digits_behind [] = none
digits_behind (c ∷ s) = if is_blank c then some_digits (leading_digits (skip_blank s)) else none

unfoldable pub find_port : Text → Option Text
unfolding skip_blank to_lower digits_behind
find_port line =
    let body = skip_blank line in
    if to_lower (take 4 body) == codes "port" then digits_behind (drop 4 body) else none

abbrev pub number_of : Option Text → Option ℤ
number_of none = none
number_of (some digits) = int_of digits

unfoldable pub port_of_line : Text → Option ℤ
unfolding has_prefix trim_space find_port int_of
port_of_line line =
    if has_prefix (trim_space line) (codes "#") then none else number_of (find_port line)

abbrev pub first_of : Option ℤ → Option ℤ → Option ℤ
first_of none later = later
first_of (some p) later = some p

unfoldable pub port_of_lines : List Text → Option ℤ
unfolding port_of_line
port_of_lines [] = none
port_of_lines (line ∷ lines) = first_of (port_of_line line) (port_of_lines lines)

abbrev pub port_of_file : Option Text → Option ℤ
port_of_file none = none
port_of_file (some text) = port_of_lines (scan_lines text).0

abbrev pub port_or : Option ℤ → ℤ → ℤ
port_or none later = later
port_or (some p) later = p

unfoldable pub port_of_files : Host → List Text → ℤ
unfolding port_of_lines scan_lines
port_of_files h [] = pos 22
port_of_files h (path ∷ paths) = port_or (port_of_file (h.open_file path)) (port_of_files h paths)

unfoldable pub included : List (Text × Bool) → List Text
unfolding has_suffix
included [] = []
included ((name, is_dir) ∷ entries) =
    let rest = included entries in
    if not is_dir && has_suffix name (codes ".conf")
    then (codes "/etc/ssh/sshd_config.d/" ++ name) ∷ rest
    else rest

abbrev pub included_in : Option (List (Text × Bool)) → List Text
included_in none = []
included_in (some entries) = included entries

unfoldable pub get_ssh_port : Machine → ℤ
unfolding port_of_files included
get_ssh_port m =
    port_of_files m.host
      (codes "/etc/ssh/sshd_config" ∷ included_in (m.read_dir (codes "/etc/ssh/sshd_config.d")))

abbrev pub address : Option (Text × Bool) → List Text
address none = []
address (some (ip, is_loopback)) = if is_loopback then [] else ip ∷ []

unfoldable pub addresses : List (Option (Text × Bool)) → List Text
addresses [] = []
addresses (a ∷ as_) = address a ++ addresses as_

abbrev pub addresses_of : Option (List (Option (Text × Bool))) → List Text
addresses_of none = []
addresses_of (some addrs) = addresses addrs

unfoldable pub interface_addresses : List Interface → List Text
unfolding addresses
interface_addresses [] = []
interface_addresses (i ∷ interfaces) =
    let rest = interface_addresses interfaces in
    if i.is_loopback || not i.is_up then rest else addresses_of i.addrs ++ rest

abbrev pub get_ip_addresses : Option (List Interface) → List Text
get_ip_addresses none = []
get_ip_addresses (some interfaces) = interface_addresses interfaces

abbrev pub hostname_or_empty : Option Text → Text
hostname_or_empty none = []
hostname_or_empty (some name) = name

unfoldable pub get_network_info : Machine → NetworkInfo
unfolding interface_addresses get_ssh_port
get_network_info m = record {
  hostname = hostname_or_empty m.hostname;
  ip_addresses = get_ip_addresses m.interfaces;
  ssh_port = get_ssh_port m;
}
