-- ===== src/ClientConfig/Entries.antt =====
-- The entries of skeys-core/config/client.go: their options, the block that is written for one, and
-- what is read from the lines of a block. Keys of options are ASCII.
use skeys.Prelude.{
  ℕ, zero, suc, Bool, true, false, not, ◌&&◌, ◌||◌, Option, none, some, List, [], ◌∷◌, ◌++◌, ◌==◌,
  nat_eq, if◌then◌else◌,
}
use skeys.Text.{Text, text_eq, codes}
use skeys.Text.Strings.{to_lower, join, contains}
use skeys.Text.Decimal.{itoa, atoi}
use skeys.Text.Numbers.{ℤ, pos, negsuc, int_of}
use skeys.Map
use skeys.Map.{Map}

pub record SshOptions : Type 0 where
  pub hostname : Text
  pub user : Text
  pub port : ℤ
  pub identity_files : List Text
  pub proxy_jump : Text
  pub proxy_command : Text
  pub forward_agent : Bool
  pub identities_only : Bool
  pub strict_host_key_checking : Text
  pub server_alive_interval : ℤ
  pub server_alive_count_max : ℤ
  pub compression : Bool
  pub extra_options : Map Text Text

abbrev pub no_options : SshOptions
no_options = record {
  hostname = [];
  user = [];
  port = pos 0;
  identity_files = [];
  proxy_jump = [];
  proxy_command = [];
  forward_agent = false;
  identities_only = false;
  strict_host_key_checking = [];
  server_alive_interval = pos 0;
  server_alive_count_max = pos 0;
  compression = false;
  extra_options = [];
}

-- 1 for a Host block and 2 for a Match block
abbrev pub entry_type_host : ℕ
entry_type_host = 1

abbrev pub entry_type_match : ℕ
entry_type_match = 2

pub record SshConfigEntry : Type 0 where
  pub id : Text
  pub entry_type : ℕ
  pub position : ℕ
  pub patterns : List Text
  pub options : SshOptions

-- A HostEntry has all options but `Compression`, which is false in it.
pub record HostEntry : Type 0 where
  pub alias : Text
  pub options : SshOptions
  is_pattern : Bool
  pub line_number : ℕ

-- the lines that github.com/patrikkj/sshconf makes of a file
pub record Child : Type 0 where
  pub key : Text
  pub value : Text

pub record Line : Type 0 where
  pub key : Text
  pub value : Text
  pub comment : Text
  pub children : List Child

abbrev pub print_int : ℤ → Text
print_int (pos n) = itoa n
print_int (negsuc n) = b'-' ∷ itoa (suc n)

-- What `strconv.Atoi` answers beside an error: the nearest int64 for a number out of range, else 0.
abbrev nearest : Text → ℤ
nearest [] = pos 0
nearest (c ∷ s) =
    if c == b'-'
    then elim (atoi s) [ none ↦ pos 0 | some n ↦ negsuc 0x7fff_ffff_ffff_ffff ]
    else if c == b'+'
    then elim (atoi s) [ none ↦ pos 0 | some n ↦ pos 0x7fff_ffff_ffff_ffff ]
    else elim (atoi (c ∷ s)) [ none ↦ pos 0 | some n ↦ pos 0x7fff_ffff_ffff_ffff ]

abbrev or_nearest : Text → Option ℤ → ℤ
or_nearest s none = nearest s
or_nearest s (some n) = n

unfoldable pub parse_int : Text → ℤ
parse_int s = or_nearest s (int_of s)

abbrev pub is_yes : Text → Bool
is_yes v = to_lower v == codes "yes"

abbrev pub add_option : Text → Text → Text → SshOptions → SshOptions
add_option lower key value o =
    if lower == codes "hostname"
    then record o { hostname = value }
    else if lower == codes "user"
    then record o { user = value }
    else if lower == codes "port"
    then record o { port = parse_int value }
    else if lower == codes "identityfile"
    then record o { identity_files = o.identity_files ++ value ∷ [] }
    else if lower == codes "proxyjump"
    then record o { proxy_jump = value }
    else if lower == codes "proxycommand"
    then record o { proxy_command = value }
    else if lower == codes "forwardagent"
    then record o { forward_agent = is_yes value }
    else if lower == codes "identitiesonly"
    then record o { identities_only = is_yes value }
    else if lower == codes "stricthostkeychecking"
    then record o { strict_host_key_checking = value }
    else if lower == codes "serveraliveinterval"
    then record o { server_alive_interval = parse_int value }
    else if lower == codes "serveralivecountmax"
    then record o { server_alive_count_max = parse_int value }
    else if lower == codes "compression"
    then record o { compression = is_yes value }
    else record o { extra_options = Map.put key value o.extra_options }

unfoldable pub extract_from : SshOptions → List Child → SshOptions
unfolding to_lower parse_int
extract_from o [] = o
extract_from o (c ∷ cs) = extract_from (add_option (to_lower c.key) c.key c.value o) cs

unfoldable pub extract_options : List Child → SshOptions
unfolding extract_from
extract_options cs = extract_from no_options cs

abbrev pub option_line : Text → Text → Text
option_line key value = codes "    " ++ (key ++ b' ' ∷ (value ++ b'\n' ∷ []))

abbrev pub line_if : Bool → Text → Text → Text
line_if b key value = if b then option_line key value else []

unfoldable pub identity_lines : List Text → Text
identity_lines [] = []
identity_lines (f ∷ fs) = option_line (codes "IdentityFile") f ++ identity_lines fs

unfoldable pub extra_lines : Map Text Text → Text
extra_lines [] = []
extra_lines ((k, v) ∷ m) = option_line k v ++ extra_lines m

abbrev pub is_positive : ℤ → Bool
is_positive (pos zero) = false
is_positive (pos (suc n)) = true
is_positive (negsuc n) = false

abbrev pub is_zero : ℤ → Bool
is_zero (pos n) = n == 0
is_zero (negsuc n) = false

abbrev pub is_22 : ℤ → Bool
is_22 (pos n) = n == 22
is_22 (negsuc n) = false

abbrev pub shows_port : ℤ → Bool
shows_port p = not (is_zero p) && not (is_22 p)

-- `Match host a` or `Host a b`
unfoldable pub get_entry_header : SshConfigEntry → Text
unfolding join
get_entry_header e =
    (if e.entry_type == entry_type_match then codes "Match " else codes "Host ")
    ++ join (b' ' ∷ []) e.patterns

unfoldable pub build_entry_block : SshConfigEntry → Text
unfolding get_entry_header identity_lines extra_lines
build_entry_block e =
    let o = e.options in
    get_entry_header e
    ++ b'\n'
      ∷ (line_if (not (o.hostname == [])) (codes "HostName") o.hostname
          ++ (line_if (not (o.user == [])) (codes "User") o.user
              ++ (line_if (shows_port o.port) (codes "Port") (print_int o.port)
                  ++ (identity_lines o.identity_files
                      ++ (line_if (not (o.proxy_jump == [])) (codes "ProxyJump") o.proxy_jump
                          ++ (line_if (not (o.proxy_command == [])) (codes "ProxyCommand")
                                o.proxy_command
                              ++ (line_if o.forward_agent (codes "ForwardAgent") (codes "yes")
                                  ++ (line_if o.identities_only (codes "IdentitiesOnly")
                                        (codes "yes")
                                      ++ (line_if (not (o.strict_host_key_checking == []))
                                            (codes "StrictHostKeyChecking")
                                            o.strict_host_key_checking
                                          ++ (line_if (is_positive o.server_alive_interval)
                                                (codes "ServerAliveInterval")
                                                (print_int o.server_alive_interval)
                                              ++ (line_if (is_positive o.server_alive_count_max)
                                                    (codes "ServerAliveCountMax")
                                                    (print_int o.server_alive_count_max)
                                                  ++ (line_if o.compression (codes "Compression")
                                                        (codes "yes")
                                                      ++ extra_lines o.extra_options))))))))))))

abbrev first_of : List Text → Text
first_of [] = []
first_of (p ∷ ps) = p

unfoldable pub to_host_entry : SshConfigEntry → HostEntry
unfolding contains
to_host_entry e =
    let alias = first_of e.patterns in
    record {
      alias = alias;
      options = record (e.options) { compression = false };
      is_pattern = not (alias == []) && (contains alias (codes "*") || contains alias (codes "?"));
      line_number = e.position;
    }

unfoldable pub host_entry_to_ssh_config_entry : HostEntry → SshConfigEntry
host_entry_to_ssh_config_entry h = record {
  id = [];
  entry_type = entry_type_host;
  position = 0;
  patterns = h.alias ∷ [];
  options = record (h.options) { compression = false };
}

unfoldable pub id_text : ℕ → List Text → Text
id_text t ps = itoa t ++ b':' ∷ rest ps
  where
    rest : List Text → Text
    rest [] = []
    rest (p ∷ ps) = p ++ b':' ∷ rest ps
