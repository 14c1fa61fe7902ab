-- ===== src/ClientConfig/State.antt =====
-- The configuration that is kept of ~/.ssh/config, and the queries on its entries.
use skeys.ClientConfig.Entries.{SshConfigEntry, HostEntry, Line, entry_type_host, entry_type_match}
use skeys.ClientConfig.Entries.{extract_options, to_host_entry, id_text}
use skeys.Prelude.{
  ℕ, ◌+◌, Bool, false, not, ◌&&◌, ◌||◌, Option, none, some, List, [], ◌∷◌, ◌==◌, nat_eq, Result, ok,
  err, take, if◌then◌else◌,
}
use skeys.Text.{Text, text_eq, codes}
use skeys.Text.Strings.{fields, to_lower}
use skeys.Files.{Write}

pub data ConfigError : Type 0 where
  entry_not_found host_not_found pattern_exists unknown_entry directive_not_found backup_unread
        backup_failed mkdir_failed write_failed read_failed parse_failed :
      ConfigError

pub record Library : Type 1 where
  pub Config : Type 0
  -- `ParseConfig`, `ParseConfigFile` on a file that is there, and what `WriteFile` writes
  pub parse_config : Text → Config
  pub parse_config_file : Text → Option Config
  pub print : Config → Text
  pub lines : Config → List Line
  pub patch : Text → Text → Config → Config
  pub delete : Text → Config → Config
  -- the digest SHA-256 in hexadecimal
  pub sha256_hex : Text → Text

-- what the disk does in one call
pub record Disk : Type 0 where
  pub readable : Bool
  pub mkdir_succeeds : Bool
  pub backup_write : Write
  pub config_write : Write

abbrev pub is_star : List Text → Bool
is_star [] = false
is_star (p ∷ []) = p == codes "*"
is_star (p ∷ q ∷ ps) = false

abbrev pub is_block : Text → Bool
is_block lower = lower == codes "host" || lower == codes "match"

abbrev pub is_wildcard : ℕ → List Text → Bool
is_wildcard t ps = t == entry_type_host && is_star ps

abbrev pub type_of : Text → ℕ
type_of lower = if lower == codes "match" then entry_type_match else entry_type_host

unfoldable pub hosts_of : List SshConfigEntry → List HostEntry
unfolding to_host_entry
hosts_of [] = []
hosts_of (e ∷ es) =
    let rest = hosts_of es in
    if e.entry_type == entry_type_host then to_host_entry e ∷ rest else rest

unfoldable pub find_entry : Text → List SshConfigEntry → Option SshConfigEntry
find_entry id [] = none
find_entry id (e ∷ es) = let later = find_entry id es in if e.id == id then some e else later

abbrev pub starts_with : Text → List Text → Bool
starts_with alias [] = false
starts_with alias (p ∷ ps) = p == alias

unfoldable pub find_host : Text → List SshConfigEntry → Option HostEntry
unfolding to_host_entry
find_host alias [] = none
find_host alias (e ∷ es) =
    let later = find_host alias es in
    if e.entry_type == entry_type_host && starts_with alias e.patterns
    then some (to_host_entry e)
    else later

module _ (l : Library) where
  -- the configuration in memory, the file and its backup
  pub record ClientConfig : Type 0 where
    pub config : l.Config
    pub file : Option Text
    pub backup : Option Text

  abbrev pub Outcome : Type 0
  Outcome = Result ConfigError (Unit {0}) × ClientConfig

  abbrev with_parsed : ClientConfig → Option l.Config → Outcome
  with_parsed c none = (err parse_failed, c)
  with_parsed c (some config) = (ok tt, record c { config = config })

  unfoldable pub load : ClientConfig → Outcome
  load c = elim c.file [
    | none ↦ (ok tt, record c { config = l.parse_config [] })
    | some text ↦ with_parsed c (l.parse_config_file text)
  ]

  unfoldable pub generate_entry_id : ℕ → List Text → Text
  unfolding id_text
  generate_entry_id t ps = take 12 (l.sha256_hex (id_text t ps))

  abbrev pub entry_of : ℕ → Line → SshConfigEntry
  entry_of position line =
      let t = type_of (to_lower line.key) in
      let ps = fields line.value in
      record {
        id = generate_entry_id t ps;
        entry_type = t;
        position = position;
        patterns = ps;
        options = extract_options line.children;
      }

  -- A Host block of `*` alone is not listed.
  unfoldable pub entries_from : ℕ → List Line → List SshConfigEntry
  unfolding to_lower fields extract_options generate_entry_id
  entries_from position [] = []
  entries_from position (line ∷ lines) =
      let skipped = entries_from position lines in
      let listed = entry_of position line ∷ entries_from (position + 1) lines in
      if not (is_block (to_lower line.key))
      then skipped
      else if is_wildcard (type_of (to_lower line.key)) (fields line.value)
      then skipped
      else listed

  unfoldable pub list_entries : ClientConfig → List SshConfigEntry
  unfolding entries_from
  list_entries c = entries_from 0 (l.lines c.config)

  unfoldable pub list : ClientConfig → List HostEntry
  unfolding list_entries hosts_of
  list c = hosts_of (list_entries c)

  unfoldable pub get_entry : Text → ClientConfig → Option SshConfigEntry
  unfolding list_entries find_entry
  get_entry id c = find_entry id (list_entries c)

  unfoldable pub get : Text → ClientConfig → Option HostEntry
  unfolding list_entries find_host
  get alias c = find_host alias (list_entries c)
