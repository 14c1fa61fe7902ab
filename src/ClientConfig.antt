-- ===== src/ClientConfig.antt =====
-- skeys-core/config/client.go: the entries of ~/.ssh/config. The library github.com/patrikkj/sshconf,
-- the digest and what the disk does are parameters. A change is made in memory first and then saved.
mod Entries
mod State
pub mod Globals
pub mod Children
pub mod Extras
pub mod Options
pub mod Blocks
pub mod Saving
pub mod Tests
pub use skeys.ClientConfig.Entries.{
  SshOptions, SshConfigEntry, HostEntry, Child, Line, entry_type_host, entry_type_match, no_options,
  option_line,
}
unfoldable pub use skeys.ClientConfig.Entries.{
  extract_options, extract_from, get_entry_header, build_entry_block, to_host_entry,
  host_entry_to_ssh_config_entry, id_text, parse_int, identity_lines, extra_lines,
}
pub use skeys.ClientConfig.State.{
  ConfigError, entry_not_found, host_not_found, pattern_exists, unknown_entry, directive_not_found,
  backup_unread, backup_failed, mkdir_failed, write_failed, read_failed, parse_failed, Library,
  Disk, ClientConfig, Outcome, is_block, is_wildcard, type_of, entry_of, starts_with,
}
unfoldable pub use skeys.ClientConfig.State.{
  load, generate_entry_id, entries_from, list_entries, hosts_of, list, find_entry, get_entry,
  find_host, get,
}
use skeys.Prelude.{
  ℕ, ◌+◌, Bool, true, false, not, ◌&&◌, ◌||◌, Option, none, some, List, [], ◌∷◌, ◌++◌, ◌==◌, nat_eq,
  Result, ok, err, ◌>>=◌, take, if◌then◌else◌,
}
use skeys.Text.{Text, text_eq, codes}
use skeys.Text.Strings.{fields, to_lower}
use skeys.Files.{Write, succeeds, written}
use skeys.Map
use skeys.Map.{Map}

unfoldable pub has_pattern : List Text → List Text → Bool
has_pattern qs [] = false
has_pattern qs (p ∷ ps) = among p qs || has_pattern qs ps
  where
    among : Text → List Text → Bool
    among p [] = false
    among p (q ∷ qs) = p == q || among p qs

unfoldable pub is_taken : List Text → List SshConfigEntry → Bool
unfolding has_pattern
is_taken ps [] = false
is_taken ps (e ∷ es) =
    (e.entry_type == entry_type_host && has_pattern ps e.patterns) || is_taken ps es

-- `idMap[id]`: of two entries with one ID the later one stays in the map
unfoldable pub last_entry : Text → List SshConfigEntry → Option SshConfigEntry
last_entry id [] = none
last_entry id (e ∷ es) = elim (last_entry id es) [
  | some f ↦ some f
  | none ↦ if e.id == id then some e else none
]

unfoldable pub preamble : List Line → Text
unfolding to_lower
preamble [] = []
preamble (line ∷ lines) =
    let rest = preamble lines in
    if is_block (to_lower line.key)
    then []
    else (if line.comment == [] then [] else line.comment ++ b'\n' ∷ []) ++ rest

-- the blocks in the new order, if there is an entry for every ID
abbrev pub add_block : Option SshConfigEntry → Option Text → Option Text
add_block none rest = none
add_block (some e) none = none
add_block (some e) (some rest) = some (build_entry_block e ++ b'\n' ∷ rest)

unfoldable pub blocks_of : List Text → List SshConfigEntry → Option Text
unfolding last_entry
blocks_of [] es = some []
blocks_of (id ∷ ids) es = add_block (last_entry id es) (blocks_of ids es)

module _ (l : Library) where
  abbrev pub save_backed_up : Disk → ClientConfig l → Outcome l
  save_backed_up d c = if not d.mkdir_succeeds then (err mkdir_failed, c) else (
    (if succeeds d.config_write then ok tt else err write_failed),
    record c { file = written d.config_write (l.print c.config) },
  )

  abbrev pub after_backup : Disk → Text → ClientConfig l → Outcome l
  after_backup d text c =
      let kept = record c { backup = written d.backup_write text } in
      if succeeds d.backup_write then save_backed_up d kept else (err backup_failed, kept)

  abbrev pub save_file : Disk → Option Text → ClientConfig l → Outcome l
  save_file d none c = save_backed_up d c
  save_file d (some text) c = if d.readable then after_backup d text c else (err backup_unread, c)

  -- An error of `Chmod` is only logged.
  unfoldable pub save : Disk → ClientConfig l → Outcome l
  save d c = save_file d c.file c

  abbrev pub patched : SshConfigEntry → l.Config → l.Config
  patched e config = l.patch (get_entry_header e) (build_entry_block e) config

  -- The position that is asked for is not used.
  unfoldable pub add_entry : Disk → SshConfigEntry → ClientConfig l → Outcome l
  unfolding list_entries is_taken save
  add_entry d e c =
      if e.entry_type == entry_type_host && is_taken e.patterns (list_entries l c)
      then (err pattern_exists, c)
      else save d (record c { config = patched e c.config })

  unfoldable pub add : Disk → HostEntry → ClientConfig l → Outcome l
  unfolding add_entry
  add d h c = add_entry d (host_entry_to_ssh_config_entry h) c

  abbrev pub replace : Disk → SshConfigEntry → ClientConfig l → Option SshConfigEntry → Outcome l
  replace d e c none = (err entry_not_found, c)
  replace d e c (some old) =
      save d (record c { config = patched e (l.delete (get_entry_header old) c.config) })

  unfoldable pub update_entry : Disk → Text → SshConfigEntry → ClientConfig l → Outcome l
  unfolding get_entry save
  update_entry d id e c = replace d e c (get_entry l id c)

  abbrev pub update_host : Disk → Text → HostEntry → ClientConfig l → Option HostEntry → Outcome l
  update_host d alias h c none = (err host_not_found, c)
  update_host d alias h c (some existing) =
      update_entry d (generate_entry_id l entry_type_host (existing.alias ∷ []))
        (record (host_entry_to_ssh_config_entry h) { patterns = alias ∷ [] }) c

  unfoldable pub update : Disk → Text → HostEntry → ClientConfig l → Outcome l
  unfolding get update_entry
  update d alias h c = update_host d alias h c (get l alias c)

  abbrev pub delete_found : Disk → ClientConfig l → Option SshConfigEntry → Outcome l
  delete_found d c none = (err entry_not_found, c)
  delete_found d c (some e) = save d (record c { config = l.delete (get_entry_header e) c.config })

  unfoldable pub delete_entry : Disk → Text → ClientConfig l → Outcome l
  unfolding get_entry save
  delete_entry d id c = delete_found d c (get_entry l id c)

  unfoldable pub delete : Disk → Text → ClientConfig l → Outcome l
  unfolding save
  delete d alias c = save d (record c { config = l.delete (codes "Host " ++ alias) c.config })

  abbrev pub reorder_blocks : Disk → ClientConfig l → Option Text → Outcome l
  reorder_blocks d c none = (err unknown_entry, c)
  reorder_blocks d c (some blocks) =
      save d (record c { config = l.parse_config (preamble (l.lines c.config) ++ blocks) })

  unfoldable pub reorder : Disk → List Text → ClientConfig l → Outcome l
  unfolding list_entries blocks_of preamble save
  reorder d ids c = reorder_blocks d c (blocks_of ids (list_entries l c))
