-- ===== src/SshConfig.antt =====
-- skeys-core/sshconfig/manager.go: the block that the program manages in ~/.ssh/config. The state is
-- the configuration file and its backup, `none` for a file that does not exist; what the file system
-- does during one call is a `Disk`.
pub mod Blocks
pub mod Enabling
pub mod Backup
pub mod Disabling
mod Tests
use skeys.Prelude.{
  Bool, true, false, Option, none, some, List, [], ◌∷◌, ◌++◌, ◌==◌, Result, ok, err, ◌>>=◌,
  if◌then◌else◌,
}
use skeys.Text.{Text, text_eq, codes}
use skeys.Text.Strings.{is_space, trim_space, split, join, contains, scan_lines, has_prefix, fields}
use skeys.Files.{Write, complete, broken, written}

pub data ConfigError : Type 0 where
  read_failed mkdir_failed backup_failed write_failed line_too_long : ConfigError

pub record Manager : Type 0 where
  pub agent_socket : Text
  -- the file at `configPath`
  pub config : Option Text
  -- the file at `configPath` + ".skeys.bak"
  pub backup : Option Text

pub record Disk : Type 0 where
  -- a file that exists can be read
  pub readable : Bool
  pub mkdir_succeeds : Bool
  pub backup_write : Write
  pub config_write : Write

abbrev pub begin_marker : Text
begin_marker = codes "# BEGIN skeys managed block"

abbrev pub end_marker : Text
end_marker = codes "# END skeys managed block"

-- No file reads as the empty text, which is what `Enable` makes of `os.IsNotExist`.
abbrev content_or_empty : Option Text → Text
content_or_empty none = []
content_or_empty (some text) = text

unfoldable pub read_config : Disk → Manager → Result ConfigError (Option Text)
read_config d m = elim m.config [
  | none ↦ ok none
  | some text ↦ if d.readable then ok (some text) else err read_failed
]

abbrev enabled_of : Option Text → Bool
enabled_of none = false
enabled_of (some text) = contains text begin_marker

unfoldable pub is_enabled : Disk → Manager → Result ConfigError Bool
unfolding read_config
is_enabled d m = do content ← read_config d m; ok (enabled_of content)

unfoldable pub build_managed_block : Manager → Text
build_managed_block m =
    begin_marker
    ++ (b'\n'
        ∷ (codes "Host *"
            ++ (b'\n' ∷ (codes "    IdentityAgent " ++ (m.agent_socket ++ (b'\n' ∷ end_marker))))))

-- the loop over the lines: whether it is in a block, and the lines it keeps, with `changed`
unfoldable pub filter_lines : Bool → List Text → List Text × Bool
unfolding trim_space
filter_lines in_block [] = ([], false)
filter_lines in_block (line ∷ lines) =
    let inside = filter_lines true lines in
    let outside = filter_lines false lines in
    if trim_space line == begin_marker
    then (inside.0, true)
    else if trim_space line == end_marker
    then outside
    else if in_block
    then inside
    else (line ∷ outside.0, outside.1)

unfoldable pub drop_blank : List Text → List Text
drop_blank [] = []
drop_blank (line ∷ lines) =
    let rest = drop_blank lines in if trim_space line == [] then rest else line ∷ lines

unfoldable pub remove_managed_block : Text → Text × Bool
unfolding filter_lines drop_blank
remove_managed_block content =
    let kept = filter_lines false (split b'\n' content) in
    (join (b'\n' ∷ []) (drop_blank kept.0), kept.1)

abbrev Outcome : Type 0
Outcome = Result ConfigError (Unit {0}) × Manager

abbrev write_main : Write → Text → Manager → Outcome
write_main complete text m = (ok tt, record m { config = some text })
write_main (broken left) text m = (err write_failed, record m { config = left })

-- The backup is written first, and only if it is complete the file is.
abbrev back_up_then : Disk → Write → Text → Text → Manager → Outcome
back_up_then d complete old text m = write_main d.config_write text (record m { backup = some old })
back_up_then d (broken left) old text m = (err backup_failed, record m { backup = left })

abbrev write_over : Disk → Option Text → Text → Manager → Outcome
write_over d none text m = write_main d.config_write text m
write_over d (some old) text m =
    if d.readable then back_up_then d d.backup_write old text m else (err read_failed, m)

unfoldable pub write_config : Disk → Text → Manager → Outcome
write_config d text m = write_over d m.config text m

abbrev prepended : Text → Text → Text
prepended block content = if content == [] then block else block ++ b'\n' ∷ content

abbrev enable_with : Disk → Result ConfigError (Option Text) → Manager → Outcome
enable_with d (err e) m = (err e, m)
enable_with d (ok content) m =
    write_config d (prepended (build_managed_block m) (content_or_empty content)) m

abbrev enable_unless : Disk → Result ConfigError Bool → Manager → Outcome
enable_unless d (err e) m = (err e, m)
enable_unless d (ok true) m = (ok tt, m)
enable_unless d (ok false) m =
    if d.mkdir_succeeds then enable_with d (read_config d m) m else (err mkdir_failed, m)

pub enable : Disk → Manager → Outcome
unfolding write_config build_managed_block read_config
enable d m = enable_unless d (is_enabled d m) m

abbrev write_changed : Disk → Text × Bool → Manager → Outcome
write_changed d (text, changed) m = if changed then write_config d text m else (ok tt, m)

abbrev disable_with : Disk → Result ConfigError (Option Text) → Manager → Outcome
disable_with d (err e) m = (err e, m)
disable_with d (ok none) m = (ok tt, m)
disable_with d (ok (some content)) m = write_changed d (remove_managed_block content) m

pub disable : Disk → Manager → Outcome
unfolding write_config remove_managed_block
disable d m = disable_with d (read_config d m) m

abbrev validate_content : Option Text → Result ConfigError (Unit {0})
validate_content none = ok tt
validate_content (some text) = if (scan_lines text).1 then err line_too_long else ok tt

-- The checks on each line only write warnings to the log.
validate_config : Disk → Manager → Result ConfigError (Unit {0})
validate_config d m = do content ← read_config d m; validate_content content
