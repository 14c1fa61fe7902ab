-- ===== src/ClientConfig/Globals.antt =====
-- The options outside of the blocks: GetGlobalDirectives reads the text of the file, while
-- SetGlobalDirective and DeleteGlobalDirective write all lines of the library again.
use skeys.Prelude.{
  Bool, true, false, not, ◌&&◌, ◌||◌, Option, none, some, List, [], ◌∷◌, ◌++◌, ◌==◌, nat_eq, Result,
  ok, err, if◌then◌else◌,
}
use skeys.Text.{Text, text_eq, codes}
use skeys.Text.Strings.{to_lower, trim_space, has_prefix, contains, split, cut}
use skeys.ServerConfig.{equal_fold}
use skeys.ClientConfig.{
  Library, Disk, ClientConfig, Outcome, ConfigError, read_failed, directive_not_found, Line, Child,
  option_line, is_block, save,
}

pub record GlobalDirective : Type 0 where
  pub key : Text
  pub value : Text

-- the key up to the first blank, and the value behind
abbrev pub key_and_value : Text → Option (Text × Text) → GlobalDirective
key_and_value line none = record { key = line; value = [] }
key_and_value line (some (k, v)) = record { key = k; value = trim_space v }

abbrev pub is_indented : Text → Bool
is_indented line = has_prefix line (codes " ") || has_prefix line (codes "\t")

unfoldable pub directives_of : List Text → List GlobalDirective
unfolding trim_space has_prefix cut to_lower
directives_of [] = []
directives_of (line ∷ lines) =
    let rest = directives_of lines in
    let word = trim_space line in
    let d = key_and_value word (cut b' ' word) in
    if word == [] || (has_prefix word (codes "#") || is_indented line)
    then rest
    else if is_block (to_lower d.key)
    then rest
    else d ∷ rest

unfoldable pub get_global_directives : Option Text → Result ConfigError (List GlobalDirective)
unfolding directives_of split
get_global_directives none = err read_failed
get_global_directives (some text) = ok (directives_of (split b'\n' text))

abbrev pub is_directive : Text → Line → Bool
is_directive key line = equal_fold line.key key && not (is_block (to_lower line.key))

unfoldable pub print_children : List Child → Text
print_children [] = []
print_children (c ∷ cs) = option_line c.key c.value ++ print_children cs

abbrev pub setting : Text → Text → Text
setting key value = key ++ b' ' ∷ (value ++ b'\n' ∷ [])

abbrev pub print_comment : Text → Text
print_comment comment = if comment == [] then [] else comment ++ b'\n' ∷ []

abbrev pub print_key : Line → Text
print_key line =
    if line.key == []
    then []
    else setting line.key line.value
      ++ (if is_block (to_lower line.key) then print_children line.children else [])

abbrev pub print_line : Line → Text
print_line line = print_comment line.comment ++ print_key line

abbrev pub begins_managed : Text → Bool
begins_managed comment = not (comment == []) && contains comment (codes "BEGIN skeys managed block")

-- The flag `found` is also set where the directive is put before the managed block.
unfoldable pub set_lines : Text → Text → Bool → List Line → Text
unfolding equal_fold to_lower print_children contains
set_lines key value found [] = if found then [] else setting key value
set_lines key value found (line ∷ lines) =
    let replaced = setting key value ++ set_lines key value true lines in
    let inserted =
      setting key value ++ (b'\n' ∷ (print_line line ++ set_lines key value true lines)) in
    let kept = print_line line ++ set_lines key value found lines in
    if is_directive key line
    then replaced
    else if not found && begins_managed line.comment
    then inserted
    else kept

unfoldable pub has_directive : Text → List Line → Bool
unfolding equal_fold to_lower
has_directive key [] = false
has_directive key (line ∷ lines) = is_directive key line || has_directive key lines

unfoldable pub delete_lines : Text → List Line → Text
unfolding equal_fold to_lower print_children
delete_lines key [] = []
delete_lines key (line ∷ lines) =
    let rest = delete_lines key lines in
    if is_directive key line then rest else print_line line ++ rest

module _ (l : Library) where
  unfoldable pub set_global_directive : Disk → Text → Text → ClientConfig l → Outcome l
  unfolding set_lines save
  set_global_directive d key value c =
      save l d (record c { config = l.parse_config (set_lines key value false (l.lines c.config)) })

  unfoldable pub delete_global_directive : Disk → Text → ClientConfig l → Outcome l
  unfolding has_directive delete_lines save
  delete_global_directive d key c =
      if has_directive key (l.lines c.config)
      then save l d (record c { config = l.parse_config (delete_lines key (l.lines c.config)) })
      else (err directive_not_found, c)
