-- ===== src/ServerConfig/Parsing.antt =====
-- What the parser of skeys-core/config/server.go makes of the text of sshd_config.
use skeys.Prelude.{
  ℕ, suc, Bool, true, false, ◌&&◌, ◌||◌, Option, none, some, List, [], ◌∷◌, ◌==◌, nat_eq, leb,
  Result, ok, err, if◌then◌else◌,
}
use skeys.Text.{Text, text_eq, codes}
use skeys.Text.Strings.{to_lower, trim_space, trim_prefix, has_prefix, scan_lines}

pub data ServerError : Type 0 where
  read_failed line_too_long write_failed executor_required validation_failed command_failed :
      ServerError

pub record ServerDirective : Type 0 where
  pub key : Text
  pub value : Text
  pub line_number : ℕ
  pub is_commented : Bool
  -- not empty inside of a Match block
  pub match_block : Text

pub record ServerConfig : Type 0 where
  pub directives : List ServerDirective
  pub raw_content : Text

-- `regexp` classes: `\w` and `\s`
abbrev is_word : ℕ → Bool
is_word c =
    (leb b'0' c && leb c b'9')
    || (leb b'A' c && leb c b'Z')
    || (leb b'a' c && leb c b'z')
    || c == b'_'

abbrev pub is_blank : ℕ → Bool
is_blank c = c == 9 || c == 10 || c == 12 || c == 13 || c == 32

unfoldable pub drop_blanks : Text → Text
drop_blanks [] = []
drop_blanks (c ∷ s) = let rest = drop_blanks s in if is_blank c then rest else c ∷ s

unfoldable pub take_word : Text → Text × Text
take_word [] = ([], [])
take_word (c ∷ s) =
    let rest = take_word s in if is_word c then (c ∷ rest.0, rest.1) else ([], c ∷ s)

abbrev value_behind : Text → Text → Option (Text × Text)
value_behind key [] = none
value_behind key (c ∷ s) = some (key, c ∷ s)

abbrev key_and_value : Text × Text → Option (Text × Text)
key_and_value ([], rest) = none
key_and_value (k ∷ ks, []) = none
key_and_value (k ∷ ks, c ∷ rest) =
    if is_blank c then value_behind (k ∷ ks) (drop_blanks rest) else none

-- `^(\w+)\s+(.+)$` on a trimmed line
unfoldable pub directive_of : Text → Option (Text × Text)
unfolding take_word drop_blanks
directive_of line = key_and_value (take_word line)

-- `^#\s*(\w+)\s+(.+)$` on a trimmed line
unfoldable pub commented_of : Text → Option (Text × Text)
unfolding directive_of
commented_of [] = none
commented_of (c ∷ s) = let inner = directive_of (drop_blanks s) in if c == b'#' then inner else none

abbrev push_directive :
    ℕ → Text → Bool → Option (Text × Text) → List ServerDirective → List ServerDirective
push_directive n block commented none ds = ds
push_directive n block commented (some (k, v)) ds =
    record { key = k; value = v; line_number = n; is_commented = commented; match_block = block }
    ∷ ds

abbrev push_line :
    ℕ → Text → Text → Option (Text × Text) → List ServerDirective → List ServerDirective
push_line n block line none ds =
    if has_prefix line (codes "#") then ds else push_directive n block false (directive_of line) ds
push_line n block line (some kv) ds = push_directive n block true (some kv) ds

abbrev pub is_match : Text → Bool
is_match line = has_prefix (to_lower line) (codes "match ")

-- the loop of `parse`, with the block that it is in
unfoldable pub directives_of : ℕ → Text → List Text → List ServerDirective
unfolding directive_of commented_of to_lower
directives_of n block [] = []
directives_of n block (raw ∷ lines) =
    let line = trim_space raw in
    let same = directives_of (suc n) block lines in
    let inner =
      directives_of (suc n) (trim_prefix (trim_prefix line (codes "Match ")) (codes "match "))
        lines in
    if line == []
    then same
    else if is_match line
    then inner
    else push_line n block line (commented_of line) same

unfoldable pub parse : Text → Result ServerError ServerConfig
unfolding directives_of
parse content =
    if (scan_lines content).1
    then err line_too_long
    else ok
        (record { directives = directives_of 1 [] (scan_lines content).0; raw_content = content })
