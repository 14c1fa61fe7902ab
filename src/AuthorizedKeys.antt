-- ===== src/AuthorizedKeys.antt =====
-- skeys-core/hosts/authorized_keys.go: the file ~/.ssh/authorized_keys, `none` where it does not
-- exist. What the file system does during one call is a `Disk`.
pub mod Options
pub mod Lines
pub mod Listing
pub mod Editing
mod Tests
use skeys.Prelude.{
  ℕ, suc, ◌+◌, Bool, true, false, not, ◌||◌, Option, none, some, List, [], ◌∷◌, ◌++◌, ◌==◌, nat_eq,
  Result, ok, err, if◌then◌else◌,
}
use skeys.Text.{Text, text_eq, codes}
use skeys.Text.Decimal.{itoa}
use skeys.Text.Strings.{trim_space, join, has_prefix, fields, scan_lines}
use skeys.Files.{Write, complete, broken}

pub data KeysError : Type 0 where
  open_failed mkdir_failed write_failed line_too_long : KeysError

pub record AuthorizedKey : Type 0 where
  pub id : Text
  pub key_type : Text
  -- never filled in
  pub fingerprint : Text
  pub comment : Text
  pub public_key : Text
  pub options : List Text
  pub line_number : ℕ

pub record Disk : Type 0 where
  pub readable : Bool
  pub mkdir_succeeds : Bool
  pub openable : Bool
  pub file_write : Write

-- the loop of `parseOptions`, with the quote flag and the option that is being read
unfoldable pub options_from : Bool → Text → Text → List Text
options_from in_quote current [] = if current == [] then [] else current ∷ []
options_from in_quote current (c ∷ s) =
    let quoted = options_from (not in_quote) (current ++ c ∷ []) s in
    let longer = options_from in_quote (current ++ c ∷ []) s in
    let skipped = options_from in_quote current s in
    let ended = options_from in_quote [] s in
    if c == b'"'
    then quoted
    else if c == b','
    then (if in_quote then longer else if current == [] then skipped else current ∷ ended)
    else longer

unfoldable pub parse_options : Text → List Text
unfolding options_from
parse_options s = options_from false [] s

unfoldable pub starts_key : Text → Bool
unfolding has_prefix
starts_key s =
    has_prefix s (codes "ssh-") || has_prefix s (codes "ecdsa-") || has_prefix s (codes "sk-")

-- the fields behind the options
abbrev key_of_fields : Text → ℕ → List Text → List Text → Option AuthorizedKey
key_of_fields line n options [] = none
key_of_fields line n options (t ∷ []) = none
key_of_fields line n options (t ∷ key ∷ comment) = some (record {
  id = itoa n;
  key_type = t;
  fingerprint = [];
  comment = join (b' ' ∷ []) comment;
  public_key = line;
  options = options;
  line_number = n;
})

abbrev parse_fields : Text → ℕ → List Text → Option AuthorizedKey
parse_fields line n [] = none
parse_fields line n (p ∷ []) = none
parse_fields line n (p ∷ q ∷ ps) =
    if starts_key p
    then key_of_fields line n [] (p ∷ q ∷ ps)
    else key_of_fields line n (parse_options p) (q ∷ ps)

unfoldable pub parse_line : Text → ℕ → Option AuthorizedKey
unfolding starts_key parse_options
parse_line line n = parse_fields line n (fields line)

abbrev pub push_some : {A : Type 0} → Option A → List A → List A
push_some none xs = xs
push_some (some x) xs = x ∷ xs

abbrev pub is_skipped : Text → Bool
is_skipped line = line == [] || has_prefix line (codes "#")

-- the loop of `List`, with the number of the first line
unfoldable pub keys_of_lines : ℕ → List Text → List AuthorizedKey
unfolding parse_line
keys_of_lines n [] = []
keys_of_lines n (raw ∷ lines) =
    let rest = keys_of_lines (suc n) lines in
    if is_skipped (trim_space raw) then rest else push_some (parse_line (trim_space raw) n) rest

abbrev error_if : Bool → Option KeysError
error_if true = some line_too_long
error_if false = none

-- Keys and an error: a line that is too long ends the list with both.
abbrev pub list_text : Text → List AuthorizedKey × Option KeysError
list_text text = (keys_of_lines 1 (scan_lines text).0, error_if (scan_lines text).1)

unfoldable pub list : Disk → Option Text → List AuthorizedKey × Option KeysError
unfolding keys_of_lines
list d none = ([], none)
list d (some text) = if d.readable then list_text text else ([], some open_failed)

abbrev Outcome : Type 0
Outcome = Result KeysError (Unit {0}) × Option Text

abbrev pub text_or_empty : Option Text → Text
text_or_empty none = []
text_or_empty (some text) = text

abbrev write_text : Write → Text → Outcome
write_text complete text = (ok tt, some text)
write_text (broken left) text = (err write_failed, left)

abbrev pub key_line : Text → List Text → Text
key_line public_key [] = public_key
key_line public_key (o ∷ os) = join (b',' ∷ []) (o ∷ os) ++ b' ' ∷ public_key

pub add : Disk → Text → List Text → Option Text → Outcome
add d public_key options file =
    if not d.mkdir_succeeds
    then (err mkdir_failed, file)
    else if not d.openable
    then (err open_failed, file)
    else write_text d.file_write (text_or_empty file ++ (key_line public_key options ++ b'\n' ∷ []))

-- the lines, each with a line break
abbrev pub file_of_lines : List Text → Text
file_of_lines [] = []
file_of_lines (l ∷ ls) = join (b'\n' ∷ []) (l ∷ ls) ++ b'\n' ∷ []

unfoldable pub without_line : ℕ → List AuthorizedKey → List Text
without_line n [] = []
without_line n (k ∷ ks) =
    let rest = without_line n ks in if k.line_number == n then rest else k.public_key ∷ rest

abbrev rewrite :
    Disk
    → (List AuthorizedKey → List Text)
    → List AuthorizedKey × Option KeysError
    → Option Text
    → Outcome
rewrite d f (keys, some e) file = (err e, file)
rewrite d f (keys, none) file = write_text d.file_write (file_of_lines (f keys))

pub remove : Disk → ℕ → Option Text → Outcome
unfolding list without_line
remove d n file = rewrite d (without_line n) (list d file) file

-- the fields behind the options, if a key had any
abbrev pub behind_options : List Text → List Text → List Text
behind_options [] parts = parts
behind_options (o ∷ os) [] = []
behind_options (o ∷ os) (p ∷ ps) = ps

abbrev pub bare_key : AuthorizedKey → Text
bare_key k = join (b' ' ∷ []) (behind_options k.options (fields k.public_key))

unfoldable pub with_options : ℕ → List Text → List AuthorizedKey → List Text
with_options n options [] = []
with_options n options (k ∷ ks) =
    let rest = with_options n options ks in
    if k.line_number == n then key_line (bare_key k) options ∷ rest else k.public_key ∷ rest

pub update : Disk → ℕ → List Text → Option Text → Outcome
unfolding list with_options
update d n options file = rewrite d (with_options n options) (list d file) file
