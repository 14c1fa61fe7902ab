-- ===== src/ServerConfig.antt =====
-- skeys-core/config/server.go: the directives of sshd_config. The file is read and written by a
-- privilege executor or by the package os; what they answer in one call is a `Disk`.
mod Parsing
pub mod Updating
mod Tests
use skeys.Prelude.{
  ℕ, ◌+◌, Bool, true, false, not, ◌&&◌, ◌||◌, Option, none, some, List, [], ◌∷◌, ◌++◌, ◌==◌, nat_eq,
  leb, Result, ok, err, if◌then◌else◌,
}
use skeys.Text.{Text, text_eq, codes}
use skeys.Text.Strings.{to_lower, split, join}
use skeys.Text.Numbers.{ℤ, pos, int_of}
use skeys.Files.{Write, complete, broken}
pub use skeys.ServerConfig.Parsing.{
  ServerError, ServerDirective, ServerConfig, is_blank, read_failed, line_too_long, write_failed,
  executor_required, validation_failed, command_failed,
}
unfoldable pub use skeys.ServerConfig.Parsing.{directives_of, parse}

-- Letters that differ in case only are the same. One side is ASCII, where the only other letters are
-- the long s and the Kelvin sign.
unfoldable pub fold : ℕ → ℕ
fold c =
    if leb b'A' c && leb c b'Z'
    then c + 32
    else if c == 0x17f
    then b's'
    else if c == 0x212a
    then b'k'
    else c

unfoldable pub equal_fold : Text → Text → Bool
unfolding fold
equal_fold [] [] = true
equal_fold [] (d ∷ t) = false
equal_fold (c ∷ s) [] = false
equal_fold (c ∷ s) (d ∷ t) = fold c == fold d && equal_fold s t

unfoldable pub has_prefix_fold : Text → Text → Option Text
unfolding fold
has_prefix_fold s [] = some s
has_prefix_fold [] (d ∷ p) = none
has_prefix_fold (c ∷ s) (d ∷ p) =
    let rest = has_prefix_fold s p in if fold c == fold d then rest else none

unfoldable pub get_directive : Text → List ServerDirective → Option Text
unfolding equal_fold
get_directive key [] = none
get_directive key (d ∷ ds) =
    if equal_fold d.key key && not d.is_commented && d.match_block == []
    then some d.value
    else get_directive key ds

abbrev push_port : Option ℤ → List ℤ → List ℤ
push_port none ps = ps
push_port (some p) ps = p ∷ ps

unfoldable pub ports_of : List ServerDirective → List ℤ
unfolding equal_fold
ports_of [] = []
ports_of (d ∷ ds) =
    let rest = ports_of ds in
    if equal_fold d.key (codes "Port") && not d.is_commented
    then push_port (int_of d.value) rest
    else rest

abbrev or_port_22 : List ℤ → List ℤ
or_port_22 [] = pos 22 ∷ []
or_port_22 (p ∷ ps) = p ∷ ps

unfoldable pub get_port : ServerConfig → List ℤ
unfolding ports_of
get_port c = or_port_22 (ports_of c.directives)

abbrev is_yes : Option Text → Option Bool
is_yes none = none
is_yes (some v) = some (to_lower v == codes "yes")

unfoldable pub get_bool : Text → ServerConfig → Option Bool
unfolding get_directive
get_bool key c = is_yes (get_directive key c.directives)

-- `\s+` behind the key
abbrev blank_follows : Option Text → Bool
blank_follows none = false
blank_follows (some []) = false
blank_follows (some (c ∷ s)) = is_blank c

-- `\s*` and the key, with the ways in which the blanks can be shared
unfoldable pub key_follows : Text → Text → Bool
unfolding has_prefix_fold
key_follows key [] = blank_follows (has_prefix_fold [] key)
key_follows key (c ∷ s) =
    let later = key_follows key s in
    blank_follows (has_prefix_fold (c ∷ s) key) || (is_blank c && later)

-- `(?i)^#?\s*` and the key and `\s+`
unfoldable pub names_key : Text → Text → Bool
unfolding key_follows
names_key key [] = key_follows key []
names_key key (c ∷ s) = (c == b'#' && key_follows key s) || key_follows key (c ∷ s)

abbrev pub setting : Text → Text → Text
setting key value = key ++ b' ' ∷ value

-- The first line that names the key is replaced, or else one is added at the end.
unfoldable pub set_line : Text → Text → List Text → List Text
unfolding names_key
set_line key value [] = setting key value ∷ []
set_line key value (l ∷ ls) =
    let rest = set_line key value ls in if names_key key l then setting key value ∷ ls else l ∷ rest

unfoldable pub update_directive : Text → Text → Text → Text
unfolding set_line
update_directive content key value = join (b'\n' ∷ []) (set_line key value (split b'\n' content))

pub record Disk : Type 0 where
  -- what reading gives, and what writing does
  pub readable : Bool
  pub file_write : Write

abbrev Outcome : Type 0
Outcome = Result ServerError (Unit {0}) × Text

unfoldable pub read : Disk → Text → Result ServerError ServerConfig
unfolding parse
read d file = if d.readable then parse file else err read_failed

abbrev write_text : Write → Text → Text → Outcome
write_text complete text file = (ok tt, text)
write_text (broken none) text file = (err write_failed, [])
write_text (broken (some left)) text file = (err write_failed, left)

abbrev update_read : Disk → Result ServerError ServerConfig → Text → Text → Text → Outcome
update_read d (err e) key value file = (err e, file)
update_read d (ok c) key value file =
    write_text d.file_write (update_directive c.raw_content key value) file

unfoldable pub update : Disk → Text → Text → Text → Outcome
unfolding read update_directive
update d key value file = update_read d (read d file) key value file

-- the executor, if there is one: the output of a command and whether it succeeds
abbrev Execute : Type 0
Execute = Text → List Text → Bool

abbrev ran : ServerError → Bool → Result ServerError (Unit {0})
ran e true = ok tt
ran e false = err e

unfoldable pub validate : Option Execute → Text → Result ServerError (Unit {0})
validate none path = err executor_required
validate (some run) path =
    ran validation_failed (run (codes "sshd") (codes "-t" ∷ codes "-f" ∷ path ∷ []))

unfoldable pub restart_service : Option Execute → Bool → Result ServerError (Unit {0})
restart_service none reload_only = err executor_required
restart_service (some run) reload_only = ran command_failed (
    run (codes "systemctl")
      ((if reload_only then codes "reload" else codes "restart") ∷ codes "sshd" ∷ []))
