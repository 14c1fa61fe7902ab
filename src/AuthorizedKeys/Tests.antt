-- ===== src/AuthorizedKeys/Tests.antt =====
-- Runs on a small file, and the theorems at concrete inputs.
use skeys.Prelude.{◌≡◌, refl, none, some, List, [], ◌∷◌, ◌++◌, inr, arith}
use skeys.Text.{Text, codes}
use skeys.Text.Strings.{split, scan_lines, scan_pieces, drop_cr, utf8_length, join}
use skeys.Text.Splitting.{is_free}
use skeys.AuthorizedKeys.{list, remove, key_line, parse_options}
use skeys.Text.Lines.{IsLine, EndsLine}
use skeys.AuthorizedKeys.Listing.{number_from}
use skeys.AuthorizedKeys.Editing.{healthy, others, list-remove}
use skeys.AuthorizedKeys.Options.{is_balanced, parse_options-join}

abbrev file : Text
file = codes "# mine" ++ b'\n' ∷ codes "ssh-rsa A me" ++ b'\n' ∷ []

file_is_clean : (list healthy (some file)).1 ≡ none
unfolding list scan_lines scan_pieces split utf8_length
file_is_clean = refl

list-remove_example :
    list healthy (remove healthy 2 (some file)).1
    ≡ (number_from 1 (others 2 (list healthy (some file)).0), none)
list-remove_example = list-remove 2 (some file) file_is_clean

abbrev key : Text
key = codes "ssh-rsa B you"

abbrev option_texts : List Text
option_texts = codes "from=\"a,b\"" ∷ codes "no-pty" ∷ []

new-IsLine : IsLine (key_line key option_texts)
unfolding is_free utf8_length drop_cr join
new-IsLine = record { free = refl; short = omega arith; stable = refl }

whole_lines : EndsLine file
whole_lines = inr (codes "# mine" ++ b'\n' ∷ codes "ssh-rsa A me", refl)

parse_options-join_example : parse_options (codes "from=\"a,b\",no-pty") ≡ option_texts
unfolding is_balanced join
parse_options-join_example =
    parse_options-join option_texts
      (record { full = λ e. cc; balanced = refl }, (record { full = λ e. cc; balanced = refl }, tt))
