-- ===== src/KnownHosts/Tests.antt =====
-- Runs on a small file, and the theorems at concrete inputs.
use skeys.Prelude.{◌<◌, ◌≡◌, refl, false, some, [], ◌∷◌, ◌++◌, ok, inr, arith}
use skeys.Text.{Text, codes}
use skeys.Text.Decimal.{itoa}
use skeys.Text.Strings.{
  split, scan_lines, scan_pieces, drop_cr, utf8_length, has_prefix, is_space, fields, trim_space,
  trim_left, trim_right,
}
use skeys.Text.Words.{IsWord}
use skeys.KnownHosts.{
  Executor, KnownHost, add, list, host_entry, host_line, hosts_of_lines, parse_line,
}
use skeys.KnownHosts.Adding.{healthy, IsHost, entry_on, IsListed, list-add_host}

abbrev echo : Executor
echo = record { run = λ name args file. (some name, file) }

abbrev file : Text
file = codes "# mine" ++ b'\n' ∷ codes "a,b t k" ++ b'\n' ∷ []

abbrev old : KnownHost
old = entry_on 2 (codes "a,b") (codes "t") (codes "k")

file-IsListed : IsListed file (old ∷ []) 3
unfolding scan_lines scan_pieces split utf8_length drop_cr hosts_of_lines parse_line fields
    trim_space trim_left trim_right is_space has_prefix itoa
file-IsListed = (inr (codes "# mine" ++ b'\n' ∷ codes "a,b t k", refl), refl, refl)

new-IsHost : IsHost (host_entry (codes "c") 2222)
unfolding host_entry is_space has_prefix itoa
new-IsHost = record {
  word = record {
    full = λ e. cc;
    solid = (refl, (refl, (refl, (refl, (refl, (refl, (refl, (refl, tt))))))));
  };
  no_comment = refl;
  not_hashed = refl;
  not_revoked = refl;
  not_authority = refl;
}

IsWord-t : IsWord (codes "t")
unfolding is_space
IsWord-t = record { full = λ e. cc; solid = (refl, tt) }

IsWord-k : IsWord (codes "k")
unfolding is_space
IsWord-k = record { full = λ e. cc; solid = (refl, tt) }

new_is_short : utf8_length (host_line (host_entry (codes "c") 2222) (codes "t") (codes "k")) < 65536
unfolding utf8_length host_entry itoa
new_is_short = omega arith

list-add_host_example :
    ((add echo (codes "p") healthy (codes "c") 2222 (codes "t") (codes "k") false (some file)).0
      ≡ ok (entry_on 3 (host_entry (codes "c") 2222) (codes "t") (codes "k")))
    × (list healthy
          (add echo
            (codes "p")
            healthy
            (codes "c")
            2222
            (codes "t")
            (codes "k")
            false
            (some file)).1
        ≡ ok (old ∷ entry_on 3 (host_entry (codes "c") 2222) (codes "t") (codes "k") ∷ []))
list-add_host_example =
    list-add_host echo (codes "p") (codes "c") 2222 (codes "t") (codes "k") (some file) (old ∷ []) 3
      file-IsListed new-IsHost IsWord-t IsWord-k new_is_short
