-- ===== src/ClientConfig/Tests.antt =====
-- Runs of the client configuration on a toy library that knows the text of one block.
use skeys.Prelude.{
  ◌≡◌, refl, inl, true, false, none, some, List, [], ◌∷◌, ◌++◌, ◌==◌, ok, err, if◌then◌else◌, arith,
}
use skeys.Text.{Text, text_eq, codes}
use skeys.Text.Numbers.{pos}
use skeys.Text.Decimal.{itoa}
use skeys.Text.Strings.{to_lower, join, is_space, has_prefix, trim_left, trim_right}
use skeys.Text.Words.{IsWord}
use skeys.Map
use skeys.Files.{complete, broken}
use skeys.ClientConfig.Blocks.{list-built, line_of}
use skeys.ClientConfig.Globals.{get_global_directives, set_lines, print_children}
use skeys.ClientConfig.Saving.{change, change_add, IsKept, change-IsKept}
use skeys.ClientConfig.{
  SshOptions, SshConfigEntry, Library, ClientConfig, Disk, Line, no_options, list_entries,
  build_entry_block, get_entry_header, generate_entry_id, update, entry_not_found, preamble,
  to_host_entry, get,
}

abbrev options : SshOptions
options = record no_options {
  hostname = codes "example.org";
  port = pos 2222;
  identity_files = codes "~/.ssh/a" ∷ codes "~/.ssh/b" ∷ [];
  forward_agent = true;
  extra_options = (codes "LogLevel", codes "ERROR") ∷ [];
}

abbrev entry : SshConfigEntry
entry = record {
  id = [];
  entry_type = 1;
  position = 0;
  patterns = codes "git" ∷ codes "gitlab" ∷ [];
  options = options;
}

abbrev block : Text
block =
    codes
      "Host git gitlab\n    HostName example.org\n    Port 2222\n    IdentityFile ~/.ssh/a\n    IdentityFile ~/.ssh/b\n    ForwardAgent yes\n    LogLevel ERROR\n"

block_printed : build_entry_block entry ≡ block
unfolding build_entry_block itoa
block_printed = refl

abbrev without_header : Text → List Line → List Line
without_header header [] = []
without_header header (x ∷ xs) =
    let rest = without_header header xs in
    if x.key ++ b' ' ∷ x.value == header then rest else x ∷ rest

abbrev toy : Library
toy = record {
  Config = List Line;
  parse_config = λ text. if text == block then line_of entry ∷ [] else [];
  parse_config_file = λ text. none;
  print = λ c. codes "printed";
  lines = λ c. c;
  patch = λ header text c. c;
  delete = without_header;
  sha256_hex = λ text. text ++ codes "............";
}

abbrev state : ClientConfig toy
state = record {
  config = toy.parse_config (build_entry_block entry);
  file = some (codes "old");
  backup = none;
}

abbrev healthy : Disk
healthy = record {
  readable = true;
  mkdir_succeeds = true;
  backup_write = complete;
  config_write = broken none;
}

git-IsWord : IsWord (codes "git")
git-IsWord = record { full = λ e. cc; solid = unfold is_space in (refl, (refl, (refl, tt))) }

gitlab-IsWord : IsWord (codes "gitlab")
gitlab-IsWord = record {
  full = λ e. cc;
  solid = unfold is_space in (refl, (refl, (refl, (refl, (refl, (refl, tt))))));
}

list-built_example :
    list_entries toy state
    ≡ record entry {
      id = generate_entry_id toy 1 (codes "git" ∷ codes "gitlab" ∷ []);
      position = 0;
    }
      ∷ []
list-built_example =
    list-built toy state entry 2222 0 0 (inl refl) (git-IsWord, (gitlab-IsWord, tt)) refl
      (record {
        port_is = refl;
        interval_is = refl;
        count_is = refl;
        not_22 = refl;
        port_fits = omega arith;
        interval_fits = omega arith;
        count_fits = omega arith;
        extra = (unfold to_lower in refl, tt);
        distinct = (unfold Map.get in refl, tt);
      })
      (unfold get_entry_header print_children itoa join in refl) refl

change-IsKept_example : IsKept toy (codes "old") (change toy healthy (change_add entry) state).1
change-IsKept_example = change-IsKept toy healthy (codes "old") state refl (change_add entry)

-- An entry with two patterns cannot be updated by its alias: the ID is made of the alias alone.
update_needs_one_pattern :
    (update toy healthy
      (codes "git")
      (to_host_entry entry)
      (record state { config = line_of entry ∷ [] })).0
    ≡ err entry_not_found
unfolding update get list_entries join itoa
update_needs_one_pattern = refl

globals_read :
    get_global_directives
      (some (codes "# all\nAddKeysToAgent  yes\nHost a\n  User b\nCompression no"))
    ≡ ok (
        record { key = codes "AddKeysToAgent"; value = codes "yes" }
        ∷ record { key = codes "Compression"; value = codes "no" }
        ∷ [])
unfolding get_global_directives trim_left trim_right is_space
globals_read = refl

-- The directive is put before the managed block and replaced behind it, and so stands in the file twice.
set_twice :
    set_lines (codes "Compression") (codes "yes") false (
      record { key = []; value = []; comment = codes "# BEGIN skeys managed block"; children = [] }
      ∷ record { key = codes "Compression"; value = codes "no"; comment = []; children = [] }
      ∷ [])
    ≡ codes "Compression yes\n\n# BEGIN skeys managed block\nCompression yes\n"
unfolding set_lines has_prefix
set_twice = refl

-- Reorder keeps the comments in front of the first block, but no option there.
options_dropped :
    preamble (
      record { key = codes "AddKeysToAgent"; value = codes "yes"; comment = []; children = [] }
      ∷ record { key = []; value = []; comment = codes "# hosts"; children = [] }
      ∷ line_of entry
      ∷ [])
    ≡ codes "# hosts\n"
unfolding preamble
options_dropped = refl
