-- ===== src/ServerConfig/Tests.antt =====
-- Runs of the server configuration on concrete files.
use skeys.Prelude.{false, none, err, ◌≡◌, refl, true, some, List, [], ◌∷◌, ◌++◌}
use skeys.Text.{Text, codes}
use skeys.Text.Numbers.{pos}
use skeys.Text.Strings.{
  scan_lines, split, join, trim_space, trim_left, trim_right, is_space, has_prefix,
}
use skeys.Text.Splitting.{is_free}
use skeys.ServerConfig.{
  ServerConfig, names_key, update_directive, directives_of, get_directive, get_port, get_bool,
  update, validate, restart_service, executor_required, command_failed, write_failed,
}
use skeys.Files.{broken}
use skeys.ServerConfig.Updating.{update-update}

-- a comment, a directive that is commented out, one that is set, and a Match block
abbrev lines : List Text
lines =
    codes "# Which ports"
    ∷ codes "#Port 22"
    ∷ codes "PermitRootLogin no"
    ∷ codes "Match User git"
    ∷ codes "  PermitRootLogin yes"
    ∷ []

abbrev content : Text
content = codes "# Which ports\n#Port 22\nPermitRootLogin no\nMatch User git\n  PermitRootLogin yes"

unfoldable parsed : ServerConfig
unfolding directives_of
parsed = record { directives = directives_of 1 [] lines; raw_content = content }

root_login : get_directive (codes "permitrootlogin") parsed.directives ≡ some (codes "no")
unfolding get_directive parsed trim_space trim_left trim_right is_space has_prefix
root_login = refl

port_default : get_port parsed ≡ pos 22 ∷ []
unfolding get_port parsed trim_space trim_left trim_right is_space has_prefix
port_default = refl

port_set :
    split b'\n' (update_directive content (codes "Port") (codes "2222"))
    ≡ codes "# Which ports"
      ∷ codes "Port 2222"
      ∷ codes "PermitRootLogin no"
      ∷ codes "Match User git"
      ∷ codes "  PermitRootLogin yes"
      ∷ []
unfolding update_directive split join
port_set = refl

-- A comment that begins with the key is taken for its directive.
comment_taken : names_key (codes "Port") (codes "# Port numbers follow") ≡ true
unfolding names_key
comment_taken = refl

-- A line at the end of a file whose last block is a Match block belongs to that block.
append_in_block :
    split b'\n' (update_directive content (codes "UsePAM") (codes "yes"))
    ≡ lines ++ codes "UsePAM yes" ∷ []
unfolding update_directive split join
append_in_block = refl

pam_unset : get_bool (codes "UsePAM") parsed ≡ none
unfolding get_bool get_directive parsed trim_space trim_left trim_right is_space has_prefix
pam_unset = refl

torn_update :
    update
      (record { readable = true; file_write = broken (some (codes "Po")) })
      (codes "Port")
      (codes "2222")
      (codes "Port 22")
    ≡ (err write_failed, codes "Po")
unfolding update scan_lines
torn_update = refl

validate_alone : validate none (codes "/etc/ssh/sshd_config") ≡ err executor_required
unfolding validate
validate_alone = refl

reload_fails : restart_service (some (λ name args. false)) true ≡ err command_failed
unfolding restart_service
reload_fails = refl

update-update_example :
    update_directive
      (update_directive content (codes "Port") (codes "2222"))
      (codes "Port")
      (codes "22")
    ≡ update_directive content (codes "Port") (codes "22")
update-update_example =
    update-update content (codes "Port") (codes "2222") (unfold is_free in refl)
      (unfold is_free in refl) (codes "22")
