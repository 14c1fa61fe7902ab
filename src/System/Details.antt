-- ===== src/System/Details.antt =====
-- skeys-core/system/service.go: why the service has failed to start, told as the bytes of a string.
use skeys.Prelude.{
  ℕ, ◌+◌, ◌/◌, ◌%◌, Bool, not, ◌&&◌, ◌||◌, List, [], ◌∷◌, ◌++◌, ◌==◌, ltb, length, take,
  if◌then◌else◌,
}
use skeys.Text.{Text, text_eq, codes}
use skeys.Text.Strings.{contains, split, trim_space}
use skeys.System.Commands.{Command, Shell, journal_command}

-- the bytes of a code point in UTF-8
unfoldable pub encode_rune : ℕ → List ℕ
encode_rune c =
    if ltb c 0x80
    then c ∷ []
    else if ltb c 0x800
    then (0xc0 + c / 64) ∷ (0x80 + c % 64) ∷ []
    else if ltb c 0x10000
    then (0xe0 + c / 4096) ∷ (0x80 + (c / 64) % 64) ∷ (0x80 + c % 64) ∷ []
    else (0xf0 + c / 262144)
      ∷ (0x80 + (c / 4096) % 64)
      ∷ (0x80 + (c / 64) % 64)
      ∷ (0x80 + c % 64)
      ∷ []

unfoldable pub utf8 : Text → List ℕ
unfolding encode_rune
utf8 [] = []
utf8 (c ∷ s) = encode_rune c ++ utf8 s

-- The line as bytes: `len(line)` counts them, and `line[:200]` may split a code point.
unfoldable pub shorten : Text → List ℕ
unfolding utf8
shorten line =
    if ltb 200 (length (utf8 line)) then take 200 (utf8 line) ++ codes "..." else utf8 line

unfoldable pub tells : Text → Bool
unfolding contains
tells line =
    not (line == [])
    && (not (contains line (codes "Starting")) && not (contains line (codes "Stopped")))

unfoldable pub last_line : List Text → List ℕ
unfolding trim_space tells shorten
last_line [] = []
last_line (l ∷ ls) =
    let rest = last_line ls in
    if rest == [] then (if tells (trim_space l) then shorten (trim_space l) else []) else rest

unfoldable pub details_of : Text → Text → List ℕ
unfolding contains last_line split utf8
details_of service lines =
    if lines == []
    then []
    else if contains lines (codes "No such file or directory")
    then (if contains lines (codes "sshd_config")
        then codes "sshd_config file is missing - try: sudo apt reinstall openssh-server"
        else codes "configuration file missing - check journalctl -u " ++ utf8 service)
    else if contains lines (codes "Permission denied")
    then codes "permission denied - check file permissions"
    else if contains lines (codes "Address already in use")
    then codes "port 22 is already in use by another process"
    else if contains lines (codes "Bad configuration") || contains lines (codes "error in")
    then codes "configuration error - run 'sudo sshd -t' to check config"
    else last_line (split b'\n' lines)

unfoldable pub get_service_failure_details : Shell → Text → List Command → List ℕ × List Command
unfolding details_of trim_space
get_service_failure_details sh service done =
    let a = sh done (journal_command service) in
    (
      (if a.succeeds then details_of service (trim_space a.stdout) else []),
      done ++ journal_command service ∷ [],
    )
