-- ===== src/System/Ports.antt =====
-- skeys-core/system/network.go: which port is read from the configuration of the server.
use skeys.Prelude.{ℕ, ◌<◌, ◌^◌, ◌≡◌, ◌≢◌, refl, none, some, List, [], ◌∷◌, ◌++◌, All, arith}
use skeys.Text.{Text, codes}
use skeys.Text.Decimal.{itoa, is_digit, AreDigits, itoa-AreDigits, itoa-ne-nil}
use skeys.Text.Numbers.{ℤ, pos, int_of-itoa}
use skeys.Text.Strings.{
  scan_lines, has_prefix, trim_space, trim_left, trim_right, is_space, to_lower,
}
use skeys.Host.{Host}
use skeys.System.Network.{
  Machine, skip_blank, leading_digits, some_digits, digits_behind, find_port, port_of_line,
  port_of_lines, port_of_file, port_of_files, get_ssh_port,
}

abbrev pub NamesNoPort : Text → Type 0
NamesNoPort l = port_of_line l ≡ none

leading_digits-all : (s : Text) → AreDigits s → leading_digits s ≡ s
unfolding leading_digits
leading_digits-all [] h = refl
leading_digits-all (c ∷ s) h = rw (h.0, leading_digits-all s h.1) refl

skip_blank-digits : (s : Text) → AreDigits s → skip_blank s ≡ s
unfolding skip_blank is_digit
skip_blank-digits [] h = refl
skip_blank-digits (c ∷ s) h = ground (arith, h.0)

some_digits-ne_nil : (s : Text) → s ≢ [] → some_digits s ≡ some s
some_digits-ne_nil [] n = absurd (n refl)
some_digits-ne_nil (c ∷ s) n = refl

find_port-print : (s : Text) → AreDigits s → s ≢ [] → find_port (codes "Port " ++ s) ≡ some s
unfolding find_port skip_blank to_lower digits_behind
find_port-print s h n = rw (skip_blank-digits s h, leading_digits-all s h) (some_digits-ne_nil s n)

port_of_lines-skip :
    (ls : List Text) (line : Text) (rest : List Text) (p : ℤ)
    → All NamesNoPort ls
    → port_of_line line ≡ some p
    → port_of_lines (ls ++ line ∷ rest) ≡ some p
unfolding port_of_lines
port_of_lines-skip [] line rest p h e = rw e refl
port_of_lines-skip (l ∷ ls) line rest p (a, h) e = rw a (port_of_lines-skip ls line rest p h e)

-- The line is no comment, and its number is read back.
port_of_line-print : (n : ℕ) → n < 2 ^ 63 → port_of_line (codes "Port " ++ itoa n) ≡ some (pos n)
unfolding port_of_line has_prefix trim_space trim_left trim_right is_space
port_of_line-print n h =
    rw (find_port-print (itoa n) (itoa-AreDigits n) (itoa-ne-nil n)) (int_of-itoa n h)

first_file :
    (h : Host) (path : Text) (paths : List Text) (p : ℤ)
    → port_of_file (h.open_file path) ≡ some p
    → port_of_files h (path ∷ paths) ≡ p
unfolding port_of_files
first_file h path paths p e = rw e refl

-- If /etc/ssh/sshd_config can be opened, and the lines that are scanned of it begin with lines that name no
-- port and a line `Port n`, the port of the server is said to be n: neither the lines after it nor the files
-- of /etc/ssh/sshd_config.d have a say, also where the configuration includes them before that line, as it
-- does on Debian, and sshd takes the first port that it reads.
pub main_config_decides :
    (m : Machine) (text : Text) (before after : List Text) (n : ℕ)
    → m.host.open_file (codes "/etc/ssh/sshd_config") ≡ some text
    → (scan_lines text).0 ≡ before ++ (codes "Port " ++ itoa n) ∷ after
    → All NamesNoPort before
    → n < 2 ^ 63
    → get_ssh_port m ≡ pos n
unfolding get_ssh_port
main_config_decides m text before after n opened lines none_before bound =
    first_file m.host (codes "/etc/ssh/sshd_config") _ (pos n) (
      rw (opened, lines)
        (port_of_lines-skip before (codes "Port " ++ itoa n) after (pos n) none_before
          (port_of_line-print n bound)))
