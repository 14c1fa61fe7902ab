-- ===== src/AuthorizedKeys/Lines.antt =====
-- Files of lines that are written and scanned again.
use skeys.Prelude.{◌≡◌, ◌∙◌, refl, false, List, [], ◌∷◌, ◌++◌}
use skeys.Text.{Text, text_eq}
use skeys.Text.Strings.{split, join, scan_lines}
use skeys.Text.Splitting.{split-append, split-join, AreFree}
use skeys.Text.Lines.{AreLines, AreFree-of_lines, scan_pieces-lines}
use skeys.AuthorizedKeys.{file_of_lines}

split-file_of_lines :
    (ls : List Text) → AreFree b'\n' ls → split b'\n' (file_of_lines ls) ≡ ls ++ [] ∷ []
split-file_of_lines [] h = unfold split in refl
split-file_of_lines (l ∷ ls) h =
    split-append b'\n' (join (b'\n' ∷ []) (l ∷ ls)) []
    ∙ rw (split-join b'\n' (l ∷ ls) (λ e. cc) h) (unfold split in refl)

-- Lines that are written are the lines that are scanned.
pub scan-file_of_lines :
    (ls : List Text) → AreLines ls → scan_lines (file_of_lines ls) ≡ (ls, false)
unfolding scan_lines
scan-file_of_lines ls h =
    rw (split-file_of_lines ls (AreFree-of_lines ls h)) (scan_pieces-lines ls h)
