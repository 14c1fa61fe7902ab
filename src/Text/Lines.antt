-- ===== src/Text/Lines.antt =====
-- Files of lines that are written and scanned again, and lines that are appended to a file.
use skeys.Prelude.{
  ◌<◌, ◌≡◌, ◌⊎◌, refl, true, false, List, [], ◌∷◌, ◌++◌, append_assoc, ◌==◌, All, leb, Bool-cases,
  inl, inr, arith,
}
use skeys.Text.{Text, text_eq}
use skeys.Text.Strings.{split, scan_pieces, scan_lines, drop_cr, utf8_length}
use skeys.Text.Splitting.{is_free, split-append, split-of_free, AreFree, split-AreFree}
use skeys.Text.Trimming.{is_free-drop_cr, length-drop_cr}

-- a line that can be written and scanned as it is
pub record IsLine (l : Text) : Type 0 where
  pub free : is_free b'\n' l ≡ true
  pub short : utf8_length l < 65536
  pub stable : drop_cr l ≡ l

abbrev pub AreLines : List Text → Type 0
AreLines = All IsLine

pub AreFree-of_lines : (ls : List Text) → AreLines ls → AreFree b'\n' ls
AreFree-of_lines [] h = tt
AreFree-of_lines (l ∷ ls) h = (h.0.free, AreFree-of_lines ls h.1)

pub scan_pieces-lines : (ls : List Text) → AreLines ls → scan_pieces (ls ++ [] ∷ []) ≡ (ls, false)
unfolding scan_pieces
scan_pieces-lines [] h = refl
scan_pieces-lines (l ∷ []) h = ground (arith, h.0.short, h.0.stable)
scan_pieces-lines (l ∷ m ∷ ls) h =
    ground (arith, scan_pieces-lines (m ∷ ls) h.1, h.0.short, h.0.stable)

-- what is known of a line that a scan gives
pub record IsScanned (l : Text) : Type 0 where
  pub free : is_free b'\n' l ≡ true
  pub short : utf8_length l < 65536

scan_pieces-AreScanned : (ls : List Text) → AreFree b'\n' ls → All IsScanned (scan_pieces ls).0
unfolding scan_pieces
scan_pieces-AreScanned [] h = tt
scan_pieces-AreScanned (l ∷ []) h = elim (Bool-cases (l == [])) [
  | inl empty ↦ rw empty tt
  | inr full ↦ elim (Bool-cases (leb 65536 (utf8_length l))) [
    | inl long ↦ rw (full, long) tt
    | inr short ↦ rw (full, short) (dropped l h.0 short, tt)
  ]
]
  where
    dropped :
        (l : Text)
        → is_free b'\n' l ≡ true
        → leb 65536 (utf8_length l) ≡ false
        → IsScanned (drop_cr l)
    dropped l f s = record {
      free = is_free-drop_cr b'\n' l f;
      short = ground (arith, length-drop_cr l);
    }
scan_pieces-AreScanned (l ∷ m ∷ ls) h = elim (Bool-cases (leb 65536 (utf8_length l))) [
  | inl long ↦ rw long tt
  | inr short ↦ rw short (
    record { free = is_free-drop_cr b'\n' l h.0; short = ground (arith, length-drop_cr l) },
    scan_pieces-AreScanned (m ∷ ls) h.1,
  )
]

pub scan-AreScanned : (text : Text) → All IsScanned (scan_lines text).0
unfolding scan_lines
scan-AreScanned text = scan_pieces-AreScanned (split b'\n' text) (split-AreFree b'\n' text)

-- a text of whole lines
abbrev pub EndsLine : Text → Type 0
EndsLine text = (text ≡ []) ⊎ ((t : Text) × (text ≡ t ++ b'\n' ∷ []))

split-EndsLine :
    (text line : Text)
    → EndsLine text
    → IsLine line
    → (ls : List Text) × (split b'\n' text ≡ ls ++ [] ∷ [])
      × (split b'\n' (text ++ (line ++ b'\n' ∷ [])) ≡ ls ++ line ∷ [] ∷ [])
split-EndsLine text line (inl empty) h = (
  [],
  rw empty (unfold split in refl),
  rw (empty, split-append b'\n' line [], split-of_free b'\n' line h.free) (unfold split in refl),
)
split-EndsLine text line (inr (t, e)) h = (
  split b'\n' t,
  rw (e, split-append b'\n' t []) (unfold split in refl),
  rw
      (
        e,
        append_assoc t (b'\n' ∷ []) (line ++ b'\n' ∷ []),
        split-append b'\n' t (line ++ b'\n' ∷ []),
        split-append b'\n' line [],
        split-of_free b'\n' line h.free,
      )
      (unfold split in refl),
)

scan-snoc :
    (ls : List Text) (line : Text)
    → IsLine line
    → (scan_pieces (ls ++ [] ∷ [])).1 ≡ false
    → scan_pieces (ls ++ line ∷ [] ∷ []) ≡ ((scan_pieces (ls ++ [] ∷ [])).0 ++ line ∷ [], false)
unfolding scan_pieces
scan-snoc [] line h s = ground (arith, h.short, h.stable)
scan-snoc (l ∷ []) line h s = ground (arith, h.short, h.stable)
scan-snoc (l ∷ m ∷ ls) line h s = ground (arith, scan-snoc (m ∷ ls) line h)

-- A line that is appended to whole lines is scanned behind them.
pub scan-append :
    (text line : Text)
    → EndsLine text
    → IsLine line
    → (scan_lines text).1 ≡ false
    → scan_lines (text ++ (line ++ b'\n' ∷ [])) ≡ ((scan_lines text).0 ++ line ∷ [], false)
unfolding scan_lines
scan-append text line ends h s =
    let (ls, before, after) = split-EndsLine text line ends h in
    rw (before, after) (scan-snoc ls line h (rw before at s))
