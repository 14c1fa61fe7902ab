-- ===== src/AuthorizedKeys/Editing.antt =====
-- What `List` finds after `Add` and `Remove`.
use skeys.Prelude.{
  ℕ, suc, ◌+◌, ◌≡◌, ◌∙◌, refl, Bool, true, false, Option, none, some, List, [], ◌∷◌, ◌++◌, ◌==◌,
  nat_eq, All, Bool-cases, inl, inr, arith, length, if◌then◌else◌,
}
use skeys.Text.{Text, text_eq}
use skeys.Text.Strings.{split, scan_lines, scan_pieces, trim_space}
use skeys.Files.{complete}
use skeys.AuthorizedKeys.{
  AuthorizedKey, Disk, list, list_text, error_if, add, remove, key_line, keys_of_lines, push_some,
  without_line, text_or_empty, rewrite, parse_line,
}
use skeys.Text.Lines.{IsLine, EndsLine, scan-append}
use skeys.AuthorizedKeys.Listing.{IsGood, number_from, lines_of, list-lines_of, listed-AreGood}

-- a disk on which nothing fails
abbrev pub healthy : Disk
healthy = record { readable = true; mkdir_succeeds = true; openable = true; file_write = complete }

-- the keys on other lines
abbrev pub others : ℕ → List AuthorizedKey → List AuthorizedKey
others n [] = []
others n (k ∷ ks) = if k.line_number == n then others n ks else k ∷ others n ks

without-lines_of : (n : ℕ) (ks : List AuthorizedKey) → without_line n ks ≡ lines_of (others n ks)
unfolding without_line
without-lines_of n [] = refl
without-lines_of n (k ∷ ks) = ground (arith, without-lines_of n ks)

All-others : (n : ℕ) (ks : List AuthorizedKey) → All IsGood ks → All IsGood (others n ks)
All-others n [] h = tt
All-others n (k ∷ ks) h = elim (Bool-cases (k.line_number == n)) [
  | inl same ↦ rw same (All-others n ks h.1)
  | inr other ↦ rw other (h.0, All-others n ks h.1)
]

list-rewrite :
    (n : ℕ) (r : List AuthorizedKey × _) (file : Option Text)
    → r.1 ≡ none
    → All IsGood r.0
    → list healthy (rewrite healthy (without_line n) r file).1
      ≡ (number_from 1 (others n r.0), none)
unfolding list
list-rewrite n (ks, some e) file h good = cc h
list-rewrite n (ks, none) file h good =
    rw (without-lines_of n ks) (list-lines_of (others n ks) (All-others n ks good))

-- On a disk where nothing fails, removing a line number from a file that lists without an error leaves
-- a file with the keys of the other numbers, in their order and numbered anew from one; an unknown
-- number keeps all keys. Comments, blank lines and lines that are no keys are gone either way.
pub list-remove :
    (n : ℕ) (file : Option Text)
    → (list healthy file).1 ≡ none
    → list healthy (remove healthy n file).1
      ≡ (number_from 1 (others n (list healthy file).0), none)
unfolding remove
list-remove n file h = list-rewrite n (list healthy file) file h (listed-AreGood healthy file)

append-push :
    (o : Option AuthorizedKey) (xs ys : List AuthorizedKey)
    → push_some o (xs ++ ys) ≡ push_some o xs ++ ys
append-push none xs ys = refl
append-push (some k) xs ys = refl

keys-snoc :
    (n m : ℕ) (ls : List Text) (l : Text)
    → n + length ls ≡ m
    → keys_of_lines n (ls ++ l ∷ []) ≡ keys_of_lines n ls ++ keys_of_lines m (l ∷ [])
unfolding keys_of_lines
keys-snoc n m [] l e = rw (← e) (ground arith)
keys-snoc n m (x ∷ ls) l e = ground (
  arith,
  keys-snoc (suc n) m ls l (omega (arith, e)),
  append-push (parse_line (trim_space x) n) (keys_of_lines (suc n) ls) (keys_of_lines m (l ∷ [])),
)

list-text_snoc :
    (text line : Text)
    → EndsLine text
    → IsLine line
    → (scan_lines text).1 ≡ false
    → list_text (text ++ (line ++ b'\n' ∷ []))
      ≡ ((list_text text).0 ++ keys_of_lines (suc (length (scan_lines text).0)) (line ∷ []), none)
list-text_snoc text line ends h s = rw (scan-append text line ends h s) (
    rw (keys-snoc 1 (suc (length (scan_lines text).0)) (scan_lines text).0 line (omega arith)) refl)

list-text_of_file : (file : Option Text) → list healthy file ≡ list_text (text_or_empty file)
unfolding list scan_lines split scan_pieces keys_of_lines
list-text_of_file none = refl
list-text_of_file (some text) = refl

no_long_line : (b : Bool) → error_if b ≡ none → b ≡ false
no_long_line true h = cc h
no_long_line false h = refl

-- On a disk where nothing fails, a key that is added to a file of whole lines, which lists without an
-- error, is found behind the old keys, on the line after the last one, if its line can be scanned and
-- is a key.
list-add :
    (public_key : Text) (options : List Text) (file : Option Text)
    → EndsLine (text_or_empty file)
    → IsLine (key_line public_key options)
    → (list healthy file).1 ≡ none
    → list healthy (add healthy public_key options file).1 ≡ (
      (list healthy file).0
          ++ keys_of_lines
              (suc (length (scan_lines (text_or_empty file)).0))
              (key_line public_key options ∷ []),
      none,
    )
unfolding add
list-add public_key options file ends h clean =
    let text = text_or_empty file in
    list-text_of_file (some (text ++ (key_line public_key options ++ b'\n' ∷ [])))
    ∙ list-text_snoc text (key_line public_key options) ends h
        (no_long_line (scan_lines text).1 (rw (list-text_of_file file) at clean))
    ∙ rw (list-text_of_file file) refl
