-- ===== src/Text/Strings.antt =====
-- What the program uses of Go's package `strings`, and the lines of a `bufio.Scanner`.
use skeys.Prelude.{
  ℕ, ◌+◌, Bool, true, false, ◌&&◌, ◌||◌, Option, none, some, List, [], ◌∷◌, ◌++◌, ◌==◌, nat_eq, ltb,
  leb, if◌then◌else◌,
}
use skeys.Text.{Text, text_eq}

-- `unicode.IsSpace`
unfoldable pub is_space : ℕ → Bool
is_space c =
    (leb 9 c && leb c 13)
    || c == 32
    || c == 0x85
    || c == 0xa0
    || c == 0x1680
    || (leb 0x2000 c && leb c 0x200a)
    || c == 0x2028
    || c == 0x2029
    || c == 0x202f
    || c == 0x205f
    || c == 0x3000

unfoldable pub trim_left : Text → Text
trim_left [] = []
trim_left (c ∷ s) = let rest = trim_left s in if is_space c then rest else c ∷ s

unfoldable pub trim_right : Text → Text
trim_right [] = []
trim_right (c ∷ s) = let rest = trim_right s in if is_space c && rest == [] then [] else c ∷ rest

unfoldable pub trim_space : Text → Text
trim_space s = trim_left (trim_right s)

-- `strings.ToLower`, on ASCII letters
unfoldable pub to_lower : Text → Text
to_lower [] = []
to_lower (c ∷ s) = (if leb b'A' c && leb c b'Z' then c + 32 else c) ∷ to_lower s

unfoldable pub has_prefix : Text → Text → Bool
has_prefix s [] = true
has_prefix [] (d ∷ p) = false
has_prefix (c ∷ s) (d ∷ p) = c == d && has_prefix s p

unfoldable pub trim_prefix : Text → Text → Text
trim_prefix s [] = s
trim_prefix [] (d ∷ p) = []
trim_prefix (c ∷ s) (d ∷ p) =
    let rest = trim_prefix s p in if has_prefix (c ∷ s) (d ∷ p) then rest else c ∷ s

unfoldable pub contains : Text → Text → Bool
contains [] p = p == []
contains (c ∷ s) p = has_prefix (c ∷ s) p || contains s p

-- `strings.Index`: where the second text begins in the first
unfoldable pub index : Text → Text → Option ℕ
index [] p = if p == [] then some 0 else none
index (c ∷ s) p =
    let later = index s p in
    if has_prefix (c ∷ s) p then some 0 else elim later [ none ↦ none | some i ↦ some (i + 1) ]

abbrev pub cons_first : ℕ → List Text → List Text
cons_first c [] = (c ∷ []) ∷ []
cons_first c (w ∷ ws) = (c ∷ w) ∷ ws

-- `strings.Split` at a separator of one character
unfoldable pub split : ℕ → Text → List Text
split sep [] = [] ∷ []
split sep (c ∷ s) = let rest = split sep s in if c == sep then [] ∷ rest else cons_first c rest

-- the first separator, and what stands before and behind it
unfoldable pub cut : ℕ → Text → Option (Text × Text)
cut sep [] = none
cut sep (c ∷ s) =
    let rest = cut sep s in
    if c == sep then some ([], s) else elim rest [ none ↦ none | some r ↦ some (c ∷ r.0, r.1) ]

unfoldable pub join : Text → List Text → Text
join sep [] = []
join sep (w ∷ []) = w
join sep (w ∷ v ∷ ws) = w ++ (sep ++ join sep (v ∷ ws))

-- `strings.Fields`: the flag says that the text before ended in a field.
unfoldable pub fields_from : Bool → Text → List Text
unfolding is_space
fields_from inside [] = if inside then [] ∷ [] else []
fields_from inside (c ∷ s) =
    let out = fields_from false s in
    let more = fields_from true s in
    if is_space c then (if inside then [] ∷ out else out) else cons_first c more

unfoldable pub fields : Text → List Text
unfolding fields_from
fields s = fields_from false s

-- the number of bytes in UTF-8
unfoldable pub utf8_length : Text → ℕ
utf8_length [] = 0
utf8_length (c ∷ s) =
    (if ltb c 0x80 then 1 else if ltb c 0x800 then 2 else if ltb c 0x10000 then 3 else 4)
    + utf8_length s

-- `ScanLines` drops one carriage return at the end of a line.
unfoldable pub drop_cr : Text → Text
drop_cr [] = []
drop_cr (c ∷ []) = if c == 13 then [] else c ∷ []
drop_cr (c ∷ d ∷ s) = c ∷ drop_cr (d ∷ s)

-- The lines up to the first that has 65,536 bytes or more, and whether there is one, which is the
-- error `bufio.ErrTooLong`. Behind the last line break there is a line only if it is not empty.
unfoldable pub scan_pieces : List Text → List Text × Bool
unfolding drop_cr utf8_length
scan_pieces [] = ([], false)
scan_pieces (l ∷ []) =
    if l == []
    then ([], false)
    else if leb 65536 (utf8_length l)
    then ([], true)
    else (drop_cr l ∷ [], false)
scan_pieces (l ∷ m ∷ ls) =
    let rest = scan_pieces (m ∷ ls) in
    if leb 65536 (utf8_length l) then ([], true) else (drop_cr l ∷ rest.0, rest.1)

unfoldable pub scan_lines : Text → List Text × Bool
unfolding scan_pieces split
scan_lines s = scan_pieces (split b'\n' s)
