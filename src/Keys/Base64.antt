-- ===== src/Keys/Base64.antt =====
-- base64Decode of skeys-core/keys/service.go. Bytes are numbers below 256, and so are the characters.
pub mod Letters
pub mod RoundTrip
pub mod Shape
use skeys.Prelude.{
  ℕ, zero, suc, ◌+◌, ◌-◌, ◌*◌, ◌/◌, ◌%◌, Bool, true, false, ◌||◌, Option, none, some, List, [], ◌∷◌,
  ◌++◌, ◌==◌, nat_eq, ltb, leb, length, if◌then◌else◌,
}
use skeys.Text.{Text, codes}

abbrev pub alphabet : Text
alphabet = codes "ABCDEFGHIJKLMNOPQRSTUVWXYZabcdefghijklmnopqrstuvwxyz0123456789+/"

-- `decodeMap[c]`, if it is not 0xFF. The table has a value for `=` too, which no step asks for.
unfoldable pub index_of : ℕ → Text → Option ℕ
index_of c [] = none
index_of c (d ∷ ds) =
    let later = index_of c ds in
    if c == d then some 0 else elim later [ none ↦ none | some i ↦ some (i + 1) ]

-- the values of up to four characters, appended to `val`, up to the first `=`
unfoldable pub value_of : ℕ → Text → Option ℕ
unfolding index_of
value_of val [] = some val
value_of val (c ∷ cs) =
    if c == b'='
    then some val
    else elim (index_of c alphabet) [ none ↦ none | some v ↦ value_of (val * 64 + v) cs ]

abbrev pub padding : ℕ → ℕ → ℕ
padding e f = (if f == b'=' then 1 else 0) + (if e == b'=' then 1 else 0)

-- the bytes of 24 bits, less the padding: `val` is shifted up by as many characters as are missing
abbrev pub bytes_of : ℕ → ℕ → List ℕ
bytes_of zero val = val / 65536 % 256 ∷ val / 256 % 256 ∷ val % 256 ∷ []
bytes_of (suc zero) val = val * 64 / 65536 % 256 ∷ val * 64 / 256 % 256 ∷ []
bytes_of (suc (suc n)) val = val * 4096 / 65536 % 256 ∷ []

pub data Step : Type 0 where
  invalid full : Step
  bytes : List ℕ → Step

abbrev pub fitting : ℕ → List ℕ → Step
fitting room out = if ltb room (length out) then full else bytes out

abbrev pub read_value : ℕ → ℕ → ℕ → Option ℕ → Step
read_value room e f none = invalid
read_value room e f (some val) = fitting room (bytes_of (padding e f) val)

unfoldable pub read_four : ℕ → ℕ → ℕ → ℕ → ℕ → Step
unfolding value_of
read_four room c d e f = read_value room e f (value_of 0 (c ∷ d ∷ e ∷ f ∷ []))

abbrev pub is_skipped : ℕ → Bool
is_skipped c = c == b' ' || c == b'\t' || c == b'\n' || c == b'\r'

-- what is written, and whether a character was invalid
abbrev pub Decoded : Type 0
Decoded = List ℕ × Bool

abbrev pub continue : Step → (List ℕ → Decoded) → Decoded
continue invalid more = ([], true)
continue full more = ([], false)
continue (bytes out) more = let rest = more out in (out ++ rest.0, rest.1)

-- The loop, with the room that is left in `dst`. Of fewer than four characters none is decoded.
unfoldable pub base64_decode : ℕ → Text → Decoded
unfolding read_four
base64_decode room (c ∷ d ∷ e ∷ f ∷ s) =
    let skipped = base64_decode room (d ∷ e ∷ f ∷ s) in
    let decoded = continue (read_four room c d e f) (λ out. base64_decode (room - length out) s) in
    if room == 0 then ([], false) else if is_skipped c then skipped else decoded
base64_decode room [] = ([], false)
base64_decode room (c ∷ []) = ([], false)
base64_decode room (c ∷ d ∷ []) = ([], false)
base64_decode room (c ∷ d ∷ e ∷ []) = ([], false)
