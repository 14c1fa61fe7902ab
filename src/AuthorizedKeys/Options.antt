-- ===== src/AuthorizedKeys/Options.antt =====
-- The options in front of a key: joined by `Add` and `Update`, parsed by `List`.
use skeys.Prelude.{
  ◌≡◌, ◌≢◌, ◌∙◌, refl, ap, sym, Bool, true, false, not, List, [], ◌∷◌, ◌++◌, append_assoc,
  append-nil, ◌==◌, nat_eq, All, arith, if◌then◌else◌,
}
use skeys.Text.{Text, text_eq, eq-nil}
use skeys.Text.Strings.{join}
use skeys.AuthorizedKeys.{options_from, parse_options}

-- whether the text leaves the quotes closed, and has a comma only between them
unfoldable pub is_balanced : Bool → Text → Bool
is_balanced in_quote [] = not in_quote
is_balanced in_quote (c ∷ s) =
    let flipped = is_balanced (not in_quote) s in
    let same = is_balanced in_quote s in
    if c == b'"' then flipped else if c == b',' then (if in_quote then same else false) else same

-- an option that can be told from its neighbours
pub record IsOption (o : Text) : Type 0 where
  pub full : o ≢ []
  pub balanced : is_balanced false o ≡ true

-- Up to its end a balanced text is added to the option that is being read.
options_from-balanced :
    (q : Bool) (current s rest : Text)
    → is_balanced q s ≡ true
    → options_from q current (s ++ rest) ≡ options_from false (current ++ s) rest
unfolding options_from is_balanced
options_from-balanced true current [] rest h = cc h
options_from-balanced false current [] rest h = rw (append-nil current) refl
options_from-balanced q current (c ∷ s) rest h = ground (
  arith,
  options_from-balanced (not q) (current ++ c ∷ []) s rest,
  options_from-balanced q (current ++ c ∷ []) s rest,
  append_assoc current (c ∷ []) s,
)

options_from-comma :
    (o rest : Text) → o ≢ [] → options_from false o (b',' ∷ rest) ≡ o ∷ options_from false [] rest
unfolding options_from
options_from-comma o rest h = rw (eq-nil o h) refl

options_from-end : (o : Text) → o ≢ [] → options_from false o [] ≡ o ∷ []
unfolding options_from
options_from-end o h = rw (eq-nil o h) refl

-- Options that are not empty, close their quotes and have commas only between quotes are parsed back
-- from their comma-separated form.
pub parse_options-join :
    (os : List Text) → All IsOption os → parse_options (join (b',' ∷ []) os) ≡ os
unfolding parse_options join
parse_options-join [] h = unfold options_from in refl
parse_options-join (o ∷ []) h =
    ap (options_from false []) (sym (append-nil o))
    ∙ options_from-balanced false [] o [] h.0.balanced
    ∙ options_from-end o h.0.full
parse_options-join (o ∷ p ∷ os) h =
    options_from-balanced false [] o (b',' ∷ join (b',' ∷ []) (p ∷ os)) h.0.balanced
    ∙ options_from-comma o (join (b',' ∷ []) (p ∷ os)) h.0.full
    ∙ ap (λ ps. o ∷ ps) (parse_options-join (p ∷ os) h.1)
