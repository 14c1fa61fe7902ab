-- ===== src/Text/Trimming.antt =====
-- A trimmed text stays as it is when it is trimmed again or read as a line.
use skeys.Prelude.{ℕ, ◌≤◌, ◌≡◌, ◌∙◌, refl, ap, true, [], ◌∷◌, nat_eq, nat_beq_iff, arith}
use skeys.Text.{Text, text_eq}
use skeys.Text.Strings.{trim_left, trim_right, trim_space, is_space, drop_cr, utf8_length}
use skeys.Text.Splitting.{is_free}

trim_left-trim_left : (s : Text) → trim_left (trim_left s) ≡ trim_left s
unfolding trim_left
trim_left-trim_left [] = refl
trim_left-trim_left (c ∷ s) = ground (arith, trim_left-trim_left s)

trim_right-trim_right : (s : Text) → trim_right (trim_right s) ≡ trim_right s
unfolding trim_right
trim_right-trim_right [] = refl
trim_right-trim_right (c ∷ s) = ground (arith, trim_right-trim_right s)

trim_right-tail : (c : ℕ) (s : Text) → trim_right (c ∷ s) ≡ c ∷ s → trim_right s ≡ s
unfolding trim_right
trim_right-tail c s h = ground arith

trim_right-trim_left : (s : Text) → trim_right s ≡ s → trim_right (trim_left s) ≡ trim_left s
unfolding trim_left
trim_right-trim_left [] h = h
trim_right-trim_left (c ∷ s) h = ground (arith, trim_right-trim_left s (trim_right-tail c s h))

trim_right-trim_space : (s : Text) → trim_right (trim_space s) ≡ trim_space s
unfolding trim_space
trim_right-trim_space s = trim_right-trim_left (trim_right s) (trim_right-trim_right s)

pub trim_space-trim_space : (s : Text) → trim_space (trim_space s) ≡ trim_space s
unfolding trim_space
trim_space-trim_space s =
    ap trim_left (trim_right-trim_space s) ∙ trim_left-trim_left (trim_right s)

trim_right-cr : trim_right (13 ∷ []) ≡ []
unfolding trim_right is_space
trim_right-cr = refl

pub drop_cr-of_trimmed : (s : Text) → trim_right s ≡ s → drop_cr s ≡ s
unfolding drop_cr
drop_cr-of_trimmed [] h = refl
drop_cr-of_trimmed (c ∷ []) h = ground (arith, nat_beq_iff c 13, trim_right-cr, h)
drop_cr-of_trimmed (c ∷ d ∷ s) h =
    ap (λ t. c ∷ t) (drop_cr-of_trimmed (d ∷ s) (trim_right-tail c (d ∷ s) h))

pub drop_cr-trim_space : (s : Text) → drop_cr (trim_space s) ≡ trim_space s
drop_cr-trim_space s = drop_cr-of_trimmed (trim_space s) (trim_right-trim_space s)

is_free-trim_left : (sep : ℕ) (s : Text) → is_free sep s ≡ true → is_free sep (trim_left s) ≡ true
unfolding is_free trim_left
is_free-trim_left sep [] h = refl
is_free-trim_left sep (c ∷ s) h = ground (arith, is_free-trim_left sep s)

is_free-trim_right : (sep : ℕ) (s : Text) → is_free sep s ≡ true → is_free sep (trim_right s) ≡ true
unfolding is_free trim_right
is_free-trim_right sep [] h = refl
is_free-trim_right sep (c ∷ s) h = ground (arith, is_free-trim_right sep s)

pub is_free-trim_space :
    (sep : ℕ) (s : Text) → is_free sep s ≡ true → is_free sep (trim_space s) ≡ true
unfolding trim_space
is_free-trim_space sep s h = is_free-trim_left sep (trim_right s) (is_free-trim_right sep s h)

length-trim_left : (s : Text) → utf8_length (trim_left s) ≤ utf8_length s
unfolding utf8_length trim_left
length-trim_left [] = omega arith
length-trim_left (c ∷ s) = ground (arith, length-trim_left s)

length-trim_right : (s : Text) → utf8_length (trim_right s) ≤ utf8_length s
unfolding utf8_length trim_right
length-trim_right [] = omega arith
length-trim_right (c ∷ s) = ground (arith, length-trim_right s)

pub length-trim_space : (s : Text) → utf8_length (trim_space s) ≤ utf8_length s
unfolding trim_space
length-trim_space s = omega (arith, length-trim_left (trim_right s), length-trim_right s)

pub length-drop_cr : (s : Text) → utf8_length (drop_cr s) ≤ utf8_length s
unfolding utf8_length drop_cr
length-drop_cr [] = omega arith
length-drop_cr (c ∷ []) = ground arith
length-drop_cr (c ∷ d ∷ s) = omega (arith, length-drop_cr (d ∷ s))

pub is_free-drop_cr : (sep : ℕ) (s : Text) → is_free sep s ≡ true → is_free sep (drop_cr s) ≡ true
unfolding is_free drop_cr
is_free-drop_cr sep [] h = refl
is_free-drop_cr sep (c ∷ []) h = ground arith
is_free-drop_cr sep (c ∷ d ∷ s) h = ground (arith, is_free-drop_cr sep (d ∷ s))
