-- ===== src/Text/Words.antt =====
-- Words without blanks, and the fields of a line that is made of them.
use skeys.Prelude.{◌≡◌, ◌≢◌, refl, true, false, [], ◌∷◌, ◌++◌, nat_eq, All, arith}
use skeys.Text.{Text, text_eq}
use skeys.Text.Strings.{is_space, trim_left, trim_right, fields, fields_from}
use skeys.Text.Splitting.{is_free}

abbrev pub IsSolid : Text → Type 0
IsSolid = All (λ c. is_space c ≡ false)

-- a text that is a field of itself
pub record IsWord (w : Text) : Type 0 where
  pub full : w ≢ []
  pub solid : IsSolid w

fields_from-solid :
    (s t : Text) → IsSolid s → fields_from true (s ++ b' ' ∷ t) ≡ s ∷ fields_from false t
unfolding fields_from
fields_from-solid [] t h = refl
fields_from-solid (c ∷ s) t h = rw (h.0, fields_from-solid s t h.1) refl

fields_from-last : (s : Text) → IsSolid s → fields_from true s ≡ s ∷ []
unfolding fields_from
fields_from-last [] h = refl
fields_from-last (c ∷ s) h = rw (h.0, fields_from-last s h.1) refl

pub fields-word : (w t : Text) → IsWord w → fields (w ++ b' ' ∷ t) ≡ w ∷ fields t
unfolding fields fields_from
fields-word [] t h = absurd (h.full refl)
fields-word (c ∷ s) t h = rw (h.solid.0, fields_from-solid s t h.solid.1) refl

pub fields-last : (w : Text) → IsWord w → fields w ≡ w ∷ []
unfolding fields fields_from
fields-last [] h = absurd (h.full refl)
fields-last (c ∷ s) h = rw (h.solid.0, fields_from-last s h.solid.1) refl

trim_right-solid : (s : Text) → IsSolid s → trim_right s ≡ s
unfolding trim_right
trim_right-solid [] h = refl
trim_right-solid (c ∷ s) h = rw (h.0, trim_right-solid s h.1) refl

append-ne-nil : (s w : Text) → w ≢ [] → s ++ w ≢ []
append-ne-nil [] w h = h
append-ne-nil (c ∷ s) w h = λ e. cc e

trim_right-append : (s w : Text) → w ≢ [] → trim_right w ≡ w → trim_right (s ++ w) ≡ s ++ w
unfolding trim_right
trim_right-append [] w full h = h
trim_right-append (c ∷ s) w full h =
    ground
      (arith, trim_right-append s w full h, text_eq.beq_iff (s ++ w) [], append-ne-nil s w full)

-- A line of words, of which `w` is the last, ends and begins as it is.
pub trim_right-word : (s w : Text) → IsWord w → trim_right (s ++ w) ≡ s ++ w
trim_right-word s w h = trim_right-append s w h.full (trim_right-solid w h.solid)

pub trim_left-word : (w t : Text) → IsWord w → trim_left (w ++ t) ≡ w ++ t
unfolding trim_left
trim_left-word [] t h = absurd (h.full refl)
trim_left-word (c ∷ s) t h = rw h.solid.0 refl

newline : is_space b'\n' ≡ true
unfolding is_space
newline = refl

pub solid-is_free : (s : Text) → IsSolid s → is_free b'\n' s ≡ true
unfolding is_free
solid-is_free [] h = refl
solid-is_free (c ∷ s) h = ground (arith, solid-is_free s h.1, h.0, newline, nat_eq.beq_iff c b'\n')
