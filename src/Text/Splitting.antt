-- ===== src/Text/Splitting.antt =====
-- Splitting and joining texts.
use skeys.Prelude.{
  ℕ, ◌≡◌, ◌≢◌, ◌∙◌, refl, Bool, true, false, List, [], ◌∷◌, ◌++◌, ◌==◌, nat_eq, nat_beq_iff, All,
  Bool-cases, inl, inr, arith, if◌then◌else◌,
}
use skeys.Text.{Text, text_eq}
use skeys.Text.Strings.{split, join, cons_first}

-- a text in which a character does not stand
unfoldable pub is_free : ℕ → Text → Bool
is_free sep [] = true
is_free sep (c ∷ s) = if c == sep then false else is_free sep s

pub is_free-append :
    (c : ℕ) (s t : Text) → is_free c s ≡ true → is_free c t ≡ true → is_free c (s ++ t) ≡ true
unfolding is_free
is_free-append c [] t h k = k
is_free-append c (d ∷ s) t h k = ground (arith, is_free-append c s t)

split-cons : (sep : ℕ) (s : Text) → split sep s ≢ []
unfolding split
split-cons sep [] e = cc
split-cons sep (c ∷ s) e = ground arith

pub split-of_free : (sep : ℕ) (s : Text) → is_free sep s ≡ true → split sep s ≡ s ∷ []
unfolding split is_free
split-of_free sep [] h = refl
split-of_free sep (c ∷ s) h = ground (arith, split-of_free sep s)

cons_first-append :
    (c : ℕ) (ws vs : List Text) → ws ≢ [] → cons_first c (ws ++ vs) ≡ cons_first c ws ++ vs
cons_first-append c [] vs h = absurd (h refl)
cons_first-append c (w ∷ ws) vs h = refl

-- A text with a separator in it splits into the pieces before and behind.
pub split-append : (sep : ℕ) (s t : Text) → split sep (s ++ sep ∷ t) ≡ split sep s ++ split sep t
unfolding split
split-append sep [] t = ground (arith, nat_beq_iff sep sep)
split-append sep (c ∷ s) t = ground (
  arith,
  split-append sep s t,
  cons_first-append c (split sep s) (split sep t) (split-cons sep s),
)

join-cons :
    (sep w : Text) (ws : List Text) → ws ≢ [] → join sep (w ∷ ws) ≡ w ++ (sep ++ join sep ws)
unfolding join
join-cons sep w [] h = absurd (h refl)
join-cons sep w (v ∷ ws) h = refl

join-cons_first :
    (sep : Text) (c : ℕ) (ws : List Text) → ws ≢ [] → join sep (cons_first c ws) ≡ c ∷ join sep ws
unfolding join
join-cons_first sep c [] h = absurd (h refl)
join-cons_first sep c (w ∷ []) h = refl
join-cons_first sep c (w ∷ v ∷ ws) h = refl

join-split : (sep : ℕ) (s : Text) → join (sep ∷ []) (split sep s) ≡ s
unfolding split join
join-split sep [] = refl
join-split sep (c ∷ s) = ground (
  arith,
  nat_beq_iff c sep,
  join-split sep s,
  join-cons (sep ∷ []) [] (split sep s) (split-cons sep s),
  join-cons_first (sep ∷ []) c (split sep s) (split-cons sep s),
)

abbrev pub AreFree : ℕ → List Text → Type 0
AreFree sep = All (λ w. is_free sep w ≡ true)

pub split-join :
    (sep : ℕ) (ws : List Text) → ws ≢ [] → AreFree sep ws → split sep (join (sep ∷ []) ws) ≡ ws
unfolding join
split-join sep [] h f = absurd (h refl)
split-join sep (w ∷ []) h f = split-of_free sep w f.0
split-join sep (w ∷ v ∷ ws) h f =
    split-append sep w (join (sep ∷ []) (v ∷ ws))
    ∙ rw (split-of_free sep w f.0, split-join sep (v ∷ ws) (λ e. cc) f.1) refl

cons_first-AreFree :
    (sep c : ℕ) (ws : List Text)
    → (c == sep) ≡ false
    → AreFree sep ws
    → AreFree sep (cons_first c ws)
unfolding is_free
cons_first-AreFree sep c [] h f = (ground arith, tt)
cons_first-AreFree sep c (w ∷ ws) h f = (ground (arith, f.0), f.1)

pub split-AreFree : (sep : ℕ) (s : Text) → AreFree sep (split sep s)
unfolding split
split-AreFree sep [] = (unfold is_free in refl, tt)
split-AreFree sep (c ∷ s) = elim (Bool-cases (c == sep)) [
  | inl same ↦ rw same (unfold is_free in refl, split-AreFree sep s)
  | inr other ↦ rw other (cons_first-AreFree sep c (split sep s) other (split-AreFree sep s))
]
