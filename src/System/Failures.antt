-- ===== src/System/Failures.antt =====
-- skeys-core/system/service.go: the line of the journal that is told of a failure.
use skeys.Prelude.{
  ℕ, ◌≤◌, ◌<◌, zero, suc, true, false, List, [], ◌∷◌, ◌++◌, ◌==◌, ltb, length, take, drop,
  length-take, All, arith, ◌≡◌, ◌∙◌, refl, sym, ap, subst, ◌⊎◌, Bool-cases, inl, inr,
}
use skeys.Text.{Text, text_eq, codes}
use skeys.Text.Strings.{trim_space, contains, split}
use skeys.System.Commands.{Command, Shell, journal_command}
use skeys.System.Details.{
  encode_rune, utf8, shorten, tells, last_line, details_of, get_service_failure_details,
}

-- the bytes as they are, or the first 200 of more and three dots
abbrev pub IsAbridged : List ℕ → List ℕ → Type 0
IsAbridged line told =
    ((length line ≤ 200) × (told ≡ line))
    ⊎ ((first : List ℕ) × (rest : List ℕ) × (line ≡ first ++ rest)
        × (length first ≡ 200)
        × (200 < length line)
        × (told ≡ first ++ codes "..."))

-- A line that tells something: it is not blank, and is not about the service being started or stopped.
pub record IsTelling (line : Text) : Type 0 where
  pub full : (trim_space line == []) ≡ false
  pub not_starting : contains (trim_space line) (codes "Starting") ≡ false
  pub not_stopped : contains (trim_space line) (codes "Stopped") ≡ false

abbrev pub IsSilent : Text → Type 0
IsSilent line =
    ((trim_space line == []) ≡ true)
    ⊎ (contains (trim_space line) (codes "Starting") ≡ true)
    ⊎ (contains (trim_space line) (codes "Stopped") ≡ true)

-- none of the causes that the code knows
pub record ShowsNoCause (lines : Text) : Type 0 where
  pub no_missing : contains lines (codes "No such file or directory") ≡ false
  pub no_denial : contains lines (codes "Permission denied") ≡ false
  pub no_clash : contains lines (codes "Address already in use") ≡ false
  pub no_bad : contains lines (codes "Bad configuration") ≡ false
  pub no_error : contains lines (codes "error in") ≡ false

tells-IsTelling : (line : Text) → IsTelling line → tells (trim_space line) ≡ true
unfolding tells
tells-IsTelling line h = simp (h.full, h.not_starting, h.not_stopped) refl

tells-IsSilent : (line : Text) → IsSilent line → tells (trim_space line) ≡ false
unfolding tells
tells-IsSilent line h = ground arith

take-drop : (n : ℕ) (xs : List ℕ) → xs ≡ take n xs ++ drop n xs
take-drop zero xs = refl
take-drop (suc n) [] = refl
take-drop (suc n) (x ∷ xs) = ap (λ r. x ∷ r) (take-drop n xs)

shorten-IsAbridged : (line : Text) → IsAbridged (utf8 line) (shorten line)
unfolding shorten
shorten-IsAbridged line = elim (Bool-cases (ltb 200 (length (utf8 line)))) [
  | inl e ↦ rw e (
      inr (
        take 200 (utf8 line),
        drop 200 (utf8 line),
        take-drop 200 (utf8 line),
        length-take 200 (utf8 line) (grind (arith, e)),
        grind (arith, e),
        refl,
      ))
  | inr e ↦ rw e (inl (grind (arith, e), refl))
]

append-full : (xs ys : List ℕ) → (xs == []) ≡ false → ((xs ++ ys) == []) ≡ false
append-full [] ys h = cc h
append-full (x ∷ xs) ys h = refl

take-full : (n : ℕ) (xs : List ℕ) → (xs == []) ≡ false → (take (suc n) xs == []) ≡ false
take-full n [] h = cc h
take-full n (x ∷ xs) h = refl

encode_rune-full : (c : ℕ) → (encode_rune c == []) ≡ false
unfolding encode_rune
encode_rune-full c = ground arith

utf8-full : (s : Text) → (s == []) ≡ false → (utf8 s == []) ≡ false
unfolding utf8
utf8-full [] h = cc h
utf8-full (c ∷ s) h = append-full (encode_rune c) (utf8 s) (encode_rune-full c)

shorten-full : (line : Text) → (line == []) ≡ false → (shorten line == []) ≡ false
unfolding shorten
shorten-full line h = ground (
  arith,
  utf8-full line h,
  append-full (take 200 (utf8 line)) (codes "...") (take-full 199 (utf8 line) (utf8-full line h)),
)

last_line-silent : (after : List Text) → All IsSilent after → last_line after ≡ []
unfolding last_line
last_line-silent [] h = refl
last_line-silent (l ∷ after) (silent, h) =
    simp (last_line-silent after h, tells-IsSilent l silent) refl

last_line-telling :
    (before : List Text) (line : Text) (after : List Text)
    → IsTelling line
    → All IsSilent after
    → last_line (before ++ line ∷ after) ≡ shorten (trim_space line)
unfolding last_line
last_line-telling [] line after h silent =
    simp (last_line-silent after silent, tells-IsTelling line h) refl
last_line-telling (l ∷ before) line after h silent =
    simp (last_line-telling before line after h silent, shorten-full (trim_space line) h.full) refl

details-uncaused :
    (service lines : Text)
    → (lines == []) ≡ false
    → ShowsNoCause lines
    → details_of service lines ≡ last_line (split b'\n' lines)
unfolding details_of
details-uncaused service lines full h =
    simp (full, h.no_missing, h.no_denial, h.no_clash, h.no_bad, h.no_error) refl

-- Where the journal can be read, is not blank, and shows none of the causes that the code knows, what is
-- told of a service that has failed to start is the last line of the journal that is not blank and names
-- neither `Starting` nor `Stopped`, without the spaces around it: all its bytes if there are at most 200,
-- or else the first 200 and three dots.
pub last_telling_line_is_told :
    (sh : Shell) (service : Text) (done : List Command) (before : List Text) (line : Text)
    (after : List Text)
    → (sh done (journal_command service)).succeeds ≡ true
    → (trim_space (sh done (journal_command service)).stdout == []) ≡ false
    → ShowsNoCause (trim_space (sh done (journal_command service)).stdout)
    → split b'\n' (trim_space (sh done (journal_command service)).stdout) ≡ before ++ line ∷ after
    → IsTelling line
    → All IsSilent after
    → IsAbridged (utf8 (trim_space line)) (get_service_failure_details sh service done).0
unfolding get_service_failure_details
last_telling_line_is_told sh service done before line after ran full none_shown lines h silent =
    subst (IsAbridged (utf8 (trim_space line)))
      (sym (
        simp ran (details-uncaused service _ full none_shown)
        ∙ ap last_line lines
        ∙ last_line-telling before line after h silent))
      (shorten-IsAbridged (trim_space line))
