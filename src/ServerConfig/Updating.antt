-- ===== src/ServerConfig/Updating.antt =====
-- What update_directive does to the lines of sshd_config.
use skeys.Prelude.{
  ◌≡◌, ◌≢◌, ◌∙◌, refl, ap, Bool, true, false, ◌||◌, some, List, [], ◌∷◌, ◌++◌, nat_eq, nat_beq_iff,
  All, Bool-cases, inl, inr, arith,
}
use skeys.Text.{Text, text_eq}
use skeys.Text.Strings.{split, join}
use skeys.Text.Splitting.{is_free, is_free-append, split-join, AreFree, split-AreFree}
use skeys.ServerConfig.{
  fold, has_prefix_fold, key_follows, names_key, setting, set_line, update_directive,
}

prefix-fold_append : (key s : Text) → has_prefix_fold (key ++ s) key ≡ some s
unfolding has_prefix_fold
prefix-fold_append [] s = refl
prefix-fold_append (c ∷ key) s =
    ground (arith, nat_beq_iff (fold c) (fold c), prefix-fold_append key s)

or_true : (b : Bool) → (b || true) ≡ true
or_true true = refl
or_true false = refl

key-follows_prefix :
    (key value s : Text) → has_prefix_fold s key ≡ some (b' ' ∷ value) → key_follows key s ≡ true
unfolding key_follows
key-follows_prefix key value [] h = rw h refl
key-follows_prefix key value (c ∷ s) h = rw h refl

names-key_follows : (key s : Text) → key_follows key s ≡ true → names_key key s ≡ true
unfolding names_key
names-key_follows key [] h = h
names-key_follows key (c ∷ s) h = rw h (or_true _)

names-setting : (key value : Text) → names_key key (setting key value) ≡ true
names-setting key value =
    names-key_follows key (setting key value)
      (key-follows_prefix key value (setting key value) (prefix-fold_append key (b' ' ∷ value)))

set-line_twice :
    (key v w : Text) (ls : List Text) → set_line key w (set_line key v ls) ≡ set_line key w ls
unfolding set_line
set-line_twice key v w [] = rw (names-setting key v) refl
set-line_twice key v w (l ∷ ls) = elim (Bool-cases (names_key key l)) [
  | inl named ↦ rw (named, names-setting key v) refl
  | inr other ↦ rw (other, other) (ap (λ r. l ∷ r) (set-line_twice key v w ls))
]

set-line_cons : (key v : Text) (ls : List Text) → set_line key v ls ≢ []
unfolding set_line
set-line_cons key v [] e = cc
set-line_cons key v (l ∷ ls) e = elim (Bool-cases (names_key key l)) [
  | inl named ↦ cc (rw named at e)
  | inr other ↦ cc (rw other at e)
]

setting-free :
    (key v : Text)
    → is_free b'\n' key ≡ true
    → is_free b'\n' v ≡ true
    → is_free b'\n' (setting key v) ≡ true
setting-free key v h k = is_free-append b'\n' key (b' ' ∷ v) h (unfold is_free in k)

set-line_AreFree :
    (key v : Text) (ls : List Text)
    → is_free b'\n' (setting key v) ≡ true
    → AreFree b'\n' ls
    → AreFree b'\n' (set_line key v ls)
unfolding set_line
set-line_AreFree key v [] h f = (h, tt)
set-line_AreFree key v (l ∷ ls) h f = elim (Bool-cases (names_key key l)) [
  | inl named ↦ rw named (h, f.1)
  | inr other ↦ rw other (f.0, set-line_AreFree key v ls h f.1)
]

module _ (content key v : Text) (h : is_free b'\n' key ≡ true) (k : is_free b'\n' v ≡ true) where
  split-update : split b'\n' (update_directive content key v) ≡ set_line key v (split b'\n' content)
  unfolding update_directive
  split-update =
      split-join b'\n' (set_line key v (split b'\n' content))
        (set-line_cons key v (split b'\n' content))
        (set-line_AreFree key v (split b'\n' content) (setting-free key v h k)
          (split-AreFree b'\n' content))

  -- When a directive is updated twice, with a key and a first value that have no line break, the
  -- second update gives the file that it gives on the first content: a later value replaces the
  -- earlier one, and no second line for the key is left behind.
  pub update-update :
      (w : Text)
      → update_directive (update_directive content key v) key w ≡ update_directive content key w
  update-update w =
      unfold update_directive in
      (ap (λ ls. join (b'\n' ∷ []) (set_line key w ls)) (unfold update_directive in split-update)
        ∙ ap (join (b'\n' ∷ [])) (set-line_twice key v w (split b'\n' content)))

-- the lines from the first one that names the key, if there is one
abbrev pub begins_with : Text → List Text → Bool
begins_with key [] = true
begins_with key (l ∷ ls) = names_key key l

abbrev pub behind_first : List Text → List Text
behind_first [] = []
behind_first (l ∷ ls) = ls

abbrev pub AreOthers : Text → List Text → Type 0
AreOthers key = All (λ l. names_key key l ≡ false)

set-line_append :
    (key v : Text) (before rest : List Text)
    → AreOthers key before
    → begins_with key rest ≡ true
    → set_line key v (before ++ rest) ≡ before ++ setting key v ∷ behind_first rest
unfolding set_line
set-line_append key v [] [] o b = refl
set-line_append key v [] (l ∷ ls) o b = rw b refl
set-line_append key v (l ∷ before) rest o b =
    rw o.0 (ap (λ r. l ∷ r) (set-line_append key v before rest o.1 b))

-- When the lines of a file are some that do not name the key, followed by nothing or by a line that
-- does, an update with a key and a value without a line break keeps all lines before and behind that
-- line, in their order, and puts the setting in its place, at the end if there is no such line.
update-first_line :
    (content key v : Text) (before rest : List Text)
    → is_free b'\n' key ≡ true
    → is_free b'\n' v ≡ true
    → AreOthers key before
    → begins_with key rest ≡ true
    → split b'\n' content ≡ before ++ rest
    → split b'\n' (update_directive content key v) ≡ before ++ setting key v ∷ behind_first rest
update-first_line content key v before rest h k o b e =
    split-update content key v h k ∙ ap (set_line key v) e ∙ set-line_append key v before rest o b
