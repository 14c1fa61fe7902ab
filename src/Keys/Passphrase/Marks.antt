-- ===== src/Keys/Passphrase/Marks.antt =====
-- Where the marks of a key file stand.
use skeys.Prelude.{
  ℕ, ◌+◌, ◌≡◌, ◌∙◌, ap, refl, true, false, not, some, [], ◌∷◌, ◌++◌, ◌==◌, nat_eq, length, arith,
  Bool-cases, inl, inr,
}
use skeys.Text.{Text, text_eq, codes}
use skeys.Text.Strings.{contains, index, has_prefix}
use skeys.Text.Splitting.{is_free}
use skeys.Keys.Passphrase.{begin_mark, end_mark, without_breaks}

dash_first : (c : ℕ) (s : Text) → (c == b'-') ≡ false → has_prefix (c ∷ s) end_mark ≡ false
unfolding has_prefix
dash_first c s h = rw h refl

index-skip :
    (c i : ℕ) (s : Text)
    → has_prefix (c ∷ s) end_mark ≡ false
    → index s end_mark ≡ some i
    → index (c ∷ s) end_mark ≡ some (i + 1)
unfolding index
index-skip c i s h k = rw (h, k) refl

index-end_mark : (tail : Text) → index (end_mark ++ tail) end_mark ≡ some 0
unfolding index has_prefix
index-end_mark tail = refl

no_dash :
    (c : ℕ) (s : Text)
    → is_free b'-' (c ∷ s) ≡ true
    → ((c == b'-') ≡ false) × (is_free b'-' s ≡ true)
unfolding is_free
no_dash c s h = (ground arith, ground arith)

pub index-body :
    (body tail : Text)
    → is_free b'-' body ≡ true
    → index (body ++ (end_mark ++ tail)) end_mark ≡ some (length body)
index-body [] tail h = index-end_mark tail
index-body (c ∷ body) tail h =
    let (other, free) = no_dash c body h in
    index-skip c (length body) (body ++ (end_mark ++ tail))
      (dash_first c (body ++ (end_mark ++ tail)) other) (index-body body tail free)
    ∙ ap some (omega arith)

pub index-behind_begin :
    (i : ℕ) (s : Text)
    → index s end_mark ≡ some i
    → index (begin_mark ++ b'\n' ∷ s) end_mark ≡ some (i + 36)
unfolding index has_prefix
index-behind_begin i s h = rw h (ap some (omega arith))

pub index-begin : (s : Text) → index (begin_mark ++ s) begin_mark ≡ some 0
unfolding index has_prefix
index-begin s = refl

pub contains-begin :
    (s : Text) → contains (begin_mark ++ s) (codes "BEGIN OPENSSH PRIVATE KEY") ≡ true
unfolding contains has_prefix
contains-begin s = refl

-- A text with no longer pattern in it may have a shorter one, not the other way round.
prefix-contains : (s p q : Text) → has_prefix s (p ++ q) ≡ true → contains s q ≡ true
unfolding has_prefix contains
prefix-contains [] [] [] h = refl
prefix-contains [] [] (d ∷ q) h = cc h
prefix-contains [] (d ∷ p) q h = cc h
prefix-contains (c ∷ s) [] q h = rw h refl
prefix-contains (c ∷ s) (d ∷ p) q h = ground (arith, prefix-contains s p q)

contains-suffix : (s p q : Text) → contains s (p ++ q) ≡ true → contains s q ≡ true
unfolding contains
contains-suffix [] [] q h = h
contains-suffix [] (d ∷ p) q h = cc h
contains-suffix (c ∷ s) p q h = ground (arith, prefix-contains (c ∷ s) p q, contains-suffix s p q)

pub contains-suffix_not : (s p q : Text) → contains s q ≡ false → contains s (p ++ q) ≡ false
contains-suffix_not s p q h = elim (Bool-cases (contains s (p ++ q))) [
  | inl has ↦ cc (h, contains-suffix s p q has)
  | inr not ↦ not
]

pub free-of_unbroken : (s : Text) → is_free b'-' (without_breaks s) ≡ true → is_free b'-' s ≡ true
unfolding without_breaks is_free
free-of_unbroken [] h = refl
free-of_unbroken (c ∷ s) h = ground (arith, free-of_unbroken s)
