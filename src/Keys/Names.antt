-- ===== src/Keys/Names.antt =====
-- Which files the names of keys stand for.
use skeys.Prelude.{
  ◌≡◌, ◌∙◌, refl, ap, Bool, true, false, ◌||◌, List, [], ◌∷◌, ◌++◌, ◌==◌, nat_eq, ok, Bool-cases,
  inl, inr, arith,
}
use skeys.Text.{Text, text_eq, codes}
use skeys.Text.Strings.{contains, has_prefix, join}
use skeys.Text.Splitting.{is_free}
use skeys.Text.Paths.{join_path}
use skeys.Text.Cleaning.{IsName, AreNames, path_of, join-path_of, join-append}
use skeys.Keys.Naming.{validate_key_name, is_abs}

free-of_contains : (c : Text) → contains c (codes "/") ≡ false → is_free b'/' c ≡ true
unfolding contains is_free has_prefix
free-of_contains [] h = refl
free-of_contains (d ∷ s) h = ground (arith, free-of_contains s)

record IsAccepted (name : Text) : Type 0 where
  full : (name == []) ≡ false
  no_slash : contains name (codes "/") ≡ false
  no_dot : has_prefix name (codes ".") ≡ false

accepted : (name : Text) → validate_key_name name ≡ ok tt → IsAccepted name
unfolding validate_key_name
accepted name h = elim (Bool-cases (name == [])) [
  | inl empty ↦ cc (rw empty at h)
  | inr full ↦ elim (Bool-cases (contains name (codes "/") || contains name (codes "\\"))) [
    | inl separated ↦ cc (rw (full, separated) at h)
    | inr whole ↦ elim (Bool-cases (has_prefix name (codes "."))) [
      | inl dotted ↦ cc (rw (full, whole, dotted) at h)
      | inr plain ↦ record { full = full; no_slash = left_false _ _ whole; no_dot = plain }
    ]
  ]
]
  where
    left_false : (a b : Bool) → (a || b) ≡ false → a ≡ false
    left_false true b h = cc h
    left_false false b h = refl

not_prefixed :
    (name p : Text)
    → has_prefix name (codes ".") ≡ false
    → has_prefix p (codes ".") ≡ true
    → (name == p) ≡ false
not_prefixed name p h k = elim (Bool-cases (name == p)) [
  | inl same ↦ cc ((text_eq.beq_iff name p).0 same, h, k)
  | inr other ↦ other
]

accepted-IsName : (name : Text) → validate_key_name name ≡ ok tt → IsName name
accepted-IsName name h =
    let a = accepted name h in
    record {
      free = free-of_contains name a.no_slash;
      full = a.full;
      not_here = not_prefixed name (codes ".") a.no_dot (unfold has_prefix in refl);
      not_up = not_prefixed name (codes "..") a.no_dot (unfold has_prefix in refl);
    }

pub valid-is_relative : (name : Text) → validate_key_name name ≡ ok tt → is_abs name ≡ false
valid-is_relative name h = relative name (accepted-IsName name h).free
  where
    relative : (name : Text) → is_free b'/' name ≡ true → is_abs name ≡ false
    relative [] h = refl
    relative (c ∷ s) h = unfold is_free in (ground arith)

-- A name of a key that is accepted names a file directly in the directory of the keys, whose path is
-- made of plain names.
pub accepted_is_inside :
    (cs : List Text) (c name : Text)
    → AreNames (c ∷ cs)
    → validate_key_name name ≡ ok tt
    → join_path (path_of (c ∷ cs)) name ≡ path_of (c ∷ cs) ++ b'/' ∷ name
unfolding join
accepted_is_inside cs c name h v =
    join-path_of cs [] c name h (accepted-IsName name v, tt)
    ∙ ap (λ t. b'/' ∷ t) (join-append cs [] c name)
