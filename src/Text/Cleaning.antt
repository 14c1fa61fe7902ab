-- ===== src/Text/Cleaning.antt =====
-- Clean paths: `Clean` and `Join` on paths that are made of plain names.
use skeys.Prelude.{
  ◌≡◌, ◌≢◌, ◌∙◌, refl, ap, sym, true, false, List, [], ◌∷◌, ◌++◌, append_assoc, append-nil, ◌==◌,
  All, arith,
}
use skeys.Text.{Text, text_eq, codes}
use skeys.Text.Strings.{split, join, has_prefix}
use skeys.Text.Splitting.{is_free, split-append, split-of_free, split-join, AreFree}
use skeys.Text.Paths.{clean_from, clean, join_path, reverse_onto, print_path}

-- a component that `Clean` keeps
pub record IsName (c : Text) : Type 0 where
  pub free : is_free b'/' c ≡ true
  pub full : (c == []) ≡ false
  pub not_here : (c == codes ".") ≡ false
  pub not_up : (c == codes "..") ≡ false

abbrev pub AreNames : List Text → Type 0
AreNames = All IsName

-- the absolute path with these components
abbrev pub path_of : List Text → Text
path_of cs = b'/' ∷ join (b'/' ∷ []) cs

AreFree-of_names : (cs : List Text) → AreNames cs → AreFree b'/' cs
AreFree-of_names [] h = tt
AreFree-of_names (c ∷ cs) h = (h.0.free, AreFree-of_names cs h.1)

reverse-reverse :
    (xs ys zs : List Text) → reverse_onto (reverse_onto xs ys) zs ≡ reverse_onto ys (xs ++ zs)
reverse-reverse [] ys zs = refl
reverse-reverse (x ∷ xs) ys zs = reverse-reverse xs (x ∷ ys) zs

clean_from-names :
    (sofar cs rest : List Text)
    → AreNames cs
    → clean_from true sofar (cs ++ rest) ≡ clean_from true (reverse_onto cs sofar) rest
unfolding clean_from
clean_from-names sofar [] rest h = refl
clean_from-names sofar (c ∷ cs) rest h =
    rw (h.0.full, h.0.not_here, h.0.not_up) (clean_from-names (c ∷ sofar) cs rest h.1)

reverse-twice :
    (cs ds : List Text) → reverse_onto (reverse_onto ds (reverse_onto cs [])) [] ≡ cs ++ ds
reverse-twice cs ds =
    reverse-reverse ds (reverse_onto cs []) []
    ∙ reverse-reverse cs [] (ds ++ [])
    ∙ ap (λ l. cs ++ l) (append-nil ds)

clean_from-all :
    (sofar ds : List Text) → AreNames ds → clean_from true sofar ds ≡ reverse_onto ds sofar
unfolding clean_from
clean_from-all sofar ds h =
    ap (clean_from true sofar) (sym (append-nil ds)) ∙ clean_from-names sofar ds [] h

-- the components behind the root, as `Clean` sees them
clean-pieces :
    (s : Text) (cs : List Text)
    → split b'/' s ≡ cs
    → clean (b'/' ∷ s) ≡ print_path true (reverse_onto (clean_from true [] cs) [])
unfolding clean split clean_from
clean-pieces s cs e = rw e refl

pub clean-path_of : (cs : List Text) → AreNames cs → clean (path_of cs) ≡ path_of cs
clean-path_of [] h = unfold clean split clean_from join in refl
clean-path_of (c ∷ cs) h =
    clean-pieces (join (b'/' ∷ []) (c ∷ cs)) (c ∷ cs)
      (split-join b'/' (c ∷ cs) (λ e. cc) (AreFree-of_names (c ∷ cs) h))
    ∙ ap (λ l. print_path true (reverse_onto l [])) (clean_from-all [] (c ∷ cs) h)
    ∙ ap (print_path true) (reverse-twice [] (c ∷ cs))

-- joining a name to a path of plain names, in terms of the pieces of the name
join-pieces :
    (cs pieces : List Text) (c name : Text)
    → AreNames (c ∷ cs)
    → name ≢ []
    → split b'/' name ≡ pieces
    → join_path (path_of (c ∷ cs)) name
      ≡ print_path true (reverse_onto (clean_from true (reverse_onto (c ∷ cs) []) pieces) [])
unfolding join_path
join-pieces cs pieces c [] h full e = absurd (full refl)
join-pieces cs pieces c (n ∷ name) h full e =
    clean-pieces (join (b'/' ∷ []) (c ∷ cs) ++ b'/' ∷ n ∷ name) ((c ∷ cs) ++ pieces) (
      split-append b'/' (join (b'/' ∷ []) (c ∷ cs)) (n ∷ name)
      ∙ rw (split-join b'/' (c ∷ cs) (λ e. cc) (AreFree-of_names (c ∷ cs) h), e) refl)
    ∙ ap (λ l. print_path true (reverse_onto l [])) (clean_from-names [] (c ∷ cs) pieces h)

join-ne-nil : (d : Text) (ds : List Text) → (d == []) ≡ false → join (b'/' ∷ []) (d ∷ ds) ≢ []
unfolding join
join-ne-nil [] ds h e = cc h
join-ne-nil (x ∷ d) [] h e = cc e
join-ne-nil (x ∷ d) (f ∷ ds) h e = cc e

-- A path of plain names is joined to another by their components.
pub join-path_of :
    (cs ds : List Text) (c d : Text)
    → AreNames (c ∷ cs)
    → AreNames (d ∷ ds)
    → join_path (path_of (c ∷ cs)) (join (b'/' ∷ []) (d ∷ ds)) ≡ path_of ((c ∷ cs) ++ (d ∷ ds))
join-path_of cs ds c d hc hd =
    join-pieces cs (d ∷ ds) c (join (b'/' ∷ []) (d ∷ ds)) hc (join-ne-nil d ds hd.0.full)
      (split-join b'/' (d ∷ ds) (λ e. cc) (AreFree-of_names (d ∷ ds) hd))
    ∙ ap (λ l. print_path true (reverse_onto l []))
        (clean_from-all (reverse_onto (c ∷ cs) []) (d ∷ ds) hd)
    ∙ ap (print_path true) (reverse-twice (c ∷ cs) (d ∷ ds))

reverse-snoc :
    (cs acc : List Text) (c : Text) → reverse_onto (cs ++ c ∷ []) acc ≡ c ∷ reverse_onto cs acc
reverse-snoc [] acc c = refl
reverse-snoc (d ∷ cs) acc c = reverse-snoc cs (d ∷ acc) c

up-pieces :
    (sofar : List Text) (b e : Text)
    → IsName b
    → IsName e
    → clean_from true (b ∷ sofar) (codes ".." ∷ e ∷ []) ≡ e ∷ sofar
unfolding clean_from
up-pieces sofar b e hb he = rw (hb.not_up, he.full, he.not_here, he.not_up) refl

up-split : (e : Text) → is_free b'/' e ≡ true → split b'/' (codes "../" ++ e) ≡ codes ".." ∷ e ∷ []
up-split e h =
    split-append b'/' (codes "..") e
    ∙ rw (split-of_free b'/' (codes "..") (unfold is_free in refl), split-of_free b'/' e h) refl

-- A name that goes up once takes the place of the last component.
pub join-up :
    (cs : List Text) (b e : Text)
    → AreNames (cs ++ b ∷ [])
    → IsName b
    → IsName e
    → join_path (path_of (cs ++ b ∷ [])) (codes "../" ++ e) ≡ path_of (cs ++ e ∷ [])
join-up [] b e h hb he =
    join-pieces [] (codes ".." ∷ e ∷ []) b (codes "../" ++ e) h (λ x. cc) (up-split e he.free)
    ∙ ap (λ l. print_path true (reverse_onto l [])) (up-pieces [] b e hb he)
join-up (c ∷ cs) b e h hb he =
    join-pieces (cs ++ b ∷ []) (codes ".." ∷ e ∷ []) c (codes "../" ++ e) h (λ x. cc)
      (up-split e he.free)
    ∙ ap (λ l. print_path true (reverse_onto (clean_from true l (codes ".." ∷ e ∷ [])) []))
        (reverse-snoc (c ∷ cs) [] b)
    ∙ ap (λ l. print_path true (reverse_onto l [])) (up-pieces (reverse_onto (c ∷ cs) []) b e hb he)
    ∙ ap (print_path true) (reverse-reverse (c ∷ cs) [] (e ∷ []))

pub has_prefix-append : (s t : Text) → has_prefix (s ++ t) s ≡ true
unfolding has_prefix
has_prefix-append [] t = refl
has_prefix-append (c ∷ s) t = ground (arith, has_prefix-append s t)

pub join-snoc :
    (cs : List Text) (b s : Text)
    → join (b'/' ∷ []) (cs ++ (b ++ s) ∷ []) ≡ join (b'/' ∷ []) (cs ++ b ∷ []) ++ s
unfolding join
join-snoc [] b s = refl
join-snoc (c ∷ []) b s = sym (append_assoc c (b'/' ∷ b) s)
join-snoc (c ∷ d ∷ cs) b s =
    ap (λ t. c ++ b'/' ∷ t) (join-snoc (d ∷ cs) b s)
    ∙ sym (append_assoc c (b'/' ∷ join (b'/' ∷ []) (d ∷ cs ++ b ∷ [])) s)

pub join-append :
    (cs ds : List Text) (c d : Text)
    → join (b'/' ∷ []) ((c ∷ cs) ++ (d ∷ ds))
      ≡ join (b'/' ∷ []) (c ∷ cs) ++ b'/' ∷ join (b'/' ∷ []) (d ∷ ds)
unfolding join
join-append [] ds c d = refl
join-append (e ∷ cs) ds c d =
    ap (λ t. c ++ b'/' ∷ t) (join-append cs ds e d)
    ∙ sym (append_assoc c (b'/' ∷ join (b'/' ∷ []) (e ∷ cs)) (b'/' ∷ join (b'/' ∷ []) (d ∷ ds)))
