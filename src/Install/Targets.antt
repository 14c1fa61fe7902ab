-- ===== src/Install/Targets.antt =====
-- Where the entries of an archive are written, in a directory under an absolute path of plain names.
use skeys.Prelude.{◌≡◌, ◌∙◌, refl, ap, true, some, List, [], ◌∷◌, ◌++◌, All-append}
use skeys.Text.{Text, codes}
use skeys.Text.Strings.{join, has_prefix}
use skeys.Text.Paths.{clean, join_path}
use skeys.Text.Cleaning.{
  IsName, AreNames, path_of, clean-path_of, join-path_of, join-up, has_prefix-append, join-snoc,
  join-append,
}
use skeys.Install.{target_of}

target-of_joined :
    (dest name : Text) (cs : List Text)
    → clean dest ≡ dest
    → join_path dest name ≡ path_of cs
    → clean (path_of cs) ≡ path_of cs
    → has_prefix (path_of cs) dest ≡ true
    → target_of dest name ≡ some (path_of cs)
unfolding target_of
target-of_joined dest name cs d j c p = rw (j, c, d, p) refl

-- An entry whose name is made of plain names is written below the directory.
target_inside :
    (cs ds : List Text) (c d : Text)
    → AreNames (c ∷ cs)
    → AreNames (d ∷ ds)
    → target_of (path_of (c ∷ cs)) (join (b'/' ∷ []) (d ∷ ds))
      ≡ some (path_of (c ∷ cs) ++ b'/' ∷ join (b'/' ∷ []) (d ∷ ds))
target_inside cs ds c d hc hd =
    let all = (c ∷ cs) ++ (d ∷ ds) in
    target-of_joined (path_of (c ∷ cs)) (join (b'/' ∷ []) (d ∷ ds)) all (clean-path_of (c ∷ cs) hc)
      (join-path_of cs ds c d hc hd) (clean-path_of all (All-append IsName (c ∷ cs) (d ∷ ds) hc hd))
      (rw (join-append cs ds c d)
        (has_prefix-append (path_of (c ∷ cs)) (b'/' ∷ join (b'/' ∷ []) (d ∷ ds))))
    ∙ ap (λ t. some (b'/' ∷ t)) (join-append cs ds c d)

last-IsName : (cs : List Text) (b : Text) → AreNames (cs ++ b ∷ []) → IsName b
last-IsName [] b h = h.0
last-IsName (c ∷ cs) b h = last-IsName cs b h.1

snoc-AreNames :
    (cs : List Text) (b e : Text) → AreNames (cs ++ b ∷ []) → IsName e → AreNames (cs ++ e ∷ [])
snoc-AreNames [] b e h he = (he, tt)
snoc-AreNames (c ∷ cs) b e h he = (h.0, snoc-AreNames cs b e h.1 he)

-- The test against path traversal compares texts: an entry that goes up once and into a sibling whose
-- name starts with the name of the directory passes it, and is written outside of the directory.
sibling_escapes :
    (cs : List Text) (base suffix : Text)
    → AreNames (cs ++ base ∷ [])
    → IsName (base ++ suffix)
    → target_of (path_of (cs ++ base ∷ [])) (codes "../" ++ (base ++ suffix))
      ≡ some (path_of (cs ++ (base ++ suffix) ∷ []))
sibling_escapes cs base suffix h he =
    target-of_joined (path_of (cs ++ base ∷ [])) (codes "../" ++ (base ++ suffix))
      (cs ++ (base ++ suffix) ∷ []) (clean-path_of (cs ++ base ∷ []) h)
      (join-up cs base (base ++ suffix) h (last-IsName cs base h) he)
      (clean-path_of (cs ++ (base ++ suffix) ∷ []) (snoc-AreNames cs base (base ++ suffix) h he))
      (rw (join-snoc cs base suffix) (has_prefix-append (path_of (cs ++ base ∷ [])) suffix))
