-- ===== src/Text/Paths.antt =====
-- `filepath.Clean` and `filepath.Join` with slashes.
use skeys.Prelude.{Bool, true, false, List, [], ◌∷◌, ◌++◌, ◌==◌, list_beq, if◌then◌else◌}
use skeys.Text.{Text, text_eq, codes}
use skeys.Text.Strings.{split, join}

-- a path that starts at the root
abbrev pub is_rooted : Text → Bool
is_rooted [] = false
is_rooted (c ∷ s) = list_beq (c ∷ []) (b'/' ∷ [])

-- the last component goes, unless there is none to go
abbrev pub go_up : Bool → List Text → List Text
go_up rooted [] = if rooted then [] else codes ".." ∷ []
go_up rooted (c ∷ cs) = if c == codes ".." then codes ".." ∷ c ∷ cs else cs

-- The components so far are in reverse.
unfoldable pub clean_from : Bool → List Text → List Text → List Text
clean_from rooted sofar [] = sofar
clean_from rooted sofar (c ∷ cs) =
    let skipped = clean_from rooted sofar cs in
    let up = clean_from rooted (go_up rooted sofar) cs in
    let down = clean_from rooted (c ∷ sofar) cs in
    if c == []
    then skipped
    else if c == codes "."
    then skipped
    else if c == codes ".."
    then up
    else down

abbrev pub reverse_onto : List Text → List Text → List Text
reverse_onto [] ys = ys
reverse_onto (x ∷ xs) ys = reverse_onto xs (x ∷ ys)

abbrev pub print_path : Bool → List Text → Text
print_path true cs = b'/' ∷ join (b'/' ∷ []) cs
print_path false [] = codes "."
print_path false (c ∷ cs) = join (b'/' ∷ []) (c ∷ cs)

unfoldable pub clean : Text → Text
unfolding clean_from
clean path =
    print_path (is_rooted path) (reverse_onto (clean_from (is_rooted path) [] (split b'/' path)) [])

-- `filepath.Join` of two elements leaves out empty ones.
unfoldable pub join_path : Text → Text → Text
unfolding clean
join_path [] [] = []
join_path [] (c ∷ s) = clean (c ∷ s)
join_path (d ∷ dir) [] = clean (d ∷ dir)
join_path (d ∷ dir) (c ∷ s) = clean ((d ∷ dir) ++ b'/' ∷ c ∷ s)
