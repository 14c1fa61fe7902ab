-- ===== src/Version.antt =====
-- skeys-core/update/manager.go: the comparison of version texts.
pub mod Order
pub mod Numeric
pub mod Build
mod Tests
use skeys.Prelude.{Bool, true, false, not, ◌||◌, Option, none, some, List, [], ◌∷◌, if◌then◌else◌}
use skeys.Text.{Text, codes}
use skeys.Text.Strings.{split, cut, trim_prefix}
use skeys.Text.Numbers.{ℤ, ltℤ, int_of, text_gt}

abbrev pub strip_v : Text → Text
strip_v s = trim_prefix s (codes "v")

-- Whether the loop of `isNewerVersion` stops at a pair of parts, and with what answer.
abbrev compare_numbers : ℤ → ℤ → Option Bool
compare_numbers a b = if ltℤ b a then some true else if ltℤ a b then some false else none

abbrev compare_texts : Text → Text → Option Bool
compare_texts a b = if text_gt a b then some true else if text_gt b a then some false else none

abbrev compare_read : Option ℤ → Option ℤ → Text → Text → Option Bool
compare_read (some m) (some n) a b = compare_numbers m n
compare_read (some m) none a b = compare_texts a b
compare_read none n a b = compare_texts a b

unfoldable pub compare_part : Text → Text → Option Bool
compare_part a b = compare_read (int_of a) (int_of b) a b

abbrev pub or_else : Option Bool → Bool → Bool
or_else none rest = rest
or_else (some answer) rest = answer

-- With equal parts as far as both go, the longer version is the newer.
unfoldable pub newer_parts : List Text → List Text → Bool
unfolding compare_part
newer_parts [] qs = false
newer_parts (a ∷ ps) [] = true
newer_parts (a ∷ ps) (b ∷ qs) = or_else (compare_part a b) (newer_parts ps qs)

unfoldable pub is_newer_version : Text → Text → Bool
unfolding newer_parts
is_newer_version a b = newer_parts (split b'.' (strip_v a)) (split b'.' (strip_v b))

abbrev cut_or_all : Option (Text × Text) → Text → Text × Text
cut_or_all none version = (version, [])
cut_or_all (some parts) version = parts

unfoldable pub split_build_metadata : Text → Text × Text
split_build_metadata version = cut_or_all (cut b'+' version) version

abbrev same_int : Option ℤ → Option ℤ → Bool
same_int (some m) (some n) = not (ltℤ m n || ltℤ n m)
same_int (some m) none = false
same_int none n = false

abbrev pub same_minor : List Text → List Text → Bool
same_minor (a ∷ b ∷ ps) (c ∷ d ∷ cs) =
    if same_int (int_of a) (int_of c) then same_int (int_of b) (int_of d) else false
same_minor [] cs = false
same_minor (a ∷ []) cs = false
same_minor (a ∷ b ∷ ps) [] = false
same_minor (a ∷ b ∷ ps) (c ∷ []) = false

unfoldable pub is_patch_update : Text → Text → Bool
unfolding split_build_metadata
is_patch_update current latest =
    same_minor (split b'.' (split_build_metadata (strip_v current)).0)
      (split b'.' (split_build_metadata (strip_v latest)).0)
