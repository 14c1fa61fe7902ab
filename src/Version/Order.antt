-- ===== src/Version/Order.antt =====
-- No version is newer than itself, and of two versions at most one is newer.
use skeys.Prelude.{◌≡◌, refl, Bool, true, false, not, Option, none, some, List, [], ◌∷◌, arith}
use skeys.Text.{Text}
use skeys.Text.Strings.{split}
use skeys.Text.Numbers.{ℤ, pos, negsuc, ltℤ, int_of, text_gt_asym}
use skeys.Version.{
  strip_v, compare_numbers, compare_texts, compare_read, compare_part, newer_parts,
  is_newer_version,
}

ltℤ_asym : (m n : ℤ) → ltℤ m n ≡ true → ltℤ n m ≡ false
unfolding ltℤ
ltℤ_asym (pos m) (pos n) h = ground arith
ltℤ_asym (pos m) (negsuc n) h = cc h
ltℤ_asym (negsuc m) (pos n) h = refl
ltℤ_asym (negsuc m) (negsuc n) h = ground arith

-- the answer with its two sides exchanged
abbrev swapped : Option Bool → Option Bool
swapped none = none
swapped (some b) = some (not b)

numbers_swapped : (m n : ℤ) → compare_numbers n m ≡ swapped (compare_numbers m n)
numbers_swapped m n = ground (arith, ltℤ_asym m n, ltℤ_asym n m)

texts_swapped : (a b : Text) → compare_texts b a ≡ swapped (compare_texts a b)
texts_swapped a b = ground (arith, text_gt_asym a b, text_gt_asym b a)

read_swapped : (m n : Option ℤ) (a b : Text) → compare_read n m b a ≡ swapped (compare_read m n a b)
read_swapped (some m) (some n) a b = numbers_swapped m n
read_swapped (some m) none a b = texts_swapped a b
read_swapped none (some n) a b = texts_swapped a b
read_swapped none none a b = texts_swapped a b

parts_swapped : (ps qs : List Text) → newer_parts ps qs ≡ true → newer_parts qs ps ≡ false
unfolding newer_parts compare_part
parts_swapped [] qs h = cc h
parts_swapped (a ∷ ps) [] h = refl
parts_swapped (a ∷ ps) (b ∷ qs) h =
    ground (arith, parts_swapped ps qs, read_swapped (int_of a) (int_of b) a b)

-- Of two version texts, whatever they are, at most one is newer than the other.
newer_asym : (a b : Text) → is_newer_version a b ≡ true → is_newer_version b a ≡ false
unfolding is_newer_version
newer_asym a b h = parts_swapped (split b'.' (strip_v a)) (split b'.' (strip_v b)) h
