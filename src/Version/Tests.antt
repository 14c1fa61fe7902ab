-- ===== src/Version/Tests.antt =====
-- The theorems at concrete versions.
use skeys.Prelude.{◌≡◌, refl, true, [], ◌∷◌, nat_eq, arith}
use skeys.Text.{codes}
use skeys.Text.Strings.{split, trim_prefix, has_prefix}
use skeys.Text.Decimal.{atoi_from, atoi, is_digit}
use skeys.Text.Numbers.{int_of, ltℤ}
use skeys.Version.{is_newer_version, newer_parts, compare_part}
use skeys.Version.Numeric.{dotted, newer_numbers, newer-dotted}

release_is_newer : is_newer_version (codes "v1.10.0") (codes "1.9.3") ≡ true
unfolding is_newer_version newer_parts compare_part split trim_prefix has_prefix int_of atoi
    atoi_from is_digit ltℤ
release_is_newer = refl

newer-dotted_example :
    is_newer_version (dotted (1 ∷ 10 ∷ 0 ∷ [])) (dotted (1 ∷ 9 ∷ []))
    ≡ newer_numbers (1 ∷ 10 ∷ 0 ∷ []) (1 ∷ 9 ∷ [])
newer-dotted_example =
    newer-dotted 1 1 (10 ∷ 0 ∷ []) (9 ∷ []) (omega arith, (omega arith, (omega arith, tt)))
      (omega arith, (omega arith, tt))
