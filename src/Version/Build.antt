-- ===== src/Version/Build.antt =====
-- Build metadata behind the last number of a version.
use skeys.Prelude.{
  ℕ, ◌+◌, ◌-◌, ◌*◌, ◌≡◌, ◌≢◌, ◌∙◌, refl, true, false, Option, none, some, List, [], ◌∷◌, ◌++◌,
  nat_eq, arith,
}
use skeys.Text.{Text}
use skeys.Text.Decimal.{itoa, itoa-AreDigits, itoa-ne-nil, AreDigits, is_digit, atoi, atoi_from}
use skeys.Text.Strings.{join}
use skeys.Text.Splitting.{is_free, is_free-append, split-join, AreFree}
use skeys.Text.Numbers.{ℤ, ltℤ, int_of, text_gt, text_gt_irrefl, text_gt-append}
use skeys.Version.{strip_v, compare_part, compare_read, or_else, newer_parts, is_newer_version}
use skeys.Version.Numeric.{print_parts, free-of_digits, strip-digits, is_dot}

abbrev pub built_part : ℕ → Text → Text
built_part n build = itoa n ++ b'+' ∷ build

-- dotted numbers, the last with build metadata
abbrev pub with_build : List ℕ → ℕ → Text → Text
with_build ns n build = join (b'.' ∷ []) (print_parts ns ++ built_part n build ∷ [])

atoi_from-plus : (k : ℕ) (s t : Text) → AreDigits s → atoi_from k (s ++ b'+' ∷ t) ≡ none
unfolding atoi_from is_digit
atoi_from-plus k [] t h = refl
atoi_from-plus k (c ∷ s) t h = ground (arith, atoi_from-plus (k * 10 + (c - b'0')) s t h.1, h.0)

int_of-plus : (s t : Text) → s ≢ [] → AreDigits s → int_of (s ++ b'+' ∷ t) ≡ none
unfolding int_of atoi is_digit
int_of-plus [] t h ds = absurd (h refl)
int_of-plus (c ∷ s) t h ds = ground (arith, atoi_from-plus 0 (c ∷ s) t ds, ds.0)

ltℤ_irrefl : (m : ℤ) → ltℤ m m ≡ false
unfolding ltℤ
ltℤ_irrefl (ℤ.pos m) = ground arith
ltℤ_irrefl (ℤ.negsuc m) = ground arith

compare_read_self : (o : Option ℤ) (a : Text) → compare_read o o a a ≡ none
compare_read_self none a = rw (text_gt_irrefl a) refl
compare_read_self (some m) a = rw (ltℤ_irrefl m) refl

newer-common :
    (ps : List Text) (a b : Text)
    → newer_parts (ps ++ a ∷ []) (ps ++ b ∷ []) ≡ or_else (compare_part a b) false
unfolding newer_parts compare_part
newer-common [] a b = refl
newer-common (p ∷ ps) a b = rw (compare_read_self (int_of p) p) (newer-common ps a b)

compare-built :
    (n : ℕ) (b c : Text)
    → or_else (compare_part (built_part n b) (built_part n c)) false ≡ text_gt b c
unfolding compare_part
compare-built n b c =
    rw
      (
        int_of-plus (itoa n) b (itoa-ne-nil n) (itoa-AreDigits n),
        text_gt-append (itoa n) (b'+' ∷ b) (b'+' ∷ c),
        text_gt-append (itoa n) (b'+' ∷ c) (b'+' ∷ b),
      )
      (unfold text_gt in ground arith)

built-AreFree :
    (ns : List ℕ) (n : ℕ) (b : Text)
    → is_free b'.' b ≡ true
    → AreFree b'.' (print_parts ns ++ built_part n b ∷ [])
built-AreFree [] n b h = (
  is_free-append b'.' (itoa n) (b'+' ∷ b) (free-of_digits b'.' (itoa n) is_dot (itoa-AreDigits n))
      (unfold is_free in h),
  tt,
)
built-AreFree (m ∷ ns) n b h =
    (free-of_digits b'.' (itoa m) is_dot (itoa-AreDigits m), built-AreFree ns n b h)

strip-built : (ns : List ℕ) (n : ℕ) (b : Text) → strip_v (with_build ns n b) ≡ with_build ns n b
unfolding join
strip-built [] n b = strip-digits (itoa n) (b'+' ∷ b) (itoa-ne-nil n) (itoa-AreDigits n)
strip-built (m ∷ []) n b = strip-digits (itoa m) _ (itoa-ne-nil m) (itoa-AreDigits m)
strip-built (m ∷ k ∷ ns) n b = strip-digits (itoa m) _ (itoa-ne-nil m) (itoa-AreDigits m)

snoc-ne-nil : (ps : List Text) (a : Text) → ps ++ a ∷ [] ≢ []
snoc-ne-nil [] a e = cc
snoc-ne-nil (p ∷ ps) a e = cc

-- Of two versions with the same numbers and build metadata without dots, the newer is the one whose
-- metadata is greater as a text, also where both are numbers: build 9 is newer than build 10.
newer-built :
    (ns : List ℕ) (n : ℕ) (b c : Text)
    → is_free b'.' b ≡ true
    → is_free b'.' c ≡ true
    → is_newer_version (with_build ns n b) (with_build ns n c) ≡ text_gt b c
unfolding is_newer_version
newer-built ns n b c hb hc =
    rw
      (
        strip-built ns n b,
        strip-built ns n c,
        split-join b'.' _ (snoc-ne-nil (print_parts ns) (built_part n b)) (built-AreFree ns n b hb),
        split-join b'.' _ (snoc-ne-nil (print_parts ns) (built_part n c)) (built-AreFree ns n c hc),
      )
      (newer-common (print_parts ns) (built_part n b) (built_part n c) ∙ compare-built n b c)
