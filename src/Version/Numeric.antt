-- ===== src/Version/Numeric.antt =====
-- Versions that are printed numbers, with and without build metadata.
use skeys.Prelude.{
  ℕ, ◌^◌, ◌<◌, ◌≡◌, ◌≢◌, ◌∙◌, refl, ap, sym, append-nil, Bool, true, false, ◌&&◌, none, List, [],
  ◌∷◌, ◌++◌, ◌==◌, nat_eq, ltb, All, arith, if◌then◌else◌,
}
use skeys.Text.{Text, text_eq}
use skeys.Text.Decimal.{itoa, itoa-AreDigits, itoa-ne-nil, AreDigits, is_digit}
use skeys.Text.Strings.{split, join, cut, trim_prefix, has_prefix}
use skeys.Text.Splitting.{is_free, is_free-append, split-join, AreFree}
use skeys.Text.Numbers.{pos, ltℤ, int_of, int_of-itoa}
use skeys.Version.{
  strip_v, compare_numbers, compare_part, newer_parts, is_newer_version, same_int, is_patch_update,
  split_build_metadata,
}

abbrev pub print_parts : List ℕ → List Text
print_parts [] = []
print_parts (n ∷ ns) = itoa n ∷ print_parts ns

-- `major.minor.patch`
abbrev pub dotted : List ℕ → Text
dotted ns = join (b'.' ∷ []) (print_parts ns)

-- what an int64 can hold
abbrev pub AreInts : List ℕ → Type 0
AreInts = All (λ n. n < 2 ^ 63)

-- the order of versions by their numbers, the first that differs before the others
abbrev pub newer_numbers : List ℕ → List ℕ → Bool
newer_numbers [] ns = false
newer_numbers (m ∷ ms) [] = true
newer_numbers (m ∷ ms) (n ∷ ns) =
    if ltb n m then true else if ltb m n then false else newer_numbers ms ns

compare-numbers :
    (m n : ℕ)
    → m < 2 ^ 63
    → n < 2 ^ 63
    → compare_part (itoa m) (itoa n) ≡ compare_numbers (pos m) (pos n)
unfolding compare_part
compare-numbers m n hm hn = rw (int_of-itoa m hm, int_of-itoa n hn) refl

newer-print_parts :
    (ms ns : List ℕ)
    → AreInts ms
    → AreInts ns
    → newer_parts (print_parts ms) (print_parts ns) ≡ newer_numbers ms ns
unfolding newer_parts ltℤ
newer-print_parts [] ns hm hn = refl
newer-print_parts (m ∷ ms) [] hm hn = refl
newer-print_parts (m ∷ ms) (n ∷ ns) hm hn =
    rw (compare-numbers m n hm.0 hn.0) (ground (arith, newer-print_parts ms ns hm.1 hn.1))

pub free-of_digits : (c : ℕ) (s : Text) → is_digit c ≡ false → AreDigits s → is_free c s ≡ true
unfolding is_free
free-of_digits c [] h ds = refl
free-of_digits c (d ∷ s) h ds = ground (arith, free-of_digits c s h ds.1, ds.0)

parts-AreFree : (c : ℕ) (ns : List ℕ) → is_digit c ≡ false → AreFree c (print_parts ns)
parts-AreFree c [] h = tt
parts-AreFree c (n ∷ ns) h = (free-of_digits c (itoa n) h (itoa-AreDigits n), parts-AreFree c ns h)

-- no number starts with a `v`
pub strip-digits : (s t : Text) → s ≢ [] → AreDigits s → strip_v (s ++ t) ≡ s ++ t
unfolding trim_prefix has_prefix is_digit
strip-digits [] t h ds = absurd (h refl)
strip-digits (c ∷ s) t h ds = ground (arith, ds.0)

strip-dotted : (n : ℕ) (ns : List ℕ) → strip_v (dotted (n ∷ ns)) ≡ dotted (n ∷ ns)
unfolding join
strip-dotted n [] =
    ap strip_v (sym (append-nil (itoa n)))
    ∙ strip-digits (itoa n) [] (itoa-ne-nil n) (itoa-AreDigits n)
    ∙ append-nil (itoa n)
strip-dotted n (m ∷ ns) =
    strip-digits (itoa n) (b'.' ∷ dotted (m ∷ ns)) (itoa-ne-nil n) (itoa-AreDigits n)

pub is_dot : is_digit b'.' ≡ false
unfolding is_digit
is_dot = refl

split-dotted : (n : ℕ) (ns : List ℕ) → split b'.' (dotted (n ∷ ns)) ≡ print_parts (n ∷ ns)
split-dotted n ns =
    split-join b'.' (print_parts (n ∷ ns)) (λ e. cc) (parts-AreFree b'.' (n ∷ ns) is_dot)

-- Versions of dotted numbers that an int64 can hold are compared by their numbers, from the left; of
-- two that agree as far as both go, the longer is the newer.
pub newer-dotted :
    (m n : ℕ) (ms ns : List ℕ)
    → AreInts (m ∷ ms)
    → AreInts (n ∷ ns)
    → is_newer_version (dotted (m ∷ ms)) (dotted (n ∷ ns)) ≡ newer_numbers (m ∷ ms) (n ∷ ns)
unfolding is_newer_version
newer-dotted m n ms ns hm hn =
    rw (strip-dotted m ms, strip-dotted n ns, split-dotted m ms, split-dotted n ns)
      (newer-print_parts (m ∷ ms) (n ∷ ns) hm hn)

is_plus : is_digit b'+' ≡ false
unfolding is_digit
is_plus = refl

dotted-is_free : (ns : List ℕ) → is_free b'+' (dotted ns) ≡ true
unfolding join is_free
dotted-is_free [] = refl
dotted-is_free (n ∷ []) = free-of_digits b'+' (itoa n) is_plus (itoa-AreDigits n)
dotted-is_free (n ∷ m ∷ ns) =
    is_free-append b'+' (itoa n) (b'.' ∷ dotted (m ∷ ns))
      (free-of_digits b'+' (itoa n) is_plus (itoa-AreDigits n)) (dotted-is_free (m ∷ ns))

cut-of_free : (c : ℕ) (s : Text) → is_free c s ≡ true → cut c s ≡ none
unfolding cut is_free
cut-of_free c [] h = refl
cut-of_free c (d ∷ s) h = ground (arith, cut-of_free c s)

base-of_free : (s : Text) → is_free b'+' s ≡ true → (split_build_metadata s).0 ≡ s
unfolding split_build_metadata
base-of_free s h = rw (cut-of_free b'+' s h) refl

same-int :
    (m n : ℕ) → m < 2 ^ 63 → n < 2 ^ 63 → same_int (int_of (itoa m)) (int_of (itoa n)) ≡ (m == n)
unfolding ltℤ
same-int m n hm hn = rw (int_of-itoa m hm, int_of-itoa n hn) (ground arith)

-- Of two versions of dotted numbers, the step from one to the other is a patch exactly if the first two
-- numbers agree.
patch-dotted :
    (a b c d : ℕ) (ms ns : List ℕ)
    → AreInts (a ∷ b ∷ ms)
    → AreInts (c ∷ d ∷ ns)
    → is_patch_update (dotted (a ∷ b ∷ ms)) (dotted (c ∷ d ∷ ns)) ≡ (a == c && b == d)
unfolding is_patch_update
patch-dotted a b c d ms ns hm hn =
    rw
      (
        strip-dotted a (b ∷ ms),
        strip-dotted c (d ∷ ns),
        base-of_free (dotted (a ∷ b ∷ ms)) (dotted-is_free (a ∷ b ∷ ms)),
        base-of_free (dotted (c ∷ d ∷ ns)) (dotted-is_free (c ∷ d ∷ ns)),
        split-dotted a (b ∷ ms),
        split-dotted c (d ∷ ns),
        same-int a c hm.0 hn.0,
        same-int b d hm.1.0 hn.1.0,
      )
      (ground arith)
