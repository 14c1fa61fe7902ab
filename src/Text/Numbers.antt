-- ===== src/Text/Numbers.antt =====
-- `strconv.Atoi`, and the order of texts by bytes, which is the order by code points.
use skeys.Prelude.{
  ℕ, ◌-◌, ◌^◌, ◌<◌, ◌≡◌, refl, Bool, true, false, Option, none, some, [], ◌∷◌, ◌++◌, ◌==◌, nat_eq,
  ltb, leb, arith, if◌then◌else◌,
}
use skeys.Text.{Text, text_eq}
use skeys.Text.Decimal.{atoi, itoa, atoi-itoa, itoa-AreDigits, is_digit, AreDigits}

pub data ℤ : Type 0 where
  pos negsuc : ℕ → ℤ

unfoldable pub ltℤ : ℤ → ℤ → Bool
ltℤ (pos m) (pos n) = ltb m n
ltℤ (pos m) (negsuc n) = false
ltℤ (negsuc m) (pos n) = true
ltℤ (negsuc m) (negsuc n) = ltb n m

abbrev bounded_pos : Option ℕ → Option ℤ
bounded_pos none = none
bounded_pos (some n) = if ltb n (2 ^ 63) then some (pos n) else none

abbrev bounded_neg : Option ℕ → Option ℤ
bounded_neg none = none
bounded_neg (some n) =
    if n == 0 then some (pos 0) else if leb n (2 ^ 63) then some (negsuc (n - 1)) else none

-- `strconv.Atoi`: a sign, digits, and the bounds of an int64
unfoldable pub int_of : Text → Option ℤ
unfolding atoi
int_of [] = none
int_of (c ∷ s) =
    if c == b'-'
    then bounded_neg (atoi s)
    else if c == b'+'
    then bounded_pos (atoi s)
    else bounded_pos (atoi (c ∷ s))

unfoldable pub text_gt : Text → Text → Bool
text_gt [] t = false
text_gt (c ∷ s) [] = true
text_gt (c ∷ s) (d ∷ t) = let rest = text_gt s t in if c == d then rest else ltb d c

int_of-digits : (s : Text) → AreDigits s → int_of s ≡ bounded_pos (atoi s)
unfolding int_of is_digit
int_of-digits [] h = unfold atoi in refl
int_of-digits (c ∷ s) h = ground (arith, h.0)

-- Every number of an int64 that is not negative is read back from its print.
pub int_of-itoa : (n : ℕ) → n < 2 ^ 63 → int_of (itoa n) ≡ some (pos n)
int_of-itoa n h = rw (int_of-digits (itoa n) (itoa-AreDigits n), atoi-itoa n) (ground arith)

pub text_gt_irrefl : (s : Text) → text_gt s s ≡ false
unfolding text_gt
text_gt_irrefl [] = refl
text_gt_irrefl (c ∷ s) = ground (arith, text_gt_irrefl s)

pub text_gt_asym : (s t : Text) → text_gt s t ≡ true → text_gt t s ≡ false
unfolding text_gt
text_gt_asym [] t h = cc h
text_gt_asym (c ∷ s) [] h = refl
text_gt_asym (c ∷ s) (d ∷ t) h = ground (arith, text_gt_asym s t)

pub text_gt-append : (p s t : Text) → text_gt (p ++ s) (p ++ t) ≡ text_gt s t
unfolding text_gt
text_gt-append [] s t = refl
text_gt-append (c ∷ p) s t = ground (arith, text_gt-append p s t)
