-- ===== src/Text/Decimal.antt =====
-- `strconv.Itoa` and `%d` on numbers that are not negative, and `strconv.Atoi` on digits.
use skeys.Prelude.{
  ℕ, zero, suc, ◌+◌, ◌-◌, ◌*◌, ◌/◌, ◌%◌, ◌<◌, ◌≡◌, ◌≢◌, ◌∙◌, refl, Option, none, some, [], ◌∷◌, inl,
  inr, Bool-cases, All, ltb, leb, ◌&&◌, Bool, true, arith, if◌then◌else◌,
}
use skeys.Text.{Text}

-- The first argument bounds the number of digits.
itoa_fuel : ℕ → ℕ → Text → Text
itoa_fuel zero n rest = rest
itoa_fuel (suc f) n rest =
    let more = itoa_fuel f (n / 10) ((b'0' + n % 10) ∷ rest) in
    if ltb n 10 then (b'0' + n) ∷ rest else more

unfoldable pub itoa : ℕ → Text
unfolding itoa_fuel
itoa n = itoa_fuel (suc n) n []

unfoldable pub is_digit : ℕ → Bool
is_digit c = leb b'0' c && leb c b'9'

unfoldable pub atoi_from : ℕ → Text → Option ℕ
unfolding is_digit
atoi_from n [] = some n
atoi_from n (c ∷ s) =
    let rest = atoi_from (n * 10 + (c - b'0')) s in if is_digit c then rest else none

-- Numbers of digits alone, which is what `%d` prints; no sign and no bound.
unfoldable pub atoi : Text → Option ℕ
unfolding atoi_from
atoi [] = none
atoi (c ∷ s) = atoi_from 0 (c ∷ s)

-- Enough fuel prints every digit: reading them back gives the number.
atoi_from-itoa_fuel :
    (f n : ℕ) (rest : Text) → n < f → atoi_from 0 (itoa_fuel f n rest) ≡ atoi_from n rest
unfolding itoa_fuel atoi_from
atoi_from-itoa_fuel zero n rest h = absurd (omega arith)
atoi_from-itoa_fuel (suc f) n rest h =
    ground (arith, atoi_from-itoa_fuel f (n / 10) ((b'0' + n % 10) ∷ rest))

itoa_fuel-ne-nil : (f n : ℕ) (rest : Text) → rest ≢ [] → itoa_fuel f n rest ≢ []
unfolding itoa_fuel
itoa_fuel-ne-nil zero n rest h = h
itoa_fuel-ne-nil (suc f) n rest h =
    ground (arith, itoa_fuel-ne-nil f (n / 10) ((b'0' + n % 10) ∷ rest) (λ e. cc e))

pub itoa-ne-nil : (n : ℕ) → itoa n ≢ []
unfolding itoa
itoa-ne-nil n = ground (arith, itoa_fuel-ne-nil n (n / 10) ((b'0' + n % 10) ∷ []) (λ e. cc e))

atoi-of_cons : (s : Text) → s ≢ [] → atoi s ≡ atoi_from 0 s
unfolding atoi
atoi-of_cons [] h = absurd (h refl)
atoi-of_cons (c ∷ s) h = refl

-- Every number is read back from its decimal print.
pub atoi-itoa : (n : ℕ) → atoi (itoa n) ≡ some n
atoi-itoa n =
    atoi-of_cons (itoa n) (itoa-ne-nil n)
    ∙ (unfold itoa atoi_from in atoi_from-itoa_fuel (suc n) n [] (omega arith))

itoa-injective : (m n : ℕ) → itoa m ≡ itoa n → m ≡ n
itoa-injective m n h = ground (arith, atoi-itoa m, atoi-itoa n, h)

abbrev pub AreDigits : Text → Type 0
AreDigits = All (λ c. is_digit c ≡ true)

itoa_fuel-AreDigits : (f n : ℕ) (rest : Text) → AreDigits rest → AreDigits (itoa_fuel f n rest)
unfolding itoa_fuel is_digit
itoa_fuel-AreDigits zero n rest h = h
itoa_fuel-AreDigits (suc f) n rest h = elim (Bool-cases (ltb n 10)) [
  | inl low ↦ rw low (ground arith, h)
  | inr high ↦ rw high (itoa_fuel-AreDigits f (n / 10) ((b'0' + n % 10) ∷ rest) (ground arith, h))
]

pub itoa-AreDigits : (n : ℕ) → AreDigits (itoa n)
unfolding itoa
itoa-AreDigits n = itoa_fuel-AreDigits (suc n) n [] tt
