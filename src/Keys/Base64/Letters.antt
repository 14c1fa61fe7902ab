-- ===== src/Keys/Base64/Letters.antt =====
-- The letters of the standard base64 encoding, and the table of base64Decode.
use skeys.Prelude.{
  ℕ, zero, suc, ◌+◌, ◌*◌, ◌/◌, ◌%◌, ◌<◌, ◌≡◌, ap, refl, Bool, true, false, ◌&&◌, not, Option, none,
  some, List, [], ◌∷◌, ◌==◌, nat_eq, nat_beq_iff, arith, if◌then◌else◌,
}
use skeys.Text.{Text}
use skeys.Text.Strings.{is_space}
use skeys.Keys.Base64.{alphabet, index_of, is_skipped}

abbrev nth : ℕ → Text → ℕ
nth i [] = 0
nth zero (c ∷ cs) = c
nth (suc i) (c ∷ cs) = nth i cs

unfoldable pub letter : ℕ → ℕ
letter v = nth v alphabet

-- RFC 4648: three bytes as four letters, and the end padded with `=`
unfoldable pub encode : List ℕ → Text
unfolding letter
encode [] = []
encode (a ∷ []) = letter (a / 4) ∷ letter (a % 4 * 16) ∷ b'=' ∷ b'=' ∷ []
encode (a ∷ b ∷ []) =
    letter (a / 4) ∷ letter (a % 4 * 16 + b / 16) ∷ letter (b % 16 * 4) ∷ b'=' ∷ []
encode (a ∷ b ∷ c ∷ s) =
    letter (a / 4)
    ∷ letter (a % 4 * 16 + b / 16)
    ∷ letter (b % 16 * 4 + c / 64)
    ∷ letter (c % 64)
    ∷ encode s

-- a test that every value of six bits passes
holds_up_to : (ℕ → Bool) → ℕ → Bool
holds_up_to test zero = true
holds_up_to test (suc v) = let smaller = holds_up_to test v in if test v then smaller else false

holds_at :
    (test : ℕ → Bool) (v bound : ℕ) → holds_up_to test bound ≡ true → v < bound → test v ≡ true
unfolding holds_up_to
holds_at test v zero passed small = absurd (omega (arith, small))
holds_at test v (suc bound) passed small = ground (arith, holds_at test v bound)

abbrev is_value : Option ℕ → ℕ → Bool
is_value none v = false
is_value (some w) v = w == v

is_value_lem : (o : Option ℕ) (v : ℕ) → is_value o v ≡ true → o ≡ some v
is_value_lem none v h = cc h
is_value_lem (some w) v h = ap some ((nat_beq_iff w v).0 h)

values_table : holds_up_to (λ v. is_value (index_of (letter v) alphabet) v) 64 ≡ true
unfolding holds_up_to index_of letter
values_table = refl

index-letter : (v : ℕ) → v < 64 → index_of (letter v) alphabet ≡ some v
index-letter v h = is_value_lem _ v (holds_at _ v 64 values_table h)

abbrev is_plain : ℕ → Bool
is_plain c = not (c == b'=') && (not (is_skipped c) && (not (is_space c) && not (c == b'-')))

letters_table : holds_up_to (λ v. is_plain (letter v)) 64 ≡ true
unfolding holds_up_to letter is_space
letters_table = refl

letter-IsPlain : (v : ℕ) → v < 64 → is_plain (letter v) ≡ true
letter-IsPlain v h = holds_at _ v 64 letters_table h

pub record IsLetter (c v : ℕ) : Type 0 where
  pub value : index_of c alphabet ≡ some v
  pub no_pad : (c == b'=') ≡ false
  pub kept : is_skipped c ≡ false
  pub solid : is_space c ≡ false
  pub no_dash : (c == b'-') ≡ false

of_plain : (c v : ℕ) → index_of c alphabet ≡ some v → is_plain c ≡ true → IsLetter c v
of_plain c v h p = record {
  value = h;
  no_pad = ground arith;
  kept = ground arith;
  solid = ground arith;
  no_dash = ground arith;
}

pub letter-IsLetter : (v : ℕ) → v < 64 → IsLetter (letter v) v
letter-IsLetter v h = of_plain (letter v) v (index-letter v h) (letter-IsPlain v h)
