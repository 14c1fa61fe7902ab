-- ===== src/Keys/Base64/Shape.antt =====
-- What the encoded text is made of, and where its beginning comes from.
use skeys.Prelude.{
  ℕ, zero, suc, ◌+◌, ◌/◌, ◌%◌, ◌*◌, ◌<◌, ◌≤◌, ◌≡◌, ◌≢◌, refl, true, false, [], ◌∷◌, List, nat_eq,
  ap, length, take, arith,
}
use skeys.Text.{Text}
use skeys.Text.Words.{IsSolid, IsWord}
use skeys.Text.Splitting.{is_free}
use skeys.Text.Strings.{is_space}
use skeys.Keys.Base64.Letters.{encode, letter, letter-IsLetter}
use skeys.Keys.Base64.RoundTrip.{AreBytes}

solid : (v : ℕ) → v < 64 → is_space (letter v) ≡ false
solid v h = (letter-IsLetter v h).solid

free_cons : (v : ℕ) (s : Text) → v < 64 → is_free b'-' s ≡ true → is_free b'-' (letter v ∷ s) ≡ true
unfolding is_free
free_cons v s h k = rw (letter-IsLetter v h).no_dash k

pad_solid : is_space b'=' ≡ false
unfolding is_space
pad_solid = refl

encode-IsSolid : (bs : List ℕ) → AreBytes bs → IsSolid (encode bs)
unfolding encode
encode-IsSolid [] h = tt
encode-IsSolid (a ∷ []) h = (
  solid (a / 4) (omega (arith, h.0)),
  (solid (a % 4 * 16) (omega arith), (pad_solid, (pad_solid, tt))),
)
encode-IsSolid (a ∷ b ∷ []) h = (
  solid (a / 4) (omega (arith, h.0)),
  (
    solid (a % 4 * 16 + b / 16) (omega (arith, h.1.0)),
    (solid (b % 16 * 4) (omega arith), (pad_solid, tt)),
  ),
)
encode-IsSolid (a ∷ b ∷ c ∷ s) h = (
  solid (a / 4) (omega (arith, h.0)),
  (
    solid (a % 4 * 16 + b / 16) (omega (arith, h.1.0)),
    (
      solid (b % 16 * 4 + c / 64) (omega (arith, h.1.1.0)),
      (solid (c % 64) (omega arith), encode-IsSolid s h.1.1.1),
    ),
  ),
)

pads_free : is_free b'-' (b'=' ∷ b'=' ∷ []) ≡ true
unfolding is_free
pads_free = refl

nil_free : is_free b'-' [] ≡ true
unfolding is_free
nil_free = refl

pad_free : is_free b'-' (b'=' ∷ []) ≡ true
unfolding is_free
pad_free = refl

pub encode-is_free : (bs : List ℕ) → AreBytes bs → is_free b'-' (encode bs) ≡ true
unfolding encode
encode-is_free [] h = nil_free
encode-is_free (a ∷ []) h =
    free_cons (a / 4) _ (omega (arith, h.0)) (free_cons (a % 4 * 16) _ (omega arith) pads_free)
encode-is_free (a ∷ b ∷ []) h = free_cons (a / 4) _ (omega (arith, h.0)) (
    free_cons (a % 4 * 16 + b / 16) _ (omega (arith, h.1.0))
      (free_cons (b % 16 * 4) _ (omega arith) pad_free))
encode-is_free (a ∷ b ∷ c ∷ s) h = free_cons (a / 4) _ (omega (arith, h.0)) (
    free_cons (a % 4 * 16 + b / 16) _ (omega (arith, h.1.0)) (
      free_cons (b % 16 * 4 + c / 64) _ (omega (arith, h.1.1.0))
        (free_cons (c % 64) _ (omega arith) (encode-is_free s h.1.1.1))))

pub encode-IsWord : (bs : List ℕ) → AreBytes bs → 0 < length bs → IsWord (encode bs)
encode-IsWord bs h p = record { full = full bs p; solid = encode-IsSolid bs h }
  where
    full : (bs : List ℕ) → 0 < length bs → encode bs ≢ []
    full [] p = absurd (omega (arith, p))
    full (a ∷ []) p = unfold encode in λ e. cc
    full (a ∷ b ∷ []) p = unfold encode in λ e. cc
    full (a ∷ b ∷ c ∷ s) p = unfold encode in λ e. cc

abbrev pub triples : ℕ → ℕ
triples zero = 0
triples (suc k) = suc (suc (suc (triples k)))

abbrev pub quads : ℕ → ℕ
quads zero = 0
quads (suc k) = suc (suc (suc (suc (quads k))))

pub take-encode :
    (k : ℕ) (bs : List ℕ)
    → triples k ≤ length bs
    → take (quads k) (encode bs) ≡ encode (take (triples k) bs)
unfolding encode
take-encode zero bs h = refl
take-encode (suc k) [] h = absurd (omega (arith, h))
take-encode (suc k) (a ∷ []) h = absurd (omega (arith, h))
take-encode (suc k) (a ∷ b ∷ []) h = absurd (omega (arith, h))
take-encode (suc k) (a ∷ b ∷ c ∷ s) h =
    ap
      (λ r.
        letter (a / 4)
        ∷ letter (a % 4 * 16 + b / 16)
        ∷ letter (b % 16 * 4 + c / 64)
        ∷ letter (c % 64)
        ∷ r)
      (take-encode k s (omega (arith, h)))

pub length-encode : (k : ℕ) (bs : List ℕ) → triples k ≤ length bs → quads k ≤ length (encode bs)
unfolding encode
length-encode zero bs h = omega arith
length-encode (suc k) [] h = absurd (omega (arith, h))
length-encode (suc k) (a ∷ []) h = absurd (omega (arith, h))
length-encode (suc k) (a ∷ b ∷ []) h = absurd (omega (arith, h))
length-encode (suc k) (a ∷ b ∷ c ∷ s) h = omega (arith, length-encode k s (omega (arith, h)))
