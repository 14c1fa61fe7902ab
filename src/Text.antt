-- ===== src/Text.antt =====
-- Go's strings as lists of code points, with their equality as a key of maps.
pub mod Decimal
pub mod Strings
pub mod Splitting
pub mod Trimming
pub mod Lines
pub mod Words
pub mod Numbers
pub mod Paths
pub mod Cleaning
use Prim.Native.Char.{code}
use Prim.Native.String
use skeys.Prelude.{
  ℕ, String, List, [], ◌∷◌, ◌≡◌, ◌≢◌, refl, false, Eq, ◌==◌, list_beq, list_beq_iff, arith,
}

abbrev pub Text : Type 0
Text = List ℕ

-- The code points of a literal.
abbrev pub codes : String → Text
codes String.[] = []
codes (String.◌∷◌ c s) = code c ∷ codes s

instance abbrev pub text_eq : Eq Text
text_eq = record { beq = list_beq; beq_iff = list_beq_iff }

-- Two texts that the test tells apart are different.
pub text_ne : (s t : Text) → (s == t) ≡ false → s ≢ t
text_ne s t h p = ground (arith, list_beq_iff s t)

pub eq-nil : (t : Text) → t ≢ [] → (t == []) ≡ false
eq-nil [] h = absurd (h refl)
eq-nil (c ∷ s) h = refl
