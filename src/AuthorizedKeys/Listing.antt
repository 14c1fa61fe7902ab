-- ===== src/AuthorizedKeys/Listing.antt =====
-- The keys that `List` finds, and what it finds in a file that is made of their lines.
use skeys.Prelude.{
  ℕ, suc, ◌≡◌, refl, sym, false, Option, none, some, List, [], ◌∷◌, All, Bool-cases, inl, inr,
  arith,
}
use mathlib.Core.Path.{subst}
use skeys.Text.{Text, text_eq}
use skeys.Text.Decimal.{itoa}
use skeys.Text.Strings.{trim_space, fields, scan_lines}
use skeys.Text.Trimming.{
  trim_space-trim_space, drop_cr-trim_space, is_free-trim_space, length-trim_space,
}
use skeys.AuthorizedKeys.{
  AuthorizedKey, Disk, list, list_text, key_of_fields, parse_fields, parse_line, parse_options,
  starts_key, keys_of_lines, push_some, is_skipped, file_of_lines,
}
use skeys.Text.Lines.{IsLine, AreLines, IsScanned, scan-AreScanned}
use skeys.AuthorizedKeys.Lines.{scan-file_of_lines}

-- the key as it is found on another line
abbrev pub renumber : ℕ → AuthorizedKey → AuthorizedKey
renumber n k = record k { id = itoa n; line_number = n }

abbrev pub number_from : ℕ → List AuthorizedKey → List AuthorizedKey
number_from n [] = []
number_from n (k ∷ ks) = renumber n k ∷ number_from (suc n) ks

-- A key whose line is read as it is, on whatever line of a file it stands.
pub record IsGood (k : AuthorizedKey) : Type 0 where
  pub line : IsLine k.public_key
  trimmed : trim_space k.public_key ≡ k.public_key
  pub kept : is_skipped k.public_key ≡ false
  pub parsed : (n : ℕ) → parse_line k.public_key n ≡ some (renumber n k)

abbrev AreRead : Text → AuthorizedKey → (ℕ → Option AuthorizedKey) → Type 0
AreRead line k parse = (k.public_key ≡ line) × ((m : ℕ) → parse m ≡ some (renumber m k))

key_of_fields-read :
    (line : Text) (n : ℕ) (os parts : List Text) (k : AuthorizedKey)
    → key_of_fields line n os parts ≡ some k
    → AreRead line k (λ m. key_of_fields line m os parts)
key_of_fields-read line n os [] k h = cc h
key_of_fields-read line n os (t ∷ []) k h = cc h
key_of_fields-read line n os (t ∷ key ∷ comment) k h = (ground arith, λ m. ground arith)

parse_fields-read :
    (line : Text) (n : ℕ) (parts : List Text) (k : AuthorizedKey)
    → parse_fields line n parts ≡ some k
    → AreRead line k (λ m. parse_fields line m parts)
parse_fields-read line n [] k h = cc h
parse_fields-read line n (p ∷ []) k h = cc h
parse_fields-read line n (p ∷ q ∷ ps) k h = elim (Bool-cases (starts_key p)) [
  | inl bare ↦
      let (l, f) = key_of_fields-read line n [] (p ∷ q ∷ ps) k (rw bare at h) in
      (l, λ m. rw bare (f m))
  | inr with_options ↦
      let (l, f) = key_of_fields-read line n (parse_options p) (q ∷ ps) k (rw with_options at h) in
      (l, λ m. rw with_options (f m))
]

parse_line-read :
    (line : Text) (n : ℕ) (k : AuthorizedKey)
    → parse_line line n ≡ some k
    → AreRead line k (parse_line line)
unfolding parse_line
parse_line-read line n k h = parse_fields-read line n (fields line) k h

IsGood-of_parsed :
    (raw : Text) (n : ℕ) (k : AuthorizedKey)
    → IsScanned raw
    → is_skipped (trim_space raw) ≡ false
    → parse_line (trim_space raw) n ≡ some k
    → IsGood k
IsGood-of_parsed raw n k s kept h =
    let (l, f) = parse_line-read (trim_space raw) n k h in
    record {
      line = subst IsLine (sym l) (record {
        free = is_free-trim_space b'\n' raw s.free;
        short = omega (arith, length-trim_space raw, s.short);
        stable = drop_cr-trim_space raw;
      });
      trimmed = rw l (trim_space-trim_space raw);
      kept = rw l kept;
      parsed = λ m. subst (λ line. parse_line line m ≡ some (renumber m k)) (sym l) (f m);
    }

push-AreGood :
    (o : Option AuthorizedKey) (ks : List AuthorizedKey)
    → ((k : AuthorizedKey) → o ≡ some k → IsGood k)
    → All IsGood ks
    → All IsGood (push_some o ks)
push-AreGood none ks h hs = hs
push-AreGood (some k) ks h hs = (h k refl, hs)

keys-AreGood :
    (n : ℕ) (lines : List Text) → All IsScanned lines → All IsGood (keys_of_lines n lines)
unfolding keys_of_lines
keys-AreGood n [] h = tt
keys-AreGood n (raw ∷ lines) h = elim (Bool-cases (is_skipped (trim_space raw))) [
  | inl skipped ↦ rw skipped (keys-AreGood (suc n) lines h.1)
  | inr kept ↦ rw kept (
      push-AreGood (parse_line (trim_space raw) n) (keys_of_lines (suc n) lines)
        (λ k. IsGood-of_parsed raw n k h.0 kept) (keys-AreGood (suc n) lines h.1))
]

abbrev pub lines_of : List AuthorizedKey → List Text
lines_of [] = []
lines_of (k ∷ ks) = k.public_key ∷ lines_of ks

keys-lines_of :
    (n : ℕ) (ks : List AuthorizedKey)
    → All IsGood ks
    → keys_of_lines n (lines_of ks) ≡ number_from n ks
unfolding keys_of_lines
keys-lines_of n [] h = refl
keys-lines_of n (k ∷ ks) h =
    rw (h.0.trimmed, h.0.kept, h.0.parsed n, keys-lines_of (suc n) ks h.1) refl

AreLines-of_good : (ks : List AuthorizedKey) → All IsGood ks → AreLines (lines_of ks)
AreLines-of_good [] h = tt
AreLines-of_good (k ∷ ks) h = (h.0.line, AreLines-of_good ks h.1)

-- A file that is made of the lines of good keys lists those keys, numbered from one.
pub list-lines_of :
    (ks : List AuthorizedKey)
    → All IsGood ks
    → list_text (file_of_lines (lines_of ks)) ≡ (number_from 1 ks, none)
list-lines_of ks h =
    rw (scan-file_of_lines (lines_of ks) (AreLines-of_good ks h), keys-lines_of 1 ks h) refl

pub listed-AreGood : (d : Disk) (file : Option Text) → All IsGood (list d file).0
unfolding list
listed-AreGood d none = tt
listed-AreGood d (some text) = elim (Bool-cases d.readable) [
  | inl allowed ↦ rw allowed (keys-AreGood 1 (scan_lines text).0 (scan-AreScanned text))
  | inr refused ↦ rw refused tt
]
