-- ===== src/Keys/Base64/RoundTrip.antt =====
-- base64Decode gives back what the standard encoding made.
use skeys.Prelude.{
  ℕ, ◌+◌, ◌-◌, ◌*◌, ◌/◌, ◌%◌, ◌<◌, ◌≤◌, ◌≡◌, ◌∙◌, ap, refl, false, List, [], ◌∷◌, ◌++◌, ◌==◌,
  nat_eq, ltb, length, All, arith,
}
use skeys.Text.{Text}
use skeys.Keys.Base64.{value_of, read_four, is_skipped, base64_decode, bytes, bytes_of}
use skeys.Keys.Base64.Letters.{encode, IsLetter, letter-IsLetter}

abbrev pub AreBytes : List ℕ → Type 0
AreBytes = All (λ b. b < 256)

value_of-letter :
    (val c v : ℕ) (cs : Text) → IsLetter c v → value_of val (c ∷ cs) ≡ value_of (val * 64 + v) cs
unfolding value_of
value_of-letter val c v cs h = rw (h.no_pad, h.value) refl

value_of-first : (c v : ℕ) (cs : Text) → IsLetter c v → value_of 0 (c ∷ cs) ≡ value_of v cs
value_of-first c v cs h = value_of-letter 0 c v cs h ∙ ap (λ x. value_of x cs) (omega arith)

room_left : (room : ℕ) → 1 ≤ room → (room == 0) ≡ false
room_left room h = ground arith

decode-bytes :
    (room c d e f : ℕ) (s : Text) (out : List ℕ)
    → 1 ≤ room
    → is_skipped c ≡ false
    → read_four room c d e f ≡ bytes out
    → base64_decode room (c ∷ d ∷ e ∷ f ∷ s)
      ≡ (out ++ (base64_decode (room - length out) s).0, (base64_decode (room - length out) s).1)
unfolding base64_decode
decode-bytes room c d e f s out h k r = rw (room_left room h, k, r) refl

fits : (room n : ℕ) → n ≤ room → ltb room n ≡ false
fits room n h = ground arith

three_bytes :
    (a b c : ℕ)
    → a < 256
    → b < 256
    → c < 256
    → bytes_of 0 (((a / 4 * 64 + (a % 4 * 16 + b / 16)) * 64 + (b % 16 * 4 + c / 64)) * 64 + c % 64)
      ≡ a ∷ b ∷ c ∷ []
three_bytes a b c ha hb hc = ground arith

two_bytes :
    (a b : ℕ)
    → a < 256
    → b < 256
    → bytes_of 1 ((a / 4 * 64 + (a % 4 * 16 + b / 16)) * 64 + b % 16 * 4) ≡ a ∷ b ∷ []
two_bytes a b ha hb = ground arith

one_byte : (a : ℕ) → a < 256 → bytes_of 2 (a / 4 * 64 + a % 4 * 16) ≡ a ∷ []
one_byte a ha = ground arith

module _ (room c d e f v w x y : ℕ) where
  read-letters :
      IsLetter c v
      → IsLetter d w
      → IsLetter e x
      → IsLetter f y
      → 3 ≤ room
      → read_four room c d e f ≡ bytes (bytes_of 0 (((v * 64 + w) * 64 + x) * 64 + y))
  unfolding read_four
  read-letters hc hd he hf h =
      rw
        (
          value_of-first c v (d ∷ e ∷ f ∷ []) hc,
          value_of-letter v d w (e ∷ f ∷ []) hd,
          value_of-letter (v * 64 + w) e x (f ∷ []) he,
          value_of-letter ((v * 64 + w) * 64 + x) f y [] hf,
          he.no_pad,
          hf.no_pad,
          fits room 3 h,
        )
        refl

  read-letters_pad :
      IsLetter c v
      → IsLetter d w
      → IsLetter e x
      → 2 ≤ room
      → read_four room c d e b'=' ≡ bytes (bytes_of 1 ((v * 64 + w) * 64 + x))
  unfolding read_four
  read-letters_pad hc hd he h =
      rw
        (
          value_of-first c v (d ∷ e ∷ b'=' ∷ []) hc,
          value_of-letter v d w (e ∷ b'=' ∷ []) hd,
          value_of-letter (v * 64 + w) e x (b'=' ∷ []) he,
          he.no_pad,
          fits room 2 h,
        )
        refl

  read-letters_pads :
      IsLetter c v
      → IsLetter d w
      → 1 ≤ room
      → read_four room c d b'=' b'=' ≡ bytes (bytes_of 2 (v * 64 + w))
  unfolding read_four
  read-letters_pads hc hd h =
      rw
        (
          value_of-first c v (d ∷ b'=' ∷ b'=' ∷ []) hc,
          value_of-letter v d w (b'=' ∷ b'=' ∷ []) hd,
          fits room 1 h,
        )
        refl

-- Bytes that are encoded as RFC 4648 says, padding included, are decoded to themselves without an
-- error, if there is room for them.
pub decode-encode :
    (bs : List ℕ) (room : ℕ)
    → AreBytes bs
    → length bs ≤ room
    → base64_decode room (encode bs) ≡ (bs, false)
unfolding encode
decode-encode [] room h r = unfold base64_decode in refl
decode-encode (a ∷ []) room h r =
    let k = letter-IsLetter (a / 4) (omega (arith, h.0)) in
    let l = letter-IsLetter (a % 4 * 16) (omega arith) in
    decode-bytes room _ _ _ _ [] (a ∷ []) (omega (arith, r)) k.kept
      (read-letters_pads room _ _ 0 0 _ _ 0 0 k l (omega (arith, r)) ∙ ap bytes (one_byte a h.0))
    ∙ unfold base64_decode in refl
decode-encode (a ∷ b ∷ []) room h r =
    let k = letter-IsLetter (a / 4) (omega (arith, h.0)) in
    let l = letter-IsLetter (a % 4 * 16 + b / 16) (omega (arith, h.1.0)) in
    let m = letter-IsLetter (b % 16 * 4) (omega arith) in
    decode-bytes room _ _ _ _ [] (a ∷ b ∷ []) (omega (arith, r)) k.kept (
      read-letters_pad room _ _ _ 0 _ _ _ 0 k l m (omega (arith, r))
      ∙ ap bytes (two_bytes a b h.0 h.1.0))
    ∙ unfold base64_decode in refl
decode-encode (a ∷ b ∷ c ∷ s) room h r =
    let k = letter-IsLetter (a / 4) (omega (arith, h.0)) in
    let l = letter-IsLetter (a % 4 * 16 + b / 16) (omega (arith, h.1.0)) in
    let m = letter-IsLetter (b % 16 * 4 + c / 64) (omega (arith, h.1.1.0)) in
    let n = letter-IsLetter (c % 64) (omega arith) in
    decode-bytes room _ _ _ _ (encode s) (a ∷ b ∷ c ∷ []) (omega (arith, r)) k.kept (
      read-letters room _ _ _ _ _ _ _ _ k l m n (omega (arith, r))
      ∙ ap bytes (three_bytes a b c h.0 h.1.0 h.1.1.0))
    ∙ rw (decode-encode s (room - 3) h.1.1.1 (omega (arith, r))) refl
