-- ===== src/Broadcast/Subscribers.antt =====
-- Lists of channel numbers, as the keys of the map `subscribers`.
use skeys.Prelude.{
  ℕ, suc, ◌<◌, ◌≡◌, refl, false, List, [], ◌∷◌, ◌==◌, nat_eq, inl, inr, Bool-cases, All, arith,
}
use skeys.Broadcast.{is_member, without}

abbrev pub NoDup : List ℕ → Type 0
NoDup [] = Unit
NoDup (c ∷ cs) = (is_member c cs ≡ false) × NoDup cs

abbrev pub Below : ℕ → List ℕ → Type 0
Below n = All (λ ch. ch < n)

pub not_member-of_Below : (n : ℕ) (chs : List ℕ) → Below n chs → is_member n chs ≡ false
not_member-of_Below n [] h = refl
not_member-of_Below n (c ∷ cs) h = ground (arith, not_member-of_Below n cs h.1)

pub Below-suc : (n : ℕ) (chs : List ℕ) → Below n chs → Below (suc n) chs
Below-suc n [] h = tt
Below-suc n (c ∷ cs) h = (omega arith, Below-suc n cs h.1)

pub is_member-without : (ch : ℕ) (chs : List ℕ) → is_member ch (without ch chs) ≡ false
unfolding without
is_member-without ch [] = refl
is_member-without ch (c ∷ cs) = ground (arith, is_member-without ch cs)

is_member-without_of :
    (ch k : ℕ) (chs : List ℕ) → is_member k chs ≡ false → is_member k (without ch chs) ≡ false
unfolding without
is_member-without_of ch k [] h = refl
is_member-without_of ch k (c ∷ cs) h = ground (arith, is_member-without_of ch k cs)

pub NoDup-without : (ch : ℕ) (chs : List ℕ) → NoDup chs → NoDup (without ch chs)
unfolding without
NoDup-without ch [] h = tt
NoDup-without ch (c ∷ cs) h = elim (Bool-cases (c == ch)) [
  | inl same ↦ rw same (NoDup-without ch cs h.1)
  | inr other ↦ rw other (is_member-without_of ch c cs h.0, NoDup-without ch cs h.1)
]

pub All-without : (P : ℕ → Type 0) (ch : ℕ) (chs : List ℕ) → All P chs → All P (without ch chs)
unfolding without
All-without P ch [] h = tt
All-without P ch (c ∷ cs) h = elim (Bool-cases (c == ch)) [
  | inl same ↦ rw same (All-without P ch cs h.1)
  | inr other ↦ rw other (h.0, All-without P ch cs h.1)
]
