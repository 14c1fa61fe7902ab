-- ===== src/Agent/Expiry.antt =====
-- Expiry: `expireKeys`, and the seconds that `ListKeys` shows.
use skeys.Prelude.{
  ℕ, ◌-◌, leb, ◌/◌, ◌^◌, ◌<◌, ◌≡◌, refl, Bool, false, ◌||◌, List, [], ◌∷◌, Option, none, some, ◌==◌,
  arith, if◌then◌else◌,
}
use skeys.Text.{Text, text_eq}
use skeys.Map
use skeys.Map.{Map}
use skeys.Map.Laws.{get-delete, Distinct}
use skeys.Agent.{
  ManagedKey, ManagedAgent, second, lifetime_of, expired, expired_fingerprints, delete_all,
  notify_if_any, expire_keys, remaining,
}

pub contains : Text → List Text → Bool
contains fp [] = false
contains fp (x ∷ xs) = x == fp || contains fp xs

-- A key is kept if it has no lifetime, or while its age is at most its lifetime.
abbrev pub unexpired : {S : Type 0} → ℕ → Option (ManagedKey S) → Option (ManagedKey S)
unexpired now none = none
unexpired now (some k) =
    if leb k.lifetime 0 || leb (now - k.added_at) k.lifetime then some k else none

module _ {S : Type 0} where
  pub get-delete_all :
      (fps : List Text) (fp : Text) (m : Map Text (ManagedKey S))
      → Map.get fp (delete_all fps m) ≡ (if contains fp fps then none else Map.get fp m)
  unfolding delete_all contains
  get-delete_all [] fp m = refl
  get-delete_all (x ∷ xs) fp m =
      ground (arith, get-delete_all xs fp (Map.delete x m), get-delete x fp m)

  contains_absent :
      (now : ℕ) (fp : Text) (m : Map Text (ManagedKey S))
      → Map.get fp m ≡ none
      → contains fp (expired_fingerprints now m) ≡ false
  unfolding Map.get contains expired_fingerprints
  contains_absent now fp [] h = refl
  contains_absent now fp ((x, k) ∷ m) h = ground (arith, contains_absent now fp m)

  get-expired :
      (now : ℕ) (fp : Text) (m : Map Text (ManagedKey S))
      → Distinct m
      → (if contains fp (expired_fingerprints now m) then none else Map.get fp m)
        ≡ unexpired now (Map.get fp m)
  unfolding Map.get contains expired_fingerprints expired
  get-expired now fp [] d = refl
  get-expired now fp ((x, k) ∷ m) (fresh, d) =
      ground (arith, get-expired now fp m d, contains_absent now fp m, text_eq.beq_iff x fp)

  pub keys-notify_if_any :
      (fps : List Text) (m : ManagedAgent S) → (notify_if_any fps m).keys ≡ m.keys
  unfolding notify_if_any
  keys-notify_if_any [] m = refl
  keys-notify_if_any (fp ∷ fps) m = refl

  -- Where no fingerprint stands twice, a pass of the expiry loop drops exactly the keys that have a
  -- lifetime and are older than it, and keeps every other key as it is.
  pub expire_keys_exact :
      (now : ℕ) (fp : Text) (m : ManagedAgent S)
      → Distinct m.keys
      → Map.get fp (expire_keys now m).keys ≡ unexpired now (Map.get fp m.keys)
  unfolding expire_keys
  expire_keys_exact now fp m d =
      rw (keys-notify_if_any, get-delete_all) (get-expired now fp m.keys d)

-- A lifetime of any uint32 number of seconds fits the int64 of a `time.Duration`, and a key that was
-- added with it at `t` is listed with the seconds that are left of it: none once it has run out.
lifetime_fits :
    (secs t now : ℕ)
    → secs < 2 ^ 32
    → (lifetime_of secs < 2 ^ 63) × (remaining now t (lifetime_of secs) ≡ secs - (now - t) / second)
unfolding lifetime_of remaining
lifetime_fits secs t now h = (omega arith, ground arith)
