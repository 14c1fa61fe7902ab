-- ===== src/Agent/Keys.antt =====
-- What signing sees of the operations on keys.
use skeys.Prelude.{ℕ, ◌≡◌, false, some, ok, err, ◌==◌, arith, if◌then◌else◌, Bool-cases, inl, inr}
use skeys.Text.{Text, text_eq}
use skeys.Map.Laws.{get-put, get-delete}
use skeys.Ssh.{Crypto}
use skeys.Agent.{
  AddedKey, ManagedAgent, SignatureFlags, key_not_found, add, remove, sign_with, sign_with_flags,
}

module _ (c : Crypto) where
  open c use {PrivateKey, PublicKey, Signer}

  -- After a key is added to an unlocked agent, a request to sign for its fingerprint is signed by
  -- its signer at once, with or without `ConfirmBeforeUse`; a request for another fingerprint has
  -- the answer that it had before.
  sign-add :
      (now : ℕ) (key : AddedKey PrivateKey) (s : Signer) (pk : PublicKey) (text : Text)
      (flags : SignatureFlags) (m : ManagedAgent Signer)
      → m.is_locked ≡ false
      → c.new_signer key.private_key ≡ some s
      → sign_with_flags c pk text flags (add c now key m).1 ≡ (
          if c.fingerprint (c.public_key s) == c.fingerprint pk
          then sign_with c s text flags
          else sign_with_flags c pk text flags m)
  unfolding sign_with_flags add
  sign-add now key s pk text flags m free made =
      elim (Bool-cases (c.fingerprint (c.public_key s) == c.fingerprint pk)) [
        | inl same ↦ rw (free, made, same) (simp get-put (rw same))
        | inr other ↦ rw (free, made, other) (simp get-put (rw other))
      ]

  -- A successful removal takes the key's fingerprint away from an unlocked agent, and no other.
  sign-remove :
      (key pk : PublicKey) (text : Text) (flags : SignatureFlags) (m : ManagedAgent Signer)
      → (remove c key m).0 ≡ ok tt
      → sign_with_flags c pk text flags (remove c key m).1 ≡ (
          if c.fingerprint key == c.fingerprint pk
          then err key_not_found
          else sign_with_flags c pk text flags m)
  unfolding sign_with_flags remove
  sign-remove key pk text flags m done =
      ground (arith, get-delete (c.fingerprint key) (c.fingerprint pk) m.keys)
