-- ===== src/Agent/Lockdown.antt =====
-- What the lock guarantees against every sequence of requests.
use skeys.Prelude.{
  ℕ, ◌≡◌, ◌∙◌, refl, ap, true, false, List, [], ◌∷◌, none, err, ◌==◌, All, arith, Bool-cases, ◌⊎◌,
  inl, inr,
}
use skeys.Text.{Text, text_eq}
use skeys.Map
use skeys.Ssh.{Crypto}
use skeys.Agent.{
  ManagedAgent, SignatureFlags, locked, add, remove, remove_all, remove_key_by_fingerprint, lock,
  unlock, expire_keys, delete_all, expired_fingerprints, notify_if_any, sign_with_flags, list,
  list_keys, signers,
}
use skeys.Agent.Expiry.{keys-notify_if_any, get-delete_all}
use skeys.Agent.Trace.{Request, unlock_request, expire_request, handle, run}

module _ (c : Crypto) where
  open c use {PrivateKey, PublicKey, Signer}

  -- the passphrase of the lock, while it is on
  record IsLockedBy (p : Text) (m : ManagedAgent Signer) : Type 0 where
    is_locked : m.is_locked ≡ true
    lock_pass : m.lock_pass ≡ p

  abbrev Opens : Text → Request PrivateKey PublicKey → Type 0
  Opens p r = r ≡ unlock_request p

  expire-IsLockedBy :
      (p : Text) (fps : List Text) (m : ManagedAgent Signer)
      → IsLockedBy p m
      → IsLockedBy p (notify_if_any fps (record m { keys = delete_all fps m.keys }))
  unfolding notify_if_any
  expire-IsLockedBy p [] m h = record { is_locked = h.is_locked; lock_pass = h.lock_pass }
  expire-IsLockedBy p (fp ∷ fps) m h = record { is_locked = h.is_locked; lock_pass = h.lock_pass }

  handle-IsLockedBy :
      (p : Text) (r : Request PrivateKey PublicKey) (m : ManagedAgent Signer)
      → ¬ Opens p r
      → IsLockedBy p m
      → IsLockedBy p (handle c r m)
  unfolding handle add remove remove_all remove_key_by_fingerprint lock unlock
  handle-IsLockedBy p (unlock_request q) m other h = elim (Bool-cases (q == m.lock_pass)) [
    | inl same ↦
        absurd (other (ap unlock_request ((text_eq.beq_iff q m.lock_pass).0 same ∙ h.lock_pass)))
    | inr wrong ↦ ground arith
  ]
  handle-IsLockedBy p (expire_request now) m other h =
      unfold expire_keys in expire-IsLockedBy p _ m h
  handle-IsLockedBy p r m other h = ground arith

  -- every key of the second agent is in the first one
  abbrev Shrinks : ManagedAgent Signer → ManagedAgent Signer → Type 0
  Shrinks m n = (fp : Text) → (Map.get fp n.keys ≡ none) ⊎ (Map.get fp n.keys ≡ Map.get fp m.keys)

  expire-Shrinks : (now : ℕ) (m : ManagedAgent Signer) → Shrinks m (expire_keys now m)
  unfolding expire_keys
  expire-Shrinks now m fp = ground (
    arith,
    keys-notify_if_any (expired_fingerprints now m.keys)
        (record m { keys = delete_all (expired_fingerprints now m.keys) m.keys }),
    get-delete_all (expired_fingerprints now m.keys) fp m.keys,
  )

  handle-Shrinks :
      (r : Request PrivateKey PublicKey) (m : ManagedAgent Signer)
      → m.is_locked ≡ true
      → Shrinks m (handle c r m)
  unfolding handle add remove remove_all remove_key_by_fingerprint lock unlock
  handle-Shrinks (expire_request now) m h fp = expire-Shrinks now m fp
  handle-Shrinks r m h fp = ground arith

  run-IsLockedBy :
      (p : Text) (rs : List (Request PrivateKey PublicKey)) (m : ManagedAgent Signer)
      → All (λ r. ¬ Opens p r) rs
      → IsLockedBy p m
      → IsLockedBy p (run c rs m) × Shrinks m (run c rs m)
  unfolding run
  run-IsLockedBy p [] m other h = (h, λ fp. inr refl)
  run-IsLockedBy p (r ∷ rs) m (first, others) h =
      let (kept, less) =
        run-IsLockedBy p rs (handle c r m) others (handle-IsLockedBy p r m first h) in
      (kept, λ fp. ground (arith, less fp, handle-Shrinks r m h.is_locked fp))

  refuses_locked :
      (m : ManagedAgent Signer) (key : PublicKey) (text : Text) (flags : SignatureFlags) (now : ℕ)
      → m.is_locked ≡ true
      → (sign_with_flags c key text flags m ≡ err locked)
        × (list c m ≡ err locked)
        × (list_keys c now m ≡ err locked)
        × (signers m ≡ err locked)
  unfolding sign_with_flags list list_keys signers
  refuses_locked m key text flags now h = (rw h, rw h, rw h, rw h)

  lock-IsLockedBy :
      (p : Text) (m : ManagedAgent Signer)
      → m.is_locked ≡ false
      → IsLockedBy p (lock p m).1 × ((lock p m).1.keys ≡ m.keys)
  unfolding lock
  lock-IsLockedBy p m free = (record { is_locked = rw free; lock_pass = rw free }, rw free)

  -- Once an agent is locked by `p`, no sequence of requests without an unlock by `p` itself makes it
  -- sign, list its keys or hand out signers, and none adds or replaces a key: what was not loaded
  -- when it was locked is not loaded, and the rest is unchanged or gone.
  pub locked_until_passphrase :
      (p : Text) (m : ManagedAgent Signer) (rs : List (Request PrivateKey PublicKey))
      → m.is_locked ≡ false
      → All (λ r. ¬ (r ≡ unlock_request p)) rs
      → (key : PublicKey) (text : Text) (flags : SignatureFlags) (now : ℕ) (fp : Text)
      → (sign_with_flags c key text flags (run c rs (lock p m).1) ≡ err locked)
        × (list c (run c rs (lock p m).1) ≡ err locked)
        × (list_keys c now (run c rs (lock p m).1) ≡ err locked)
        × (signers (run c rs (lock p m).1) ≡ err locked)
        × ((Map.get fp (run c rs (lock p m).1).keys ≡ none)
            ⊎ (Map.get fp (run c rs (lock p m).1).keys ≡ Map.get fp m.keys))
  locked_until_passphrase p m rs free others key text flags now fp =
      let (start, same) = lock-IsLockedBy p m free in
      let (kept, less) = run-IsLockedBy p rs (lock p m).1 others start in
      let (a, b, d, e) = refuses_locked (run c rs (lock p m).1) key text flags now kept.is_locked in
      (a, b, d, e, simp same at (less fp))
