-- ===== src/Agent/Invariant.antt =====
-- The invariant of the agent's state.
use skeys.Prelude.{
  ℕ, ◌≡◌, refl, Bool, true, false, not, List, [], ◌∷◌, Option, none, some, Result, ◌==◌, arith,
  if◌then◌else◌,
}
use skeys.Text.{Text, text_eq}
use skeys.Map
use skeys.Map.{Map}
use skeys.Map.Laws.{Distinct, get-put, get-delete, put-Distinct, delete-Distinct}
use skeys.Ssh.{Crypto}
use skeys.Agent.{
  AgentError, AddedKey, ManagedKey, ManagedAgent, new_managed_agent, add, add_signer, remove,
  remove_all, remove_found, remove_key_by_fingerprint, lock, unlock, expire_keys, delete_all,
  expired_fingerprints, notify_if_any,
}
use skeys.Agent.Trace.{
  Request, add_request, remove_request, remove_all_request, fingerprint_request, lock_request,
  unlock_request, expire_request, handle, run,
}

module _ (c : Crypto) where
  open c use {PrivateKey, PublicKey, Signer}

  -- What every method relies on: no fingerprint stands twice, each key stands under its own
  -- fingerprint, and an unlocked agent keeps no passphrase.
  pub record IsWellFormed (m : ManagedAgent Signer) : Type 0 where
    pub distinct : Distinct m.keys
    pub indexed :
        (fp : Text) (k : ManagedKey Signer)
        → Map.get fp m.keys ≡ some k
        → c.fingerprint (c.public_key k.signer) ≡ fp
    no_pass : m.is_locked ≡ false → m.lock_pass ≡ []

  abbrev Indexed : Map Text (ManagedKey Signer) → Type 0
  Indexed keys =
      (fp : Text) (k : ManagedKey Signer)
      → Map.get fp keys ≡ some k
      → c.fingerprint (c.public_key k.signer) ≡ fp

  Indexed-nil : Indexed []
  unfolding Map.get
  Indexed-nil fp k found = cc

  delete-Indexed :
      (fp : Text) (keys : Map Text (ManagedKey Signer))
      → Indexed keys
      → Indexed (Map.delete fp keys)
  delete-Indexed fp keys h j k found = ground (arith, get-delete fp j keys, h j k)

  delete_all-Indexed :
      (fps : List Text) (keys : Map Text (ManagedKey Signer))
      → Distinct keys × Indexed keys
      → Distinct (delete_all fps keys) × Indexed (delete_all fps keys)
  unfolding delete_all
  delete_all-Indexed [] keys h = h
  delete_all-Indexed (fp ∷ fps) keys h =
      delete_all-Indexed fps (Map.delete fp keys)
        (delete-Distinct fp keys h.0, delete-Indexed fp keys h.1)

  put-Indexed :
      (key : ManagedKey Signer) (keys : Map Text (ManagedKey Signer))
      → Indexed keys
      → Indexed (Map.put (c.fingerprint (c.public_key key.signer)) key keys)
  put-Indexed key keys h j k found =
      let fp = c.fingerprint (c.public_key key.signer) in
      ground (arith, get-put fp j key keys, h j k, text_eq.beq_iff fp j)

  expire-IsWellFormed :
      (fps : List Text) (m : ManagedAgent Signer)
      → IsWellFormed m
      → IsWellFormed (notify_if_any fps (record m { keys = delete_all fps m.keys }))
  unfolding notify_if_any
  expire-IsWellFormed [] m h =
      let (d, i) = delete_all-Indexed [] m.keys (h.distinct, h.indexed) in
      record { distinct = d; indexed = i; no_pass = h.no_pass }
  expire-IsWellFormed (fp ∷ fps) m h =
      let (d, i) = delete_all-Indexed (fp ∷ fps) m.keys (h.distinct, h.indexed) in
      record { distinct = d; indexed = i; no_pass = h.no_pass }

  remove_found-IsWellFormed :
      (missing : Result AgentError Unit) (o : Option (ManagedKey Signer)) (fp : Text)
      (m : ManagedAgent Signer)
      → IsWellFormed m
      → IsWellFormed (remove_found missing o fp m).1
  remove_found-IsWellFormed missing none fp m h = h
  remove_found-IsWellFormed missing (some k) fp m h = record {
    distinct = delete-Distinct fp m.keys h.distinct;
    indexed = delete-Indexed fp m.keys h.indexed;
    no_pass = h.no_pass;
  }

  add_signer-IsWellFormed :
      (now : ℕ) (key : AddedKey PrivateKey) (o : Option Signer) (m : ManagedAgent Signer)
      → IsWellFormed m
      → IsWellFormed (add_signer c now key o m).1
  add_signer-IsWellFormed now key none m h = h
  add_signer-IsWellFormed now key (some s) m h = record {
    distinct = put-Distinct _ _ m.keys h.distinct;
    indexed = put-Indexed _ m.keys h.indexed;
    no_pass = h.no_pass;
  }

  if-IsWellFormed :
      {A : Type 0} (b : Bool) (x y : A × ManagedAgent Signer)
      → IsWellFormed x.1
      → IsWellFormed y.1
      → IsWellFormed (if b then x else y).1
  if-IsWellFormed true x y hx hy = hx
  if-IsWellFormed false x y hx hy = hy

  handle-IsWellFormed :
      (r : Request PrivateKey PublicKey) (m : ManagedAgent Signer)
      → IsWellFormed m
      → IsWellFormed (handle c r m)
  unfolding handle add remove remove_all remove_key_by_fingerprint lock unlock expire_keys
  handle-IsWellFormed (add_request now key) m h =
      if-IsWellFormed m.is_locked _ _ h (add_signer-IsWellFormed now key _ m h)
  handle-IsWellFormed (remove_request key) m h =
      if-IsWellFormed m.is_locked _ _ h (remove_found-IsWellFormed _ _ _ m h)
  handle-IsWellFormed remove_all_request m h =
      if-IsWellFormed m.is_locked _ _ h
        (record { distinct = tt; indexed = Indexed-nil; no_pass = h.no_pass })
  handle-IsWellFormed (fingerprint_request fp) m h =
      if-IsWellFormed m.is_locked _ _ h (remove_found-IsWellFormed _ _ _ m h)
  handle-IsWellFormed (lock_request p) m h =
      if-IsWellFormed m.is_locked _ _ h
        (record { distinct = h.distinct; indexed = h.indexed; no_pass = λ e. cc })
  handle-IsWellFormed (unlock_request p) m h = if-IsWellFormed (not m.is_locked) _ _ h (
      if-IsWellFormed (not (p == m.lock_pass)) _ _ h
        (record { distinct = h.distinct; indexed = h.indexed; no_pass = λ e. refl }))
  handle-IsWellFormed (expire_request now) m h =
      expire-IsWellFormed (expired_fingerprints now m.keys) m h

  run_induction :
      (rs : List (Request PrivateKey PublicKey)) (m : ManagedAgent Signer)
      → IsWellFormed m
      → IsWellFormed (run c rs m)
  unfolding run
  run_induction [] m h = h
  run_induction (r ∷ rs) m h = run_induction rs (handle c r m) (handle-IsWellFormed r m h)

  -- A new agent is well formed after any sequence of requests.
  pub run-IsWellFormed :
      (path : Text) (rs : List (Request PrivateKey PublicKey))
      → IsWellFormed (run c rs (new_managed_agent path))
  run-IsWellFormed path rs = run_induction rs (new_managed_agent path) (
      unfold new_managed_agent in
      record { distinct = tt; indexed = Indexed-nil; no_pass = λ e. refl })
