-- ===== src/Agent/Trace.antt =====
-- Sequences of requests to the agent. Each method holds the mutex from its start to its end, so an
-- execution, however clients and the expiry loop are interleaved, is a sequence of whole methods.
use skeys.Prelude.{ℕ, List, [], ◌∷◌}
use skeys.Text.{Text}
use skeys.Ssh.{Crypto}
use skeys.Agent.{
  AddedKey, ManagedAgent, add, remove, remove_all, remove_key_by_fingerprint, lock, unlock,
  expire_keys,
}

-- a call that may change the state
pub data Request (P K : Type 0) : Type 0 where
  add_request : ℕ → AddedKey P → Request P K
  remove_request : K → Request P K
  remove_all_request : Request P K
  fingerprint_request : Text → Request P K
  lock_request : Text → Request P K
  unlock_request : Text → Request P K
  expire_request : ℕ → Request P K

module _ (c : Crypto) where
  open c use {PrivateKey, PublicKey, Signer}

  unfoldable pub handle : Request PrivateKey PublicKey → ManagedAgent Signer → ManagedAgent Signer
  handle (add_request now key) m = (add c now key m).1
  handle (remove_request key) m = (remove c key m).1
  handle remove_all_request m = (remove_all m).1
  handle (fingerprint_request fp) m = (remove_key_by_fingerprint fp m).1
  handle (lock_request p) m = (lock p m).1
  handle (unlock_request p) m = (unlock p m).1
  handle (expire_request now) m = expire_keys now m

  unfoldable pub run :
      List (Request PrivateKey PublicKey) → ManagedAgent Signer → ManagedAgent Signer
  unfolding handle
  run [] m = m
  run (r ∷ rs) m = run rs (handle r m)
