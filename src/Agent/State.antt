-- ===== src/Agent/State.antt =====
-- skeys-core/agent/server.go and agent.go: the state of the agent that skeys runs, and what it tells.
use skeys.Prelude.{ℕ, ◌+◌, ◌*◌, Bool, List, nat_eq, Result}
use skeys.Text.{Text, text_eq}
use skeys.Map.{Map}

pub data AgentError : Type 0 where
  locked already_locked not_locked key_not_found bad_key bad_passphrase : AgentError
  extension_unsupported sign_failed : AgentError

abbrev pub second : ℕ
second = 1000000000

-- `time.Duration(key.LifetimeSecs) * time.Second`
unfoldable pub lifetime_of : ℕ → ℕ
lifetime_of secs = secs * second

pub record ManagedKey (S : Type 0) : Type 0 where
  pub signer : S
  pub comment : Text
  pub added_at : ℕ
  -- 0 means no expiry
  pub lifetime : ℕ
  pub confirm : Bool

pub record ManagedAgent (S : Type 0) : Type 0 where
  -- by fingerprint
  pub keys : Map Text (ManagedKey S)
  pub is_locked : Bool
  pub lock_pass : Text
  pub socket_path : Text
  pub listening : Bool
  -- started and unfinished calls of `notifyChange`
  pub pending : ℕ

-- `agent.AddedKey`
pub record AddedKey (P : Type 0) : Type 0 where
  pub private_key : P
  pub comment : Text
  pub lifetime_secs : ℕ
  pub confirm_before_use : Bool

pub record AgentKey : Type 0 where
  pub fingerprint : Text
  pub comment : Text
  pub type : Text
  pub bits : ℕ
  pub has_lifetime : Bool
  pub lifetime_seconds : ℕ
  pub is_confirm : Bool

pub record AgentStatus : Type 0 where
  pub running : Bool
  pub socket_path : Text
  pub is_locked : Bool
  pub key_count : ℕ

pub record AgentUpdate : Type 0 where
  pub status : AgentStatus
  pub keys : List AgentKey

abbrev pub Outcome : Type 0 → Type 0 → Type 0
Outcome S A = Result AgentError A × ManagedAgent S

-- A change of the state starts a goroutine that notifies the watchers.
abbrev pub changed : {S : Type 0} → ManagedAgent S → ManagedAgent S
changed m = record m { pending = m.pending + 1 }
