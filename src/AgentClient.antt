-- ===== src/AgentClient.antt =====
-- skeys-core/agent/agent.go: the service that talks to an agent over its socket, with the agent of
-- skeys-core/agent/server.go behind it. The client of golang.org/x/crypto/ssh/agent passes each call on, and
-- turns every error of the agent into one of its own.
mod Tests
pub mod Removing
pub mod Subscriptions
pub mod Notifying
use skeys.Prelude.{
  ℕ, ◌*◌, ◌/◌, Bool, true, false, Option, none, some, List, [], ◌∷◌, ◌==◌, Result, ok, err, length,
  if◌then◌else◌,
}
use skeys.Text.{Text, text_eq, codes}
use skeys.Text.Strings.{contains, utf8_length}
use skeys.Ssh.{Crypto}
use skeys.Agent.{AgentError, AddedKey, ManagedAgent, add, remove, remove_all, lock, unlock, list}

pub data ServiceError : Type 0 where
  no_socket connect_failed refused list_failed : ServiceError

pub record AgentKey : Type 0 where
  pub fingerprint : Text
  pub comment : Text
  pub type : Text
  pub bits : ℕ

pub record AgentStatus : Type 0 where
  pub running : Bool
  pub socket_path : Text
  pub is_locked : Bool
  pub key_count : ℕ

-- what stands at the path of the socket
pub data Node : Type 0 where
  nothing other socket : Node

-- The keys of the client: their type, their blob, and their comment.
abbrev pub ListedKey : Type 0
ListedKey = Text × Text × Text

-- what the client makes of a blob and of an error
pub record Client (c : Crypto) : Type 0 where
  pub fingerprint_of : Text → Text
  -- the server reads the key of a request
  pub read_key : Text → Option c.PublicKey
  pub list_error : Text

unfoldable pub get_bits : ListedKey → ℕ
get_bits (type, blob, comment) =
    if type == codes "ssh-rsa"
    then length blob * 8 / 3
    else if type == codes "ssh-ed25519"
    then 256
    else if type == codes "ecdsa-sha2-nistp256"
    then 256
    else if type == codes "ecdsa-sha2-nistp384"
    then 384
    else if type == codes "ecdsa-sha2-nistp521"
    then 521
    else 0

abbrev pub told : {A : Type 0} → ServiceError → Result AgentError A → Result ServiceError A
told e (ok a) = ok a
told e (err x) = err e

module _ (c : Crypto) (client : Client c) (socket_path : Text) where
  open c use {PrivateKey, PublicKey, Signer}

  -- the answer of the service, and the agent after it, if one answers at the socket
  abbrev pub Outcome : Type 0 → Type 0
  Outcome A = Result ServiceError A × Option (ManagedAgent Signer)

  abbrev pub passed : {A : Type 0} → Result AgentError A × ManagedAgent Signer → Outcome A
  passed (r, m) = (told refused r, some m)

  -- `connect`, and then a call of the client
  abbrev pub call :
      {A : Type 0} → (ManagedAgent Signer → Outcome A) → Option (ManagedAgent Signer) → Outcome A
  call f none = (err (if socket_path == [] then no_socket else connect_failed), none)
  call f (some m) = if socket_path == [] then (err no_socket, some m) else f m

  pub add_key : ℕ → PrivateKey → Text → ℕ → Bool → Option (ManagedAgent Signer) → Outcome (Unit {0})
  add_key now private_key comment lifetime_secs confirm = call (λ m. passed (
      add c now
        (record {
          private_key = private_key;
          comment = comment;
          lifetime_secs = lifetime_secs;
          confirm_before_use = confirm;
        })
        m))

  -- A blob that is no key is refused by the server of the protocol.
  abbrev pub remove_read : Option PublicKey → ManagedAgent Signer → Outcome (Unit {0})
  remove_read none m = (err refused, some m)
  remove_read (some key) m = passed (remove c key m)

  unfoldable pub remove_key : PublicKey → Option (ManagedAgent Signer) → Outcome (Unit {0})
  remove_key key = call (remove_read (client.read_key (c.marshal key)))

  unfoldable pub remove_all_keys : Option (ManagedAgent Signer) → Outcome (Unit {0})
  remove_all_keys = call (λ m. passed (remove_all m))

  unfoldable pub lock_agent : Text → Option (ManagedAgent Signer) → Outcome (Unit {0})
  lock_agent passphrase = call (λ m. passed (lock passphrase m))

  unfoldable pub unlock_agent : Text → Option (ManagedAgent Signer) → Outcome (Unit {0})
  unlock_agent passphrase = call (λ m. passed (unlock passphrase m))

  unfoldable pub agent_keys : List ListedKey → List AgentKey
  unfolding get_bits
  agent_keys [] = []
  agent_keys ((type, blob, comment) ∷ keys) =
      record {
        fingerprint = client.fingerprint_of blob;
        comment = comment;
        type = type;
        bits = get_bits (type, blob, comment);
      }
      ∷ agent_keys keys

  abbrev pub listed :
      {A : Type 0}
      → (List ListedKey → A)
      → Result AgentError (List ListedKey)
      → Result ServiceError A
  listed f (ok keys) = ok (f keys)
  listed f (err e) = err list_failed

  unfoldable pub list_keys : Option (ManagedAgent Signer) → Outcome (List AgentKey)
  unfolding agent_keys
  list_keys = call (λ m. (listed agent_keys (list c m), some m))

  unfoldable pub fingerprints : List ListedKey → List Text
  fingerprints [] = []
  fingerprints ((type, blob, comment) ∷ keys) = client.fingerprint_of blob ∷ fingerprints keys

  unfoldable pub list_loaded_fingerprints : Option (ManagedAgent Signer) → Outcome (List Text)
  unfolding fingerprints
  list_loaded_fingerprints = call (λ m. (listed fingerprints (list c m), some m))

  -- the blob of the first key with the fingerprint
  unfoldable pub blob_of : Text → List ListedKey → Option Text
  blob_of fp [] = none
  blob_of fp ((type, blob, comment) ∷ keys) =
      let later = blob_of fp keys in if client.fingerprint_of blob == fp then some blob else later

  abbrev pub remove_blob : Option Text → ManagedAgent Signer → Outcome (Unit {0})
  remove_blob none m = (ok tt, some m)
  remove_blob (some blob) m = remove_read (client.read_key blob) m

  abbrev pub remove_listed :
      Text → Result AgentError (List ListedKey) → ManagedAgent Signer → Outcome (Unit {0})
  remove_listed fp (err e) m = (err list_failed, some m)
  remove_listed fp (ok keys) m = remove_blob (blob_of fp keys) m

  -- Two requests: the keys are listed, and one of them is removed from the agent that is there after what
  -- has happened meanwhile, such as other requests or the expiry of keys.
  unfoldable pub remove_key_by_fingerprint :
      (ManagedAgent Signer → ManagedAgent Signer)
      → Text
      → Option (ManagedAgent Signer)
      → Outcome (Unit {0})
  unfolding blob_of
  remove_key_by_fingerprint meanwhile fp = call (λ m. remove_listed fp (list c m) (meanwhile m))

  abbrev pub counted : Result AgentError (List ListedKey) → AgentStatus
  counted (ok keys) = record {
    running = true;
    socket_path = socket_path;
    is_locked = false;
    key_count = length keys;
  }
  counted (err e) = record {
    running = true;
    socket_path = socket_path;
    is_locked = contains client.list_error (codes "locked");
    key_count = 0;
  }

  abbrev pub not_running : AgentStatus
  not_running = record {
    running = false;
    socket_path = socket_path;
    is_locked = false;
    key_count = 0;
  }

  abbrev pub status_of : Node → Option (ManagedAgent Signer) → AgentStatus
  status_of nothing a = not_running
  status_of other a = not_running
  status_of socket none = not_running
  status_of socket (some m) = counted (list c m)

  unfoldable pub status : Node → Option (ManagedAgent Signer) → AgentStatus
  unfolding contains
  status node a = if socket_path == [] then not_running else status_of node a
