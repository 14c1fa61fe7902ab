-- ===== src/Agent.antt =====
-- skeys-core/agent/server.go: the agent that skeys runs itself. Each method is a function of the
-- state under its mutex, and returns the new state beside its result. `go m.notifyChange()` only
-- starts a goroutine, so a change counts the notifications that are still to be sent. Times are
-- nanoseconds of the monotonic clock.
mod State
pub mod Lock
pub mod Keys
pub mod Trace
pub mod Lockdown
pub mod Invariant
pub mod Expiry
mod Tests
pub use skeys.Agent.State.{
  AgentError, locked, already_locked, not_locked, key_not_found, bad_key, bad_passphrase,
  extension_unsupported, sign_failed, second, ManagedKey, ManagedAgent, AddedKey, AgentKey,
  AgentStatus, AgentUpdate, Outcome, changed,
}
unfoldable pub use skeys.Agent.State.{lifetime_of}
use skeys.Prelude.{
  ℕ, zero, suc, ◌+◌, ◌-◌, ◌*◌, ◌/◌, Bool, true, false, not, ◌&&◌, Option, none, some, List, [], ◌∷◌,
  ltb, ◌==◌, nat_eq, Result, ok, err, length, map, if◌then◌else◌,
}
use skeys.Text.{Text, text_eq, codes}
use skeys.Map
use skeys.Map.{Map}
use skeys.Ssh.{Crypto}

module _ {S : Type 0} where
  unfoldable pub new_managed_agent : Text → ManagedAgent S
  new_managed_agent path = record {
    keys = [];
    is_locked = false;
    lock_pass = [];
    socket_path = path;
    listening = false;
    pending = 0;
  }

  -- `key.lifetime > 0 && now.Sub(key.addedAt) > key.lifetime`
  unfoldable pub expired : ℕ → ManagedKey S → Bool
  expired now k = ltb 0 k.lifetime && ltb k.lifetime (now - k.added_at)

  -- the fingerprints that the first loop of `expireKeys` collects
  unfoldable pub expired_fingerprints : ℕ → Map Text (ManagedKey S) → List Text
  unfolding expired
  expired_fingerprints now [] = []
  expired_fingerprints now ((fp, k) ∷ m) =
      let rest = expired_fingerprints now m in if expired now k then fp ∷ rest else rest

  unfoldable pub delete_all : List Text → Map Text (ManagedKey S) → Map Text (ManagedKey S)
  delete_all [] m = m
  delete_all (fp ∷ fps) m = delete_all fps (Map.delete fp m)

  -- `if len(expired) > 0 { go m.notifyChange() }`
  unfoldable pub notify_if_any : List Text → ManagedAgent S → ManagedAgent S
  notify_if_any [] m = m
  notify_if_any (fp ∷ fps) m = changed m

  pub expire_keys : ℕ → ManagedAgent S → ManagedAgent S
  expire_keys now m =
      let gone = expired_fingerprints now m.keys in
      notify_if_any gone (record m { keys = delete_all gone m.keys })

  pub lock : Text → ManagedAgent S → Outcome S (Unit {0})
  lock passphrase m =
      if m.is_locked
      then (err already_locked, m)
      else (ok tt, changed (record m { is_locked = true; lock_pass = passphrase }))

  pub unlock : Text → ManagedAgent S → Outcome S (Unit {0})
  unlock passphrase m =
      if not m.is_locked
      then (err not_locked, m)
      else if not (passphrase == m.lock_pass)
      then (err bad_passphrase, m)
      else (ok tt, changed (record m { is_locked = false; lock_pass = [] }))

  pub remove_all : ManagedAgent S → Outcome S (Unit {0})
  remove_all m = if m.is_locked then (err locked, m) else (ok tt, changed (record m { keys = [] }))

  -- `delete(m.keys, fp)` behind the test that the key is there; `missing` answers where it is not
  abbrev pub remove_found :
      Result AgentError (Unit {0})
      → Option (ManagedKey S)
      → Text
      → ManagedAgent S
      → Outcome S (Unit {0})
  remove_found missing none fp m = (missing, m)
  remove_found missing (some k) fp m = (ok tt, changed (record m { keys = Map.delete fp m.keys }))

  unfoldable pub remove_key_by_fingerprint : Text → ManagedAgent S → Outcome S (Unit {0})
  remove_key_by_fingerprint fp m =
      if m.is_locked then (err locked, m) else remove_found (ok tt) (Map.get fp m.keys) fp m

  pub signers : ManagedAgent S → Result AgentError (List S)
  signers m = if m.is_locked then err locked else ok (map (λ k. k.signer) (Map.values m.keys))

  pub status : ManagedAgent S → AgentStatus
  status m = record {
    running = m.listening;
    socket_path = m.socket_path;
    is_locked = m.is_locked;
    key_count = length m.keys;
  }

  extension : Text → Text → ManagedAgent S → Result AgentError Text
  extension kind contents m = err extension_unsupported

-- the whole seconds that a key has left, `remaining` of `ListKeys`
unfoldable pub remaining : ℕ → ℕ → ℕ → ℕ
remaining now added_at lifetime =
    if ltb 0 lifetime then lifetime / second - (now - added_at) / second else 0

abbrev pub SignatureFlags : Type 0
SignatureFlags = ℕ

-- `agent.SignatureFlagRsaSha256` is 2 and `SignatureFlagRsaSha512` is 4.
unfoldable pub algorithm_of : SignatureFlags → Text
algorithm_of flags =
    if flags == 2 then codes "rsa-sha2-256" else if flags == 4 then codes "rsa-sha2-512" else []

module _ (c : Crypto) where
  open c use {PrivateKey, PublicKey, Signer, Signature}

  abbrev signed : Option Signature → Result AgentError Signature
  signed none = err sign_failed
  signed (some s) = ok s

  abbrev sign_by_algorithm :
      Option (Text → Text → Option Signature) → Signer → Text → Text → Option Signature
  sign_by_algorithm none s text algo = c.sign s text
  sign_by_algorithm (some f) s text algo = f text algo

  -- the part of `SignWithFlags` behind the search for the key
  unfoldable pub sign_with : Signer → Text → SignatureFlags → Result AgentError Signature
  unfolding algorithm_of
  sign_with s text flags =
      let algo = algorithm_of flags in
      signed
        (if algo == [] then c.sign s text else sign_by_algorithm (c.algorithm_signer s) s text algo)

  abbrev sign_found :
      Option (ManagedKey Signer) → Text → SignatureFlags → Result AgentError Signature
  sign_found none text flags = err key_not_found
  sign_found (some k) text flags = sign_with k.signer text flags

  pub sign_with_flags :
      PublicKey → Text → SignatureFlags → ManagedAgent Signer → Result AgentError Signature
  sign_with_flags key text flags m =
      if m.is_locked then err locked else sign_found (Map.get (c.fingerprint key) m.keys) text flags

  pub sign : PublicKey → Text → ManagedAgent Signer → Result AgentError Signature
  unfolding sign_with_flags
  sign key text m = sign_with_flags key text 0 m

  abbrev add_signer :
      ℕ → AddedKey PrivateKey → Option Signer → ManagedAgent Signer → Outcome Signer (Unit {0})
  add_signer now key none m = (err bad_key, m)
  add_signer now key (some s) m = (
    ok tt,
    changed (record m {
      keys =
          Map.put (c.fingerprint (c.public_key s))
            (record {
              signer = s;
              comment = key.comment;
              added_at = now;
              lifetime = lifetime_of key.lifetime_secs;
              confirm = key.confirm_before_use;
            })
            m.keys;
    }),
  )

  unfoldable pub add : ℕ → AddedKey PrivateKey → ManagedAgent Signer → Outcome Signer (Unit {0})
  add now key m =
      if m.is_locked then (err locked, m) else add_signer now key (c.new_signer key.private_key) m

  add_key_direct :
      ℕ → PrivateKey → Text → ℕ → Bool → ManagedAgent Signer → Outcome Signer (Unit {0})
  unfolding add
  add_key_direct now private_key comment lifetime_secs confirm = add now (record {
    private_key = private_key;
    comment = comment;
    lifetime_secs = lifetime_secs;
    confirm_before_use = confirm;
  })

  unfoldable pub remove : PublicKey → ManagedAgent Signer → Outcome Signer (Unit {0})
  remove key m =
      let fp = c.fingerprint key in
      if m.is_locked
      then (err locked, m)
      else remove_found (err key_not_found) (Map.get fp m.keys) fp m

  unfoldable pub describe : ℕ → Text → ManagedKey Signer → AgentKey
  unfolding remaining
  describe now fp k = record {
    fingerprint = fp;
    comment = k.comment;
    type = c.key_type (c.public_key k.signer);
    bits = 0;
    has_lifetime = ltb 0 k.lifetime;
    lifetime_seconds = remaining now k.added_at k.lifetime;
    is_confirm = k.confirm;
  }

  unfoldable pub describe_all : ℕ → Map Text (ManagedKey Signer) → List AgentKey
  unfolding describe
  describe_all now [] = []
  describe_all now ((fp, k) ∷ m) = describe now fp k ∷ describe_all now m

  pub list_keys : ℕ → ManagedAgent Signer → Result AgentError (List AgentKey)
  unfolding describe_all
  list_keys now m = if m.is_locked then err locked else ok (describe_all now m.keys)

  -- `List`: the type, the blob and the comment of each key
  unfoldable pub list : ManagedAgent Signer → Result AgentError (List (Text × Text × Text))
  list m =
      if m.is_locked
      then err locked
      else ok (
          map
            (λ k.
              (c.key_type (c.public_key k.signer), c.marshal (c.public_key k.signer), k.comment))
            (Map.values m.keys))

  abbrev listed : Result AgentError (List AgentKey) → List AgentKey
  listed (ok keys) = keys
  listed (err e) = []

  -- One goroutine of `notifyChange` ends: what it sends, if there are subscribers.
  notify_change : ℕ → ℕ → ManagedAgent Signer → Option AgentUpdate × ManagedAgent Signer
  unfolding status list_keys
  notify_change now subscribers m =
      let m' = record m { pending = m.pending - 1 } in
      if subscribers == 0
      then (none, m')
      else (some (record { status = status m; keys = listed (list_keys now m) }), m')
