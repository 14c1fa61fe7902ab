-- ===== src/AgentClient/Removing.antt =====
-- skeys-core/agent/agent.go: the removal over the socket is the one of the agent behind it.
use skeys.Prelude.{
  ◌≡◌, refl, sym, ap, ◌∙◌, Bool, true, false, Option, none, some, [], ◌∷◌, ◌==◌, map, ok,
  Bool-cases, inl, inr,
}
use skeys.Text.{Text, text_eq}
use skeys.Map
use skeys.Map.{Map}
use skeys.Map.Laws.{Distinct}
use skeys.Ssh.{Crypto}
use skeys.Agent.{ManagedKey, ManagedAgent, list, remove, remove_found}
use skeys.Agent
use skeys.Agent.Invariant.{IsWellFormed}
use skeys.AgentClient.{
  Client, ListedKey, list_failed, told, blob_of, passed, remove_blob, remove_listed,
  remove_key_by_fingerprint,
}

-- Fingerprints are made of blobs, and the server reads the blob of a key as that key.
pub record IsFaithful (c : Crypto) (client : Client c) : Type 0 where
  pub fingerprint : (key : c.PublicKey) → client.fingerprint_of (c.marshal key) ≡ c.fingerprint key
  pub read : (key : c.PublicKey) → client.read_key (c.marshal key) ≡ some key

module _ (c : Crypto) (client : Client c) (faithful : IsFaithful c client) (path : Text) where
  open c use {PrivateKey, PublicKey, Signer}

  abbrev Keys : Type 0
  Keys = Map Text (ManagedKey Signer)

  abbrev Indexed : Keys → Type 0
  Indexed keys =
      (fp : Text) (k : ManagedKey Signer)
      → Map.get fp keys ≡ some k
      → c.fingerprint (c.public_key k.signer) ≡ fp

  abbrev to_listed : ManagedKey Signer → ListedKey
  to_listed k = (c.key_type (c.public_key k.signer), c.marshal (c.public_key k.signer), k.comment)

  abbrev blob_if : Option (ManagedKey Signer) → Option Text
  blob_if none = none
  blob_if (some k) = some (c.marshal (c.public_key k.signer))

  tail-Indexed :
      (j : Text) (k : ManagedKey Signer) (keys : Keys)
      → Distinct ((j, k) ∷ keys)
      → Indexed ((j, k) ∷ keys)
      → Indexed keys
  unfolding Map.get
  tail-Indexed j k keys d h fp v found = elim (Bool-cases (j == fp)) [
    | inl e ↦ absurd (cc (d.0, found, (text_eq.beq_iff j fp).0 e))
    | inr e ↦ h fp v (rw e found)
  ]

  head_fingerprint :
      (j : Text) (k : ManagedKey Signer) (keys : Keys)
      → Indexed ((j, k) ∷ keys)
      → client.fingerprint_of (c.marshal (c.public_key k.signer)) ≡ j
  unfolding Map.get
  head_fingerprint j k keys h =
      faithful.fingerprint (c.public_key k.signer) ∙ h j k (rw ((text_eq.beq_iff j j).1 refl) refl)

  blob-get :
      (fp : Text) (keys : Keys)
      → Distinct keys
      → Indexed keys
      → blob_of c client path fp (map to_listed (Map.values keys)) ≡ blob_if (Map.get fp keys)
  unfolding blob_of Map.get Map.values
  blob-get fp [] d h = refl
  blob-get fp ((j, k) ∷ keys) d h = elim (Bool-cases (j == fp)) [
    | inl e ↦ rw (head_fingerprint j k keys h, e) refl
    | inr e ↦ rw (head_fingerprint j k keys h, e) (blob-get fp keys d.1 (tail-Indexed j k keys d h))
  ]

  remove_step :
      (fp : Text) (m : ManagedAgent Signer) (k : ManagedKey Signer)
      → m.is_locked ≡ false
      → Map.get fp m.keys ≡ some k
      → c.fingerprint (c.public_key k.signer) ≡ fp
      → remove c (c.public_key k.signer) m ≡ remove_found (ok tt) (some k) fp m
  unfolding remove
  remove_step fp m k unlocked e same = rw (unlocked, same, e) refl

  -- What the service removes by the blob, the agent removes by the fingerprint.
  removed-found :
      (fp : Text) (m : ManagedAgent Signer) (found : Option (ManagedKey Signer))
      → m.is_locked ≡ false
      → Map.get fp m.keys ≡ found
      → Indexed m.keys
      → remove_blob c client path (blob_if found) m ≡ (
        told list_failed (remove_found (ok tt) found fp m).0,
        some (remove_found (ok tt) found fp m).1,
      )
  unfolding remove
  removed-found fp m none unlocked e h = refl
  removed-found fp m (some k) unlocked e h =
      rw (faithful.read (c.public_key k.signer))
        (ap (passed c client path) (remove_step fp m k unlocked e (h fp k e)))

  list_step :
      (m : ManagedAgent Signer)
      → m.is_locked ≡ false
      → list c m ≡ ok (map to_listed (Map.values m.keys))
  unfolding list
  list_step m unlocked = rw unlocked refl

  remove_fingerprint_step :
      (fp : Text) (m : ManagedAgent Signer)
      → m.is_locked ≡ false
      → Agent.remove_key_by_fingerprint fp m ≡ remove_found (ok tt) (Map.get fp m.keys) fp m
  unfolding Agent.remove_key_by_fingerprint
  remove_fingerprint_step fp m unlocked = rw unlocked refl

  locked-listed :
      (fp : Text) (m later : ManagedAgent Signer)
      → m.is_locked ≡ true
      → later.is_locked ≡ true
      → remove_listed c client path fp (list c m) later ≡ (
        told list_failed (Agent.remove_key_by_fingerprint fp later).0,
        some (Agent.remove_key_by_fingerprint fp later).1,
      )
  unfolding list Agent.remove_key_by_fingerprint
  locked-listed fp m later is_locked still = rw (is_locked, still) refl

  removed-listed :
      (fp : Text) (m later : ManagedAgent Signer) (b : Bool)
      → m.is_locked ≡ b
      → later.is_locked ≡ b
      → Map.get fp later.keys ≡ Map.get fp m.keys
      → IsWellFormed c m
      → IsWellFormed c later
      → remove_listed c client path fp (list c m) later ≡ (
        told list_failed (Agent.remove_key_by_fingerprint fp later).0,
        some (Agent.remove_key_by_fingerprint fp later).1,
      )
  removed-listed fp m later true is_locked still same w v = locked-listed fp m later is_locked still
  removed-listed fp m later false unlocked still same w v =
      rw
        (
          list_step m unlocked,
          remove_fingerprint_step fp later still,
          blob-get fp m.keys w.distinct w.indexed,
          sym same,
        )
        (removed-found fp later (Map.get fp later.keys) still refl v.indexed)

-- If the client makes the fingerprint of a key from its blob, and the server reads the blob of a key as that
-- key, the removal of a fingerprint over a socket that is set, which lists the keys of a well-formed agent
-- and then removes the first that has the fingerprint, leaves the agent as its own removal does, and answers
-- as it does, the lock of the agent included. What happens between the two requests must leave the agent
-- well-formed, its lock as it is, and the key of that fingerprint as it is, if there is one.
pub remove_over_socket :
    (c : Crypto) (client : Client c) (path fp : Text)
    (meanwhile : ManagedAgent c.Signer → ManagedAgent c.Signer) (m : ManagedAgent c.Signer)
    → IsFaithful c client
    → (path == []) ≡ false
    → IsWellFormed c m
    → IsWellFormed c (meanwhile m)
    → (meanwhile m).is_locked ≡ m.is_locked
    → Map.get fp (meanwhile m).keys ≡ Map.get fp m.keys
    → remove_key_by_fingerprint c client path meanwhile fp (some m) ≡ (
      told list_failed (Agent.remove_key_by_fingerprint fp (meanwhile m)).0,
      some (Agent.remove_key_by_fingerprint fp (meanwhile m)).1,
    )
unfolding remove_key_by_fingerprint
remove_over_socket c client path fp meanwhile m faithful full w v still same =
    rw full
      (removed-listed c client faithful path fp m (meanwhile m) m.is_locked refl still same w v)
