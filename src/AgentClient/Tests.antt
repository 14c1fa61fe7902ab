-- ===== src/AgentClient/Tests.antt =====
-- skeys-core/agent/agent.go: runs with keys that are texts.
use skeys.Prelude.{ℕ, List, [], ◌∷◌, ◌≡◌, refl, Bool, true, false, none, some, nat_eq, ok, err}
use skeys.Text.{Text, text_eq, codes}
use skeys.Text.Strings.{has_prefix}
use skeys.Map
use skeys.Ssh.{Crypto}
use skeys.Agent.{ManagedAgent, ManagedKey, add, remove, list, new_managed_agent}
use skeys.Agent.Trace.{Request, add_request, fingerprint_request, handle, run}
use skeys.Agent
use skeys.Agent.Invariant.{run-IsWellFormed}
use skeys.AgentClient.{
  Client, told, list_failed, refused, socket, status, list_loaded_fingerprints, blob_of,
  remove_key_by_fingerprint,
}
use skeys.AgentClient.Subscriptions.{
  Subscriber, subscribe, at, cancel, notify, Reach, at_first, next, subscribed, cancelled_at,
}
use skeys.AgentClient.Notifying.{served, notify_never_panics}
use skeys.AgentClient.Removing.{IsFaithful, remove_over_socket}

abbrev toy : Crypto
toy = record {
  PrivateKey = Text;
  PublicKey = Text;
  Signer = Text;
  Signature = Text;
  new_signer = λ k. some k;
  public_key = λ s. s;
  fingerprint = λ k. b'#' ∷ k;
  key_type = λ k. codes "ssh-ed25519";
  marshal = λ k. k;
  sign = λ s t. some t;
  algorithm_signer = λ s. none;
}

-- the client of golang.org/x/crypto/ssh/agent
abbrev client : Client toy
client = record {
  fingerprint_of = λ b. b'#' ∷ b;
  read_key = λ b. some b;
  list_error = codes "agent: failed to list keys";
}

client-IsFaithful : IsFaithful toy client
client-IsFaithful = record { fingerprint = λ k. refl; read = λ k. refl }

abbrev key_of : Text → ManagedKey Text
key_of s = record { signer = s; comment = []; added_at = 0; lifetime = 0; confirm = false }

abbrev agent_with : Bool → ManagedAgent Text
agent_with is_locked = record {
  keys = (codes "#a", key_of (codes "a")) ∷ (codes "#b", key_of (codes "b")) ∷ [];
  is_locked = is_locked;
  lock_pass = [];
  socket_path = codes "/run/agent.sock";
  listening = true;
  pending = 0;
}

-- A locked agent is not reported as locked: the error of the client does not say so.
locked_is_not_seen :
    (status toy client (codes "/run/agent.sock") socket (some (agent_with true))).is_locked ≡ false
unfolding status list has_prefix
locked_is_not_seen = refl

both_are_listed :
    (list_loaded_fingerprints toy client (codes "/run/agent.sock") (some (agent_with false))).0
    ≡ ok (codes "#a" ∷ codes "#b" ∷ [])
unfolding list_loaded_fingerprints list Map.values
both_are_listed = refl

abbrev added : Text → Request Text Text
added k =
    add_request 0
      (record { private_key = k; comment = []; lifetime_secs = 0; confirm_before_use = false })

abbrev agent : ManagedAgent Text
agent =
    run toy (added (codes "a") ∷ added (codes "b") ∷ [])
      (new_managed_agent (codes "/run/agent.sock"))

-- the first key is removed by somebody else
abbrev other_removed : ManagedAgent Text → ManagedAgent Text
other_removed m = (Agent.remove_key_by_fingerprint (codes "#a") m).1

remove_over_socket_example :
    remove_key_by_fingerprint toy client
      (codes "/run/agent.sock")
      other_removed
      (codes "#b")
      (some agent)
    ≡ (
      told list_failed (Agent.remove_key_by_fingerprint (codes "#b") (other_removed agent)).0,
      some (Agent.remove_key_by_fingerprint (codes "#b") (other_removed agent)).1,
    )
unfolding Agent.remove_key_by_fingerprint new_managed_agent add run handle Map.put Map.delete
    Map.get
remove_over_socket_example =
    remove_over_socket toy client (codes "/run/agent.sock") (codes "#b") other_removed agent
      client-IsFaithful refl
      (run-IsWellFormed toy (codes "/run/agent.sock") (added (codes "a") ∷ added (codes "b") ∷ []))
      (run-IsWellFormed toy (codes "/run/agent.sock")
        (added (codes "a") ∷ added (codes "b") ∷ fingerprint_request (codes "#a") ∷ []))
      refl refl

-- A key that is removed between the two requests makes the call fail.
gone_meanwhile :
    (remove_key_by_fingerprint toy client
      (codes "/run/agent.sock")
      other_removed
      (codes "#a")
      (some agent)).0
    ≡ err refused
unfolding remove_key_by_fingerprint blob_of Agent.remove_key_by_fingerprint new_managed_agent add
    remove list run handle Map.put Map.delete Map.get Map.values
gone_meanwhile = refl

-- one who stays, and one who has left but is still in the map
abbrev watchers : List (Subscriber ℕ)
watchers = at 1 cancel (subscribe (subscribe []))

watchers-Reach : Reach watchers
watchers-Reach = next (next (next at_first subscribed) subscribed) (cancelled_at 1)

notify_never_panics_example : notify 7 (λ i. true) watchers ≡ some (served 7 (λ i. true) watchers)
notify_never_panics_example = notify_never_panics watchers watchers-Reach 7 (λ i. true)

only_the_first_is_served :
    served 7 (λ i. true) watchers
    ≡ record { ch = some 7; cancelled = false; listed = true; closed = false }
      ∷ record { ch = none; cancelled = true; listed = true; closed = false }
      ∷ []
unfolding served at
only_the_first_is_served = refl
