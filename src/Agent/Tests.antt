-- ===== src/Agent/Tests.antt =====
-- Runs of the agent over toy cryptography, and the theorems at concrete inputs.
use skeys.Prelude.{
  ◌++◌, ◌*◌, ap, ◌≡◌, ◌⊎◌, refl, false, true, List, [], ◌∷◌, none, some, ok, err, ◌==◌,
  if◌then◌else◌,
}
use skeys.Text.{Text, text_eq, text_ne, codes}
use skeys.Map
use skeys.Map.Laws.{Distinct}
use skeys.Ssh.{Crypto}
use skeys.Agent.{
  AddedKey, ManagedAgent, second, locked, new_managed_agent, add, remove, lock, list, list_keys,
  signers, sign_with_flags, expire_keys,
}
use skeys.Agent.Expiry.{unexpired, expire_keys_exact}
use skeys.Agent.Trace.{
  Request, run, unlock_request, add_request, remove_all_request, expire_request,
}
use skeys.Agent.Lockdown.{locked_until_passphrase}
use skeys.Agent.Invariant.{IsWellFormed, run-IsWellFormed}

-- A key is its own public key and fingerprint; a signature is the key before the text.
abbrev toy : Crypto
toy = record {
  PrivateKey = Text;
  PublicKey = Text;
  Signer = Text;
  Signature = Text;
  new_signer = λ k. if k == [] then none else some k;
  public_key = λ s. s;
  fingerprint = λ k. k;
  key_type = λ k. codes "toy";
  marshal = λ k. k;
  sign = λ s text. some (s ++ text);
  algorithm_signer = λ s. none;
}

abbrev fresh : ManagedAgent Text
fresh = record {
  keys = [];
  is_locked = false;
  lock_pass = [];
  socket_path = codes "/run/agent";
  listening = true;
  pending = 0;
}

abbrev work_key : AddedKey Text
work_key = record {
  private_key = codes "work";
  comment = codes "laptop";
  lifetime_secs = 60;
  confirm_before_use = true;
}

abbrev loaded : ManagedAgent Text
loaded = (add toy 5 work_key fresh).1

removed_work : (remove toy (codes "work") loaded).0 ≡ ok tt
unfolding remove add Map.get Map.put
removed_work = refl

abbrev stale : ManagedAgent Text
stale = record fresh {
  keys =
      (
        codes "work",
        record {
          signer = codes "work";
          comment = [];
          added_at = 0;
          lifetime = 60 * second;
          confirm = false;
        },
      )
      ∷ [];
}

Distinct-keys : Distinct stale.keys
unfolding Map.get
Distinct-keys = (refl, tt)

expire_keys_exact_example :
    Map.get (codes "work") (expire_keys (61 * second) stale).keys
    ≡ unexpired (61 * second) (Map.get (codes "work") stale.keys)
expire_keys_exact_example = expire_keys_exact (61 * second) (codes "work") stale Distinct-keys

abbrev attack : List (Request Text Text)
attack =
    unlock_request (codes "guess")
    ∷ add_request 9 work_key
    ∷ expire_request 10
    ∷ remove_all_request
    ∷ []

abbrev passphrase : Request Text Text → Text
passphrase (unlock_request p) = p
passphrase r = []

locked_until_passphrase_example :
    (sign_with_flags toy (codes "work") [] 0 (run toy attack (lock (codes "pw") stale).1)
      ≡ err locked)
    × (list toy (run toy attack (lock (codes "pw") stale).1) ≡ err locked)
    × (list_keys toy 9 (run toy attack (lock (codes "pw") stale).1) ≡ err locked)
    × (signers (run toy attack (lock (codes "pw") stale).1) ≡ err locked)
    × ((Map.get (codes "work") (run toy attack (lock (codes "pw") stale).1).keys ≡ none)
        ⊎ (Map.get (codes "work") (run toy attack (lock (codes "pw") stale).1).keys
            ≡ Map.get (codes "work") stale.keys))
locked_until_passphrase_example =
    locked_until_passphrase toy (codes "pw") stale attack refl
      ((λ e. text_ne _ _ refl (ap passphrase e)), ((λ e. cc), ((λ e. cc), ((λ e. cc), tt))))
      (codes "work") [] 0 9 (codes "work")

run-IsWellFormed_example :
    IsWellFormed toy (run toy attack (new_managed_agent (codes "/run/agent")))
run-IsWellFormed_example = run-IsWellFormed toy (codes "/run/agent") attack
