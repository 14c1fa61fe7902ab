-- ===== src/Pool/State.antt =====
-- skeys-core/remote/connection.go: the state of the pool of SSH connections, and what answers its calls.
use skeys.Prelude.{ℕ, Bool, Option, List, nat_eq}
use skeys.Text.{Text, text_eq}
use skeys.Map.{Map}

pub data PoolError : Type 0 where
  limit_reached bad_private_key unreadable_key_file no_auth_methods connect_failed : PoolError
  connection_not_found agent_failed key_not_in_agent : PoolError

pub record ConnectionConfig : Type 0 where
  pub host : Text
  pub port : ℕ
  pub user : Text
  pub private_key : Text
  pub private_key_path : Text
  pub passphrase : Text
  pub timeout : ℕ
  pub agent_socket : Text
  pub key_fingerprint : Text
  pub trust_host_key : Bool

pub record Connection : Type 0 where
  pub id : Text
  pub remote_id : Text
  pub host : Text
  pub port : ℕ
  pub user : Text
  pub server_version : Text
  pub connected_at : ℕ
  pub last_activity_at : ℕ
  pub key_fingerprint : Text
  pub agent_socket : Text

pub record PoolConfig : Type 0 where
  pub max_idle_time : ℕ
  pub max_connections : ℕ
  pub keep_alive_interval : ℕ

pub record ConnectionPool : Type 0 where
  -- by `user@host:port`
  pub connections : Map Text Connection
  pub config : PoolConfig
  pub closed : List Connection

-- the entries of `ssh.ClientConfig.Auth`: a signer, one key of the agent, or all of them
pub data AuthMethod (S : Type 0) : Type 0 where
  public_keys : S → AuthMethod S
  agent_key : Text → AuthMethod S
  agent_keys : AuthMethod S

pub record World : Type 1 where
  pub Signer : Type 0
  -- `ssh.ParsePrivateKey`, and `ParsePrivateKeyWithPassphrase` with the passphrase second
  pub parse_private_key : Text → Option Signer
  pub parse_with_passphrase : Text → Text → Option Signer
  pub read_file : Text → Option Text
  -- whether `net.Dial` reaches the agent's socket
  pub agent_answers : Text → Bool
  -- the fingerprints that an agent lists, if it can be reached and lists
  pub agent_fingerprints : Text → Option (List Text)
  -- `agentClient.Signers` and the fingerprint of a signer
  pub agent_signers : Text → Option (List Signer)
  pub signer_fingerprint : Signer → Text
  -- `ssh.Dial` to an address as a user, with the methods and a timeout: the server's version
  pub dial_ssh : Text → Text → List (AuthMethod Signer) → ℕ → Option Text
  pub is_healthy : Connection → Bool
  pub now : ℕ
  -- `generateID`
  pub new_id : Text
