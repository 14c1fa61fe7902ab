-- ===== src/Pool.antt =====
-- skeys-core/remote/connection.go: the pool of SSH connections. Each method is a function of the
-- state under the pool's mutex. What the network, the agent, the key parser and the clock answer
-- during one call is a `World`; a connection that is dropped is put on the list `closed`, which
-- stands for its `Close`.
mod State
pub mod Bounds
pub mod Contents
pub mod Closing
mod Tests
pub use skeys.Pool.State.{
  PoolError, limit_reached, bad_private_key, unreadable_key_file, no_auth_methods, connect_failed,
  connection_not_found, agent_failed, key_not_in_agent, ConnectionConfig, Connection, PoolConfig,
  ConnectionPool, AuthMethod, public_keys, agent_key, agent_keys, World,
}
use skeys.Prelude.{
  ℕ, ◌+◌, ◌-◌, ◌*◌, Bool, true, false, not, ◌||◌, Option, none, some, List, [], ◌∷◌, ◌++◌, ltb, leb,
  ◌==◌, nat_eq, Result, ok, err, ◌>>=◌, length, if◌then◌else◌,
}
use skeys.Text.{Text, text_eq, codes}
use skeys.Text.Decimal.{itoa}
use skeys.Map
use skeys.Map.{Map}

abbrev second : ℕ
second = 1000000000

abbrev default_if_zero : ℕ → ℕ → ℕ
default_if_zero default n = if n == 0 then default else n

pub new_connection_pool : PoolConfig → ConnectionPool
new_connection_pool c = record {
  connections = [];
  config = record {
    max_idle_time = default_if_zero (600 * second) c.max_idle_time;
    max_connections = default_if_zero 10 c.max_connections;
    keep_alive_interval = default_if_zero (30 * second) c.keep_alive_interval;
  };
  closed = [];
}

-- `fmt.Sprintf("%s@%s:%d", cfg.User, cfg.Host, cfg.Port)`
unfoldable pub pool_key : ConnectionConfig → Text
pool_key cfg = cfg.user ++ (b'@' ∷ (cfg.host ++ (b':' ∷ itoa cfg.port)))

-- `fmt.Sprintf("%s:%d", cfg.Host, cfg.Port)`
abbrev address : Text → ℕ → Text
address host port = host ++ (b':' ∷ itoa port)

-- `conn.Close()` and `delete(p.connections, key)`
abbrev pub drop_connection : Text → Connection → ConnectionPool → ConnectionPool
drop_connection key conn p = record p {
  connections = Map.delete key p.connections;
  closed = conn ∷ p.closed;
}

abbrev pub holds : Text → List Text → Bool
holds fp [] = false
holds fp (x ∷ xs) = if x == fp then true else holds fp xs

-- The first entry whose connection has the ID.
unfoldable pub find_by_id : Text → Map Text Connection → Option (Text × Connection)
find_by_id id [] = none
find_by_id id ((key, conn) ∷ m) = if conn.id == id then some (key, conn) else find_by_id id m

abbrev disconnect_found :
    Option (Text × Connection) → ConnectionPool → Result PoolError (Unit {0}) × ConnectionPool
disconnect_found none p = (err connection_not_found, p)
disconnect_found (some (key, conn)) p = (ok tt, drop_connection key conn p)

pub disconnect : Text → ConnectionPool → Result PoolError (Unit {0}) × ConnectionPool
unfolding find_by_id
disconnect id p = disconnect_found (find_by_id id p.connections) p

abbrev found_or_error : Option (Text × Connection) → Result PoolError Connection
found_or_error none = err connection_not_found
found_or_error (some (key, conn)) = ok conn

pub get_connection : Text → ConnectionPool → Result PoolError Connection
unfolding find_by_id
get_connection id p = found_or_error (find_by_id id p.connections)

list_connections : ConnectionPool → List Connection
list_connections p = Map.values p.connections

-- `time.Since(conn.LastActivityAt) > p.config.MaxIdleTime`
unfoldable pub is_idle : ℕ → ℕ → Connection → Bool
is_idle now limit conn = ltb limit (now - conn.last_activity_at)

-- the loop of `cleanup` over the entries of the map
unfoldable pub drop_idle : ℕ → Map Text Connection → ConnectionPool → ConnectionPool
unfolding is_idle
drop_idle now [] p = p
drop_idle now ((key, conn) ∷ m) p =
    drop_idle now m
      (if is_idle now p.config.max_idle_time conn then drop_connection key conn p else p)

-- one tick of `cleanup`
pub cleanup : ℕ → ConnectionPool → ConnectionPool
unfolding drop_idle
cleanup now p = drop_idle now p.connections p

abbrev pub insert_dialled :
    Text
    → Result PoolError Connection
    → ConnectionPool
    → Result PoolError Connection × ConnectionPool
insert_dialled key (err e) p = (err e, p)
insert_dialled key (ok conn) p =
    (ok conn, record p { connections = Map.put key conn p.connections })

module _ (w : World) where
  open w use {Signer, now}

  abbrev Methods : Type 0
  Methods = List (AuthMethod Signer)

  abbrev add_signer : Option Signer → Methods → Result PoolError Methods
  add_signer none ms = err bad_private_key
  add_signer (some s) ms = ok (ms ++ public_keys s ∷ [])

  abbrev parse_key : Text → Text → Option Signer
  parse_key key passphrase =
      if passphrase == [] then w.parse_private_key key else w.parse_with_passphrase key passphrase

  abbrev add_file : Option Text → Text → Methods → Result PoolError Methods
  add_file none passphrase ms = err unreadable_key_file
  add_file (some key) passphrase ms = add_signer (parse_key key passphrase) ms

  unfoldable pub private_key_methods : ConnectionConfig → Methods → Result PoolError Methods
  private_key_methods cfg ms =
      if cfg.private_key == []
      then ok ms
      else add_signer (parse_key cfg.private_key cfg.passphrase) ms

  unfoldable pub key_file_methods : ConnectionConfig → Methods → Result PoolError Methods
  key_file_methods cfg ms =
      if cfg.private_key_path == []
      then ok ms
      else add_file (w.read_file cfg.private_key_path) cfg.passphrase ms

  unfoldable pub agent_methods : ConnectionConfig → Methods → Methods
  agent_methods cfg ms =
      if cfg.agent_socket == [] || not (w.agent_answers cfg.agent_socket)
      then ms
      else if cfg.key_fingerprint == []
      then ms ++ agent_keys ∷ []
      else ms ++ agent_key cfg.key_fingerprint ∷ []

  abbrev connected : ConnectionConfig → ℕ → Option Text → Result PoolError Connection
  connected cfg port none = err connect_failed
  connected cfg port (some version) = ok (record {
    id = w.new_id;
    remote_id = [];
    host = cfg.host;
    port = port;
    user = cfg.user;
    server_version = version;
    connected_at = now;
    last_activity_at = now;
    key_fingerprint = cfg.key_fingerprint;
    agent_socket = cfg.agent_socket;
  })

  -- the part of `dial` behind the auth methods
  abbrev dial_with : ConnectionConfig → Methods → Result PoolError Connection
  dial_with cfg [] = err no_auth_methods
  dial_with cfg (m ∷ ms) =
      let port = default_if_zero 22 cfg.port in
      connected cfg port (
        w.dial_ssh (address cfg.host port) cfg.user (m ∷ ms)
          (default_if_zero (30 * second) cfg.timeout))

  unfoldable pub dial : ConnectionConfig → Result PoolError Connection
  unfolding private_key_methods key_file_methods agent_methods
  dial cfg = do
    direct ← private_key_methods cfg []
    both ← key_file_methods cfg direct
    dial_with cfg (agent_methods cfg both)

  abbrev Outcome : Type 0 → Type 0
  Outcome A = Result PoolError A × ConnectionPool

  -- the part of `Connect` behind the search for an old connection
  unfoldable pub connect_new : ConnectionConfig → ConnectionPool → Outcome Connection
  connect_new cfg p =
      if leb p.config.max_connections (length p.connections)
      then (err limit_reached, p)
      else insert_dialled (pool_key cfg) (dial cfg) p

  abbrev connect_found : Option Connection → ConnectionConfig → ConnectionPool → Outcome Connection
  connect_found none cfg p = connect_new cfg p
  connect_found (some conn) cfg p =
      if w.is_healthy conn
      then (
        ok (record conn { last_activity_at = now }),
        record p {
          connections =
              Map.put (pool_key cfg) (record conn { last_activity_at = now }) p.connections;
        },
      )
      else connect_new cfg (drop_connection (pool_key cfg) conn p)

  pub connect : ConnectionConfig → ConnectionPool → Outcome Connection
  unfolding connect_new
  connect cfg p = connect_found (Map.get (pool_key cfg) p.connections) cfg p

  abbrev listed_in : Option (List Text) → Text → Bool
  listed_in none fp = false
  listed_in (some fps) fp = holds fp fps

  unfoldable pub is_key_in_agent : Text → Text → Bool
  is_key_in_agent socket fp =
      if socket == [] || fp == [] then true else listed_in (w.agent_fingerprints socket) fp

  -- One tick of `watchKeyPresence` for a connection.
  pub check_key_presence : Connection → ConnectionPool → ConnectionPool
  unfolding is_key_in_agent disconnect
  check_key_presence conn p =
      if not (is_key_in_agent conn.agent_socket conn.key_fingerprint)
      then (disconnect conn.id p).1
      else p

  unfoldable pub first_match : Text → List Signer → Option Signer
  first_match fp [] = none
  first_match fp (s ∷ ss) = if w.signer_fingerprint s == fp then some s else first_match fp ss

  abbrev matched : Option Signer → Result PoolError (List Signer)
  matched none = err key_not_in_agent
  matched (some s) = ok (s ∷ [])

  abbrev filter_from : Option (List Signer) → Text → Result PoolError (List Signer)
  filter_from none fp = err agent_failed
  filter_from (some ss) fp = matched (first_match fp ss)

  -- the callback behind `agent_key`
  filter_signers_by_fingerprint : Text → Text → Result PoolError (List Signer)
  unfolding first_match
  filter_signers_by_fingerprint socket fp = filter_from (w.agent_signers socket) fp
