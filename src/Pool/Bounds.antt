-- ===== src/Pool/Bounds.antt =====
-- The pool never holds more connections than its limit.
use skeys.Prelude.{
  ℕ, ◌≤◌, ◌≡◌, refl, false, Option, none, some, List, [], ◌∷◌, ok, err, Result, length, leb,
  Bool-cases, inl, inr, arith,
}
use skeys.Text.{Text, text_eq}
use skeys.Map
use skeys.Map.{Map}
use skeys.Map.Laws.{length-put_old, length-put_le, length-delete}
use skeys.Pool.{
  ConnectionConfig, Connection, PoolConfig, PoolError, ConnectionPool, World, new_connection_pool,
  pool_key, dial, connect, connect_new, connect_found, insert_dialled, disconnect, disconnect_found,
  drop_connection, drop_idle, cleanup, check_key_presence, is_idle, is_key_in_agent,
}

-- one call of the pool, in the world that it meets
pub data Event : Type 1 where
  to_connect : World → ConnectionConfig → Event
  to_disconnect : Text → Event
  to_clean : ℕ → Event
  to_check : World → Connection → Event

unfoldable pub handle : Event → ConnectionPool → ConnectionPool
handle (to_connect w cfg) p = (connect w cfg p).1
handle (to_disconnect id) p = (disconnect id p).1
handle (to_clean now) p = cleanup now p
handle (to_check w conn) p = check_key_presence w conn p

unfoldable pub run : List Event → ConnectionPool → ConnectionPool
unfolding handle
run [] p = p
run (e ∷ es) p = run es (handle e p)

record IsBounded (max : ℕ) (p : ConnectionPool) : Type 0 where
  limit : p.config.max_connections ≡ max
  bounded : length p.connections ≤ max

module _ (max : ℕ) where
  drop-IsBounded :
      (key : Text) (conn : Connection) (p : ConnectionPool)
      → IsBounded max p
      → IsBounded max (drop_connection key conn p)
  drop-IsBounded key conn p h = record {
    limit = h.limit;
    bounded = omega (arith, length-delete key p.connections, h.bounded);
  }

  insert-IsBounded :
      (key : Text) (r : Result PoolError Connection) (p : ConnectionPool)
      → leb p.config.max_connections (length p.connections) ≡ false
      → IsBounded max p
      → IsBounded max (insert_dialled key r p).1
  insert-IsBounded key (err e) p room h = h
  insert-IsBounded key (ok conn) p room h = record {
    limit = h.limit;
    bounded = ground (arith, length-put_le key conn p.connections, h.limit);
  }

  connect_new-IsBounded :
      (w : World) (cfg : ConnectionConfig) (p : ConnectionPool)
      → IsBounded max p
      → IsBounded max (connect_new w cfg p).1
  unfolding connect_new
  connect_new-IsBounded w cfg p h =
      elim (Bool-cases (leb p.config.max_connections (length p.connections))) [
        | inl no_room ↦ rw no_room h
        | inr room ↦ rw room (insert-IsBounded (pool_key cfg) (dial w cfg) p room h)
      ]

  connect_found-IsBounded :
      (w : World) (o : Option Connection) (cfg : ConnectionConfig) (p : ConnectionPool)
      → Map.get (pool_key cfg) p.connections ≡ o
      → IsBounded max p
      → IsBounded max (connect_found w o cfg p).1
  connect_found-IsBounded w none cfg p e h = connect_new-IsBounded w cfg p h
  connect_found-IsBounded w (some conn) cfg p e h = elim (Bool-cases (w.is_healthy conn)) [
    | inl healthy ↦ rw healthy (record {
      limit = h.limit;
      bounded = omega (
        arith,
        length-put_old (pool_key cfg) (record conn { last_activity_at = w.now }) p.connections
            (λ n. cc (n, e)),
        h.bounded,
      );
    })
    | inr dead ↦ rw dead (connect_new-IsBounded w cfg _ (drop-IsBounded (pool_key cfg) conn p h))
  ]

  disconnect-IsBounded :
      (o : Option (Text × Connection)) (p : ConnectionPool)
      → IsBounded max p
      → IsBounded max (disconnect_found o p).1
  disconnect-IsBounded none p h = h
  disconnect-IsBounded (some (key, conn)) p h = drop-IsBounded key conn p h

  drop_idle-IsBounded :
      (now : ℕ) (m : Map Text Connection) (p : ConnectionPool)
      → IsBounded max p
      → IsBounded max (drop_idle now m p)
  unfolding drop_idle
  drop_idle-IsBounded now [] p h = h
  drop_idle-IsBounded now ((key, conn) ∷ m) p h =
      elim (Bool-cases (is_idle now p.config.max_idle_time conn)) [
        | inl idle ↦ rw idle (drop_idle-IsBounded now m _ (drop-IsBounded key conn p h))
        | inr busy ↦ rw busy (drop_idle-IsBounded now m p h)
      ]

  handle-IsBounded : (e : Event) (p : ConnectionPool) → IsBounded max p → IsBounded max (handle e p)
  unfolding handle connect disconnect cleanup check_key_presence
  handle-IsBounded (to_connect w cfg) p h = connect_found-IsBounded w _ cfg p refl h
  handle-IsBounded (to_disconnect id) p h = disconnect-IsBounded _ p h
  handle-IsBounded (to_clean now) p h = drop_idle-IsBounded now p.connections p h
  handle-IsBounded (to_check w conn) p h =
      elim (Bool-cases (is_key_in_agent w conn.agent_socket conn.key_fingerprint)) [
        | inl there ↦ rw there h
        | inr gone ↦ rw gone (disconnect-IsBounded _ p h)
      ]

  run-IsBounded :
      (es : List Event) (p : ConnectionPool) → IsBounded max p → IsBounded max (run es p)
  unfolding run
  run-IsBounded [] p h = h
  run-IsBounded (e ∷ es) p h = run-IsBounded es (handle e p) (handle-IsBounded e p h)

-- Whatever calls are made, in whatever worlds, a new pool never holds more connections than its
-- limit, which no call changes.
pub length-run :
    (c : PoolConfig) (es : List Event)
    → (length (run es (new_connection_pool c)).connections
        ≤ (new_connection_pool c).config.max_connections)
      × ((run es (new_connection_pool c)).config.max_connections
          ≡ (new_connection_pool c).config.max_connections)
length-run c es =
    let start = new_connection_pool c in
    let h =
      run-IsBounded start.config.max_connections es start
        (record { limit = refl; bounded = unfold new_connection_pool in omega arith }) in
    (h.bounded, h.limit)
