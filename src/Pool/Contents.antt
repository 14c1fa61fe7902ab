-- ===== src/Pool/Contents.antt =====
-- What each call does to the connections of the pool.
use skeys.Prelude.{
  ◌≡◌, refl, true, false, Option, none, some, [], ok, err, Result, length, leb, ◌==◌, Bool-cases,
  inl, inr, arith, if◌then◌else◌,
}
use skeys.Text.{Text, text_eq}
use skeys.Map
use skeys.Map.{Map}
use skeys.Map.Laws.{get-put, get-put_self}
use skeys.Pool.{
  ConnectionConfig, Connection, PoolError, limit_reached, no_auth_methods, private_key_methods,
  key_file_methods, agent_methods, ConnectionPool, World, pool_key, dial, connect, connect_new,
  connect_found, insert_dialled, drop_connection,
}

-- the pool without what it held for the key
abbrev pub dropped : Option Connection → Text → ConnectionPool → ConnectionPool
dropped none key p = p
dropped (some conn) key p = drop_connection key conn p

module _ (w : World) where
  -- A connection to the same user, host and port that is healthy is handed out again, with its
  -- activity time renewed: nothing is dialled or closed, and the other entries stay.
  connect_reuses :
      (cfg : ConnectionConfig) (conn : Connection) (key : Text) (p : ConnectionPool)
      → Map.get (pool_key cfg) p.connections ≡ some conn
      → w.is_healthy conn ≡ true
      → ((connect w cfg p).0 ≡ ok (record conn { last_activity_at = w.now }))
        × ((connect w cfg p).1.closed ≡ p.closed)
        × (Map.get key (connect w cfg p).1.connections ≡ (
            if pool_key cfg == key
            then some (record conn { last_activity_at = w.now })
            else Map.get key p.connections))
  unfolding connect
  connect_reuses cfg conn key p found healthy =
      (rw (found, healthy), rw (found, healthy), rw (found, healthy) (rw get-put))

  insert-get :
      (key : Text) (r : Result PoolError Connection) (conn : Connection) (p : ConnectionPool)
      → (insert_dialled key r p).0 ≡ ok conn
      → Map.get key (insert_dialled key r p).1.connections ≡ some conn
  insert-get key (err e) conn p h = cc h
  insert-get key (ok c) conn p h = ground (arith, get-put_self key c p.connections, h)

  connect_new-get :
      (cfg : ConnectionConfig) (conn : Connection) (p : ConnectionPool)
      → (connect_new w cfg p).0 ≡ ok conn
      → Map.get (pool_key cfg) (connect_new w cfg p).1.connections ≡ some conn
  unfolding connect_new
  connect_new-get cfg conn p h =
      elim (Bool-cases (leb p.config.max_connections (length p.connections))) [
        | inl full ↦ cc (rw full at h)
        | inr room ↦ rw room (insert-get (pool_key cfg) (dial w cfg) conn p (rw room at h))
      ]

  connect_found-get :
      (o : Option Connection) (cfg : ConnectionConfig) (conn : Connection) (p : ConnectionPool)
      → (connect_found w o cfg p).0 ≡ ok conn
      → Map.get (pool_key cfg) (connect_found w o cfg p).1.connections ≡ some conn
  connect_found-get none cfg conn p h = connect_new-get cfg conn p h
  connect_found-get (some c) cfg conn p h = elim (Bool-cases (w.is_healthy c)) [
    | inl healthy ↦ rw healthy (
        ground (
          arith,
          get-put_self (pool_key cfg) (record c { last_activity_at = w.now }) p.connections,
          (rw healthy at h),
        ))
    | inr dead ↦
        rw dead (connect_new-get cfg conn (drop_connection (pool_key cfg) c p) (rw dead at h))
  ]

  -- A connection that `Connect` returns is the one that the pool holds for the user, host and port.
  connect-get :
      (cfg : ConnectionConfig) (conn : Connection) (p : ConnectionPool)
      → (connect w cfg p).0 ≡ ok conn
      → Map.get (pool_key cfg) (connect w cfg p).1.connections ≡ some conn
  unfolding connect
  connect-get cfg conn p h = connect_found-get _ cfg conn p h

  insert_error :
      (key : Text) (r : Result PoolError Connection) (e : PoolError) (p : ConnectionPool)
      → (insert_dialled key r p).0 ≡ err e
      → (insert_dialled key r p).1 ≡ p
  insert_error key (err x) e p h = refl
  insert_error key (ok c) e p h = cc h

  connect_new_error :
      (cfg : ConnectionConfig) (e : PoolError) (p : ConnectionPool)
      → (connect_new w cfg p).0 ≡ err e
      → (connect_new w cfg p).1 ≡ p
  unfolding connect_new
  connect_new_error cfg e p h =
      elim (Bool-cases (leb p.config.max_connections (length p.connections))) [
        | inl full ↦ rw full refl
        | inr room ↦ rw room (insert_error (pool_key cfg) (dial w cfg) e p (rw room at h))
      ]

  connect_found_error :
      (o : Option Connection) (cfg : ConnectionConfig) (e : PoolError) (p : ConnectionPool)
      → (connect_found w o cfg p).0 ≡ err e
      → (connect_found w o cfg p).1 ≡ dropped o (pool_key cfg) p
  connect_found_error none cfg e p h = connect_new_error cfg e p h
  connect_found_error (some c) cfg e p h = elim (Bool-cases (w.is_healthy c)) [
    | inl healthy ↦ cc (rw healthy at h)
    | inr dead ↦
        rw dead (connect_new_error cfg e (drop_connection (pool_key cfg) c p) (rw dead at h))
  ]

  -- When `Connect` fails, a dead connection that the pool held for the user, host and port has been
  -- closed and dropped, and nothing else of the pool has changed.
  connect_error :
      (cfg : ConnectionConfig) (e : PoolError) (p : ConnectionPool)
      → (connect w cfg p).0 ≡ err e
      → (connect w cfg p).1 ≡ dropped (Map.get (pool_key cfg) p.connections) (pool_key cfg) p
  unfolding connect
  connect_error cfg e p h = connect_found_error _ cfg e p h

  dial-no_methods :
      (cfg : ConnectionConfig)
      → cfg.private_key ≡ []
      → cfg.private_key_path ≡ []
      → w.agent_answers cfg.agent_socket ≡ false
      → dial w cfg ≡ err no_auth_methods
  unfolding dial private_key_methods key_file_methods agent_methods
  dial-no_methods cfg a b c =
      ground (arith, text_eq.beq_iff cfg.private_key [], text_eq.beq_iff cfg.private_key_path [])

  -- With no key, no key file and no agent that answers, nothing is dialled: a pool that holds nothing
  -- for the user, host and port is left as it is, with an error.
  connect_without_methods :
      (cfg : ConnectionConfig) (p : ConnectionPool)
      → cfg.private_key ≡ []
      → cfg.private_key_path ≡ []
      → w.agent_answers cfg.agent_socket ≡ false
      → Map.get (pool_key cfg) p.connections ≡ none
      → connect w cfg p ≡ (
        err (
            if leb p.config.max_connections (length p.connections)
            then limit_reached
            else no_auth_methods),
        p,
      )
  unfolding connect connect_new
  connect_without_methods cfg p a b c absent = rw (absent, dial-no_methods cfg a b c) (ground arith)
