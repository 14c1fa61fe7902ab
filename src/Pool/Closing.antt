-- ===== src/Pool/Closing.antt =====
-- How connections leave the pool: `Disconnect`, the idle cleanup and the watch on the agent's keys.
use skeys.Prelude.{
  ℕ, ◌-◌, leb, ◌≡◌, refl, Bool, true, false, Option, none, some, List, [], ◌∷◌, ok, err, ◌==◌,
  Option-cases, inl, inr, ◌⊎◌, arith, if◌then◌else◌,
}
use skeys.Text.{Text, text_eq}
use skeys.Map
use skeys.Map.{Map}
use skeys.Map.Laws.{get-delete, Distinct}
use skeys.Pool.{
  Connection, connection_not_found, ConnectionPool, World, get_connection, disconnect, find_by_id,
  drop_connection, drop_idle, cleanup, is_idle, check_key_presence, is_key_in_agent, holds,
}

-- A connection is kept while the time since its last use is at most the limit.
abbrev pub active : ℕ → ℕ → Option Connection → Option Connection
active now limit none = none
active now limit (some conn) = if leb (now - conn.last_activity_at) limit then some conn else none

get-drop_idle_other :
    (now : ℕ) (key : Text) (m : Map Text Connection) (p : ConnectionPool)
    → Map.get key m ≡ none
    → Map.get key (drop_idle now m p).connections ≡ Map.get key p.connections
unfolding Map.get drop_idle
get-drop_idle_other now key [] p h = refl
get-drop_idle_other now key ((k, conn) ∷ m) p h = ground (
  arith,
  get-drop_idle_other now key m (drop_connection k conn p),
  get-drop_idle_other now key m p,
  get-delete k key p.connections,
)

get-drop_idle :
    (now : ℕ) (key : Text) (m : Map Text Connection) (p : ConnectionPool)
    → Distinct m
    → Map.get key p.connections ≡ Map.get key m
    → Map.get key (drop_idle now m p).connections
      ≡ active now p.config.max_idle_time (Map.get key m)
unfolding Map.get drop_idle is_idle
get-drop_idle now key [] p d h = h
get-drop_idle now key ((k, conn) ∷ m) p (fresh, d) h = ground (
  arith,
  text_eq.beq_iff k key,
  get-drop_idle_other now key m (drop_connection k conn p),
  get-drop_idle_other now key m p,
  get-drop_idle now key m (drop_connection k conn p) d,
  get-drop_idle now key m p d,
  get-delete k key p.connections,
)

-- Where no key stands twice, a tick of the cleanup drops exactly the connections that have been idle
-- for longer than the pool's limit, and keeps the others as they are.
pub cleanup_exact :
    (now : ℕ) (key : Text) (p : ConnectionPool)
    → Distinct p.connections
    → Map.get key (cleanup now p).connections
      ≡ active now p.config.max_idle_time (Map.get key p.connections)
unfolding cleanup
cleanup_exact now key p d = get-drop_idle now key p.connections p d refl

-- The IDs of the connections are different.
abbrev pub has_id : Text → Map Text Connection → Bool
has_id id [] = false
has_id id ((key, conn) ∷ m) = if conn.id == id then true else has_id id m

abbrev pub IdsDistinct : Map Text Connection → Type 0
IdsDistinct [] = Unit
IdsDistinct ((key, conn) ∷ m) = (has_id conn.id m ≡ false) × IdsDistinct m

find-no_id : (id : Text) (m : Map Text Connection) → has_id id m ≡ false → find_by_id id m ≡ none
unfolding find_by_id
find-no_id id [] h = refl
find-no_id id ((key, conn) ∷ m) h = ground (arith, find-no_id id m)

has_id-delete :
    (id key : Text) (m : Map Text Connection)
    → has_id id m ≡ false
    → has_id id (Map.delete key m) ≡ false
unfolding Map.delete
has_id-delete id key [] h = refl
has_id-delete id key ((k, conn) ∷ m) h = ground (arith, has_id-delete id key m)

-- after the deletion of the entry that was found, none has the ID
find-delete :
    (id key : Text) (conn : Connection) (m : Map Text Connection)
    → IdsDistinct m
    → find_by_id id m ≡ some (key, conn)
    → find_by_id id (Map.delete key m) ≡ none
unfolding find_by_id Map.delete
find-delete id key conn [] d h = cc
find-delete id key conn ((k, c) ∷ m) (fresh, d) h = ground (
  arith,
  text_eq.beq_iff c.id id,
  text_eq.beq_iff k key,
  text_eq.beq_iff k k,
  find-no_id c.id (Map.delete k m) (has_id-delete c.id k m fresh),
  find-delete id key conn m d,
)

found-get_connection :
    (id : Text) (conn : Connection) (p : ConnectionPool)
    → get_connection id p ≡ ok conn
    → (key : Text) × (find_by_id id p.connections ≡ some (key, conn))
unfolding get_connection
found-get_connection id conn p h = elim (Option-cases (find_by_id id p.connections)) [
  | inl missing ↦ cc (rw missing at h)
  | inr ((key, c), found) ↦ (key, ground (arith, found, (rw found at h)))
]

-- Where no two connections have the same ID, `Disconnect` closes the connection with the ID, one
-- time, and the pool does not find it any more.
disconnect_known :
    (id : Text) (conn : Connection) (p : ConnectionPool)
    → IdsDistinct p.connections
    → get_connection id p ≡ ok conn
    → ((disconnect id p).0 ≡ ok tt)
      × ((disconnect id p).1.closed ≡ conn ∷ p.closed)
      × (get_connection id (disconnect id p).1 ≡ err connection_not_found)
unfolding disconnect get_connection
disconnect_known id conn p d h =
    let (key, found) = found-get_connection id conn p h in
    (
      rw found refl,
      rw found refl,
      rw found (rw (find-delete id key conn p.connections d found) refl),
    )

-- An ID that the pool does not know is an error for `Disconnect` too, which leaves the pool as it is.
disconnect_unknown :
    (id : Text) (p : ConnectionPool)
    → get_connection id p ≡ err connection_not_found
    → disconnect id p ≡ (err connection_not_found, p)
unfolding disconnect get_connection
disconnect_unknown id p h = elim (Option-cases (find_by_id id p.connections)) [
  | inl missing ↦ rw missing refl
  | inr (found, e) ↦ cc (rw e at h)
]

-- A tick of the watch leaves the pool alone while the agent lists the key that the connection was
-- made with, and a connection made without an agent or a chosen key is always left alone.
watch_keeps :
    (w : World) (conn : Connection) (p : ConnectionPool)
    → (conn.agent_socket ≡ [])
      ⊎ (conn.key_fingerprint ≡ [])
      ⊎ ((fps : List Text) × (w.agent_fingerprints conn.agent_socket ≡ some fps)
          × (holds conn.key_fingerprint fps ≡ true))
    → check_key_presence w conn p ≡ p
unfolding check_key_presence is_key_in_agent
watch_keeps w conn p (inl no_agent) = ground (arith, text_eq.beq_iff conn.agent_socket [])
watch_keeps w conn p (inr (inl no_key)) = ground (arith, text_eq.beq_iff conn.key_fingerprint [])
watch_keeps w conn p (inr (inr (fps, listed, held))) = ground arith

-- Once the agent cannot be asked or does not list the key any more, a tick closes the connection and
-- drops it from a pool where no two connections have the same ID.
watch_drops :
    (w : World) (conn : Connection) (p : ConnectionPool)
    → IdsDistinct p.connections
    → get_connection conn.id p ≡ ok conn
    → is_key_in_agent w conn.agent_socket conn.key_fingerprint ≡ false
    → ((check_key_presence w conn p).closed ≡ conn ∷ p.closed)
      × (get_connection conn.id (check_key_presence w conn p) ≡ err connection_not_found)
unfolding check_key_presence
watch_drops w conn p d h gone =
    let (a, closed, missing) = disconnect_known conn.id conn p d h in
    (rw gone closed, rw gone missing)
