-- ===== src/Pool/Tests.antt =====
-- Runs of the pool in a small world, and the theorems at concrete inputs.
use skeys.Prelude.{
  ℕ, ◌≡◌, ◌≤◌, refl, true, false, none, some, List, [], ◌∷◌, ok, err, length, leb, ◌==◌,
  if◌then◌else◌,
}
use skeys.Text.{Text, text_eq, codes}
use skeys.Text.Decimal.{itoa}
use skeys.Map
use skeys.Map.Laws.{Distinct}
use skeys.Pool.{
  ConnectionConfig, Connection, PoolConfig, ConnectionPool, World, new_connection_pool, pool_key,
  connect, connect_failed, get_connection, cleanup, is_key_in_agent, dial, connect_new,
}
use skeys.Pool.Bounds.{Event, to_connect, to_disconnect, to_clean, run, length-run}
use skeys.Pool.Closing.{active, cleanup_exact, IdsDistinct}

-- Signers are the texts of keys; the agent at `a` holds the key `k`; one host answers.
abbrev world : World
world = record {
  Signer = Text;
  parse_private_key = λ k. some k;
  parse_with_passphrase = λ k pass. some k;
  read_file = λ path. none;
  agent_answers = λ a. a == codes "a";
  agent_fingerprints = λ a. if a == codes "a" then some (codes "k" ∷ []) else none;
  agent_signers = λ a. some (codes "k" ∷ []);
  signer_fingerprint = λ s. s;
  dial_ssh = λ addr user ms timeout. if addr == codes "up:22" then some (codes "SSH-2.0") else none;
  is_healthy = λ c. leb 50 c.last_activity_at;
  now = 100;
  new_id = codes "n1";
}

abbrev to_host : Text → ConnectionConfig
to_host host = record {
  host = host;
  port = 22;
  user = codes "me";
  private_key = [];
  private_key_path = [];
  passphrase = [];
  timeout = 0;
  agent_socket = codes "a";
  key_fingerprint = codes "k";
  trust_host_key = true;
}

abbrev old : Text → ℕ → Text → Connection
old id seen fp = record {
  id = id;
  remote_id = [];
  host = codes "up";
  port = 22;
  user = codes "me";
  server_version = [];
  connected_at = 1;
  last_activity_at = seen;
  key_fingerprint = fp;
  agent_socket = codes "a";
}

abbrev settings : PoolConfig
settings = record { max_idle_time = 60; max_connections = 1; keep_alive_interval = 30 }

abbrev one : Text → Connection → ConnectionPool
one key conn = record { connections = (key, conn) ∷ []; config = settings; closed = [] }

abbrev up : ConnectionConfig
up = to_host (codes "up")

abbrev down : ConnectionConfig
down = to_host (codes "down")

abbrev held : ConnectionPool
held = one (codes "me@up:22") (old (codes "c1") 60 (codes "k"))

held_up : Map.get (pool_key up) held.connections ≡ some (old (codes "c1") 60 (codes "k"))
unfolding Map.get pool_key itoa
held_up = refl

abbrev empty : ConnectionPool
empty = record { connections = []; config = settings; closed = [] }

abbrev dialled : Connection
dialled = record (old (codes "n1") 100 (codes "k")) {
  server_version = codes "SSH-2.0";
  connected_at = 100;
}

dial_up : (connect world up empty).0 ≡ ok dialled
unfolding connect connect_new Map.get Map.put pool_key dial itoa
dial_up = refl

-- The dead connection to the host that is down is closed, though the dial fails.
abbrev dead : ConnectionPool
dead = one (codes "me@down:22") (old (codes "c1") 10 (codes "k"))

dial_down : (connect world down dead).0 ≡ err connect_failed
unfolding connect connect_new Map.get Map.delete pool_key dial itoa
dial_down = refl

Distinct-held : Distinct held.connections
unfolding Map.get
Distinct-held = (refl, tt)

cleanup_exact_example :
    Map.get (codes "me@up:22") (cleanup 130 held).connections
    ≡ active 130 60 (Map.get (codes "me@up:22") held.connections)
cleanup_exact_example = cleanup_exact 130 (codes "me@up:22") held Distinct-held

ids_held : (fp : Text) → IdsDistinct (one (codes "me@up:22") (old (codes "c1") 60 fp)).connections
ids_held fp = (refl, tt)

found_held :
    (fp : Text)
    → get_connection (codes "c1") (one (codes "me@up:22") (old (codes "c1") 60 fp))
      ≡ ok (old (codes "c1") 60 fp)
unfolding get_connection
found_held fp = refl

abbrev lost : ConnectionPool
lost = one (codes "me@up:22") (old (codes "c1") 60 (codes "gone"))

key_is_lost : is_key_in_agent world (codes "a") (codes "gone") ≡ false
unfolding is_key_in_agent
key_is_lost = refl

abbrev calls : List Event
calls = to_connect world up ∷ to_connect world down ∷ to_disconnect (codes "n1") ∷ to_clean 900 ∷ []

length-run_example :
    (length (run calls (new_connection_pool settings)).connections
      ≤ (new_connection_pool settings).config.max_connections)
    × ((run calls (new_connection_pool settings)).config.max_connections
        ≡ (new_connection_pool settings).config.max_connections)
length-run_example = length-run settings calls
