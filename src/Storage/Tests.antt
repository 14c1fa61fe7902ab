-- ===== src/Storage/Tests.antt =====
-- Runs of the store with a small encoding, and the theorems at concrete inputs.
use skeys.Prelude.{
  ℕ, ◌≡◌, refl, true, false, ◌&&◌, List, [], ◌∷◌, Option, none, some, err, ◌==◌, nat_eq, arith,
  if◌then◌else◌,
}
use skeys.Text.{Text, text_eq, codes}
use skeys.Map
use skeys.Map.{Map}
use skeys.Storage.{
  KeyMetadata, RemoteServer, StoreData, Codec, Disk, Store, empty_data, load, set_key_metadata,
  update_remote_server_last_connected, write_failed,
}
use skeys.Storage.Saving.{Change, set_metadata, connected, apply, run, durable, load-run}
use skeys.Storage.Invariant.{IsKeyed, IsValid, apply-IsValid}

abbrev plain : Text → KeyMetadata
plain path = record {
  key_path = path;
  verified_service = [];
  verified_host = [];
  verified_port = 0;
  verified_user = [];
}

-- An encoding for stores with no remote and at most one plain entry.
abbrev encode_parts : ℕ → Map Text KeyMetadata → Map Text RemoteServer → Option Text
encode_parts v [] [] = some (v ∷ [])
encode_parts v ((k, m) ∷ []) [] =
    if k == m.key_path
      && m.verified_service == []
      && m.verified_host == []
      && m.verified_port == 0
      && m.verified_user == []
    then some (v ∷ 1 ∷ k)
    else none
encode_parts v ms rs = none

abbrev decode_text : Text → Option StoreData
decode_text [] = none
decode_text (v ∷ []) = some (record { version = v; key_metadata = []; remote_servers = [] })
decode_text (v ∷ c ∷ k) =
    some (record { version = v; key_metadata = (k, plain k) ∷ []; remote_servers = [] })

abbrev small : Codec
small = record {
  encode = λ d. encode_parts d.version d.key_metadata d.remote_servers;
  decode = decode_text;
}

decode-encode_parts :
    (v : ℕ) (ms : Map Text KeyMetadata) (rs : Map Text RemoteServer) (text : Text)
    → encode_parts v ms rs ≡ some text
    → decode_text text ≡ some (record { version = v; key_metadata = ms; remote_servers = rs })
decode-encode_parts v [] [] text h = ground arith
decode-encode_parts v ((k, m) ∷ []) [] text h = ground (
  arith,
  text_eq.beq_iff k m.key_path,
  text_eq.beq_iff m.verified_service [],
  text_eq.beq_iff m.verified_host [],
  text_eq.beq_iff m.verified_user [],
)
decode-encode_parts v [] (r ∷ rs) text h = cc
decode-encode_parts v ((k, m) ∷ []) (r ∷ rs) text h = cc
decode-encode_parts v (a ∷ b ∷ ms) rs text h = cc

small_law : (d : StoreData) (text : Text) → small.encode d ≡ some text → small.decode text ≡ some d
small_law d = decode-encode_parts d.version d.key_metadata d.remote_servers

abbrev work : Text
work = codes "/home/me/.ssh/work"

abbrev healthy : Disk
healthy = record { write_succeeds = true; rename_succeeds = true; torn = none }

abbrev full : Disk
full = record { write_succeeds = false; rename_succeeds = true; torn = some [] }

abbrev blank : Store
blank = record { contents = empty_data; meta_file = none; tmp_file = none }

abbrev set_work : Change
set_work = set_metadata (some (plain work))

set_work_fails : (apply small full set_work blank).0 ≡ err write_failed
unfolding apply set_key_metadata Map.put
set_work_fails = refl

abbrev steps : List (Disk × Change)
steps = (healthy, set_work) ∷ (full, set_metadata (some (plain []))) ∷ (full, connected [] 5) ∷ []

load-run_example :
    load small (run small steps blank).meta_file
    ≡ durable small steps blank (load small blank.meta_file)
load-run_example = load-run small small_law steps blank

durable_contents :
    durable small steps blank empty_data
    ≡ record { version = 1; key_metadata = (work, plain work) ∷ []; remote_servers = [] }
unfolding durable apply set_key_metadata update_remote_server_last_connected Map.put Map.get
durable_contents = refl

blank_metadata : IsKeyed (λ (m : KeyMetadata). m.key_path) []
unfolding Map.get
blank_metadata = record { distinct = tt; own_key = λ k v found. cc found }

blank_remotes : IsKeyed (λ (r : RemoteServer). r.id) []
unfolding Map.get
blank_remotes = record { distinct = tt; own_key = λ k v found. cc found }

apply-IsValid_example : IsValid (apply small full set_work blank).1.contents
apply-IsValid_example =
    apply-IsValid small full set_work blank
      (record { metadata = blank_metadata; remotes = blank_remotes })
