-- ===== src/Storage.antt =====
-- skeys-core/storage/storage.go: key metadata and remote servers, kept in memory and in one JSON
-- file. The two maps have the same kind of record code, so they share the generic parts here. What
-- the operating system and encoding/json answer comes from outside: `Codec` for the encoding, and a
-- `Disk` that says for each attempt to save whether the write and the rename go through.
pub mod Saving
pub mod Queries
pub mod Invariant
mod Tests
use skeys.Prelude.{
  ℕ, Bool, true, false, Option, none, some, List, [], ◌==◌, Result, ok, err, if◌then◌else◌,
}
use skeys.Text.{Text, text_eq}
use skeys.Map
use skeys.Map.{Map}

pub data StoreError : Type 0 where
  key_path_required remote_id_required remote_not_found : StoreError
  marshal_failed write_failed rename_failed : StoreError

pub record KeyMetadata : Type 0 where
  pub key_path : Text
  pub verified_service : Text
  pub verified_host : Text
  pub verified_port : ℕ
  pub verified_user : Text

pub record RemoteServer : Type 0 where
  pub id : Text
  pub name : Text
  pub host : Text
  pub port : ℕ
  pub user : Text
  identity_file : Text
  ssh_config_alias : Text
  created_at : ℕ
  pub last_connected_at : ℕ

pub record StoreData : Type 0 where
  pub version : ℕ
  pub key_metadata : Map Text KeyMetadata
  pub remote_servers : Map Text RemoteServer

-- `json.MarshalIndent`, and `json.Unmarshal` with the two maps made where they are `null`
pub record Codec : Type 0 where
  pub encode : StoreData → Option Text
  pub decode : Text → Option StoreData

-- Whether `os.WriteFile` of the temporary file and `os.Rename` succeed in one `save`, and what is
-- left in the temporary file by a write that fails.
pub record Disk : Type 0 where
  pub write_succeeds : Bool
  pub rename_succeeds : Bool
  pub torn : Option Text

pub record Store : Type 0 where
  pub contents : StoreData
  -- `metadata.json` and `metadata.json.tmp`
  pub meta_file : Option Text
  pub tmp_file : Option Text

abbrev pub Outcome : Type 0
Outcome = Result StoreError (Unit {0}) × Store

abbrev pub empty_data : StoreData
empty_data = record { version = 1; key_metadata = []; remote_servers = [] }

module _ (codec : Codec) where
  -- What `NewStore` starts from: the file if it is there and can be parsed, and an empty store if not.
  abbrev loaded : Option StoreData → StoreData
  loaded none = empty_data
  loaded (some d) = d

  unfoldable pub load : Option Text → StoreData
  load none = empty_data
  load (some text) = loaded (codec.decode text)

  -- `readable` says whether `os.ReadFile` of a file that is there succeeds.
  new_store : Bool → Option Text → Option Text → Store
  unfolding load
  new_store readable meta tmp = record {
    contents = load (if readable then meta else none);
    meta_file = meta;
    tmp_file = tmp;
  }

  -- the temporary file first, then the rename over `metadata.json`
  abbrev write_encoded : Disk → Option Text → Store → Outcome
  write_encoded disk none s = (err marshal_failed, s)
  write_encoded disk (some text) s =
      if disk.write_succeeds
      then (if disk.rename_succeeds
          then (ok tt, record s { meta_file = some text; tmp_file = none })
          else (err rename_failed, record s { tmp_file = none }))
      else (err write_failed, record s { tmp_file = disk.torn })

  unfoldable pub save : Disk → Store → Outcome
  save disk s = write_encoded disk (codec.encode s.contents) s

  pub set_key_metadata : Disk → Option KeyMetadata → Store → Outcome
  unfolding save
  set_key_metadata disk none s = (err key_path_required, s)
  set_key_metadata disk (some meta) s =
      if meta.key_path == []
      then (err key_path_required, s)
      else save disk (record s {
        contents = record s.contents {
          key_metadata = Map.put meta.key_path meta s.contents.key_metadata;
        };
      })

  pub delete_key_metadata : Disk → Text → Store → Outcome
  unfolding save
  delete_key_metadata disk path s = save disk (record s {
    contents = record s.contents { key_metadata = Map.delete path s.contents.key_metadata };
  })

  -- `s.data.RemoteServers[remote.ID] = …` and `save`
  abbrev store_remote : Disk → RemoteServer → Store → Outcome
  store_remote disk remote s = save disk (record s {
    contents = record s.contents {
      remote_servers = Map.put remote.id remote s.contents.remote_servers;
    };
  })

  pub add_remote_server : Disk → Option RemoteServer → Store → Outcome
  unfolding save
  add_remote_server disk none s = (err remote_id_required, s)
  add_remote_server disk (some remote) s =
      if remote.id == [] then (err remote_id_required, s) else store_remote disk remote s

  abbrev if_stored : Option RemoteServer → (RemoteServer → Outcome) → Store → Outcome
  if_stored none change s = (err remote_not_found, s)
  if_stored (some old) change s = change old

  pub update_remote_server : Disk → Option RemoteServer → Store → Outcome
  unfolding save
  update_remote_server disk none s = (err remote_id_required, s)
  update_remote_server disk (some remote) s =
      if remote.id == []
      then (err remote_id_required, s)
      else if_stored (Map.get remote.id s.contents.remote_servers)
          (λ old. store_remote disk remote s) s

  pub delete_remote_server : Disk → Text → Store → Outcome
  unfolding save
  delete_remote_server disk id s = save disk (record s {
    contents = record s.contents { remote_servers = Map.delete id s.contents.remote_servers };
  })

  pub update_remote_server_last_connected : Disk → Text → ℕ → Store → Outcome
  unfolding save
  update_remote_server_last_connected disk id timestamp s =
      if_stored (Map.get id s.contents.remote_servers)
        (λ old. save disk (record s {
          contents = record s.contents {
            remote_servers =
                Map.put id (record old { last_connected_at = timestamp }) s.contents.remote_servers;
          };
        }))
        s

pub get_key_metadata : Text → Store → Option KeyMetadata
get_key_metadata path s = Map.get path s.contents.key_metadata

pub get_remote_server : Text → Store → Option RemoteServer
get_remote_server id s = Map.get id s.contents.remote_servers

list_key_metadata : Store → List KeyMetadata
list_key_metadata s = Map.values s.contents.key_metadata

list_remote_servers : Store → List RemoteServer
list_remote_servers s = Map.values s.contents.remote_servers
