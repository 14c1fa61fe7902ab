-- ===== src/Storage/Queries.antt =====
-- What the queries show after an operation.
use skeys.Prelude.{◌≡◌, ◌≢◌, Option, none, some, [], err, ◌==◌, arith, if◌then◌else◌, ℕ, refl}
use skeys.Text.{Text, text_eq, eq-nil}
use skeys.Map.Laws.{get-put, get-delete}
use skeys.Storage.{
  KeyMetadata, RemoteServer, Codec, Disk, Store, save, set_key_metadata, delete_key_metadata,
  update_remote_server, update_remote_server_last_connected, get_key_metadata, get_remote_server,
  remote_not_found, write_encoded,
}

module _ (codec : Codec) where
  contents-write_encoded :
      (disk : Disk) (o : Option Text) (s : Store)
      → (write_encoded codec disk o s).1.contents ≡ s.contents
  contents-write_encoded disk none s = refl
  contents-write_encoded disk (some text) s = ground arith

  pub contents-save : (disk : Disk) (s : Store) → (save codec disk s).1.contents ≡ s.contents
  unfolding save
  contents-save disk s = contents-write_encoded disk (codec.encode s.contents) s

  -- After metadata with a path is set, a query for its path returns it and a query for another path
  -- is answered as before, whether or not the save succeeded.
  get-set_key_metadata :
      (disk : Disk) (meta : KeyMetadata) (path : Text) (s : Store)
      → meta.key_path ≢ []
      → get_key_metadata path (set_key_metadata codec disk (some meta) s).1
        ≡ (if meta.key_path == path then some meta else get_key_metadata path s)
  unfolding get_key_metadata set_key_metadata
  get-set_key_metadata disk meta path s named =
      rw (eq-nil meta.key_path named) (rw contents-save (rw get-put))

  -- Deletion takes away the path's metadata and no other, whether or not the save succeeded.
  get-delete_key_metadata :
      (disk : Disk) (gone path : Text) (s : Store)
      → get_key_metadata path (delete_key_metadata codec disk gone s).1
        ≡ (if gone == path then none else get_key_metadata path s)
  unfolding get_key_metadata delete_key_metadata
  get-delete_key_metadata disk gone path s = rw contents-save (rw get-delete)

  -- An update of a remote that is not stored is refused, and changes nothing.
  update_unknown_remote :
      (disk : Disk) (remote : RemoteServer) (s : Store)
      → remote.id ≢ []
      → get_remote_server remote.id s ≡ none
      → update_remote_server codec disk (some remote) s ≡ (err remote_not_found, s)
  unfolding get_remote_server update_remote_server
  update_unknown_remote disk remote s named absent = rw (eq-nil remote.id named, absent)

  -- An update of a stored remote replaces it and touches no other, whether or not the save succeeded.
  get-update_remote_server :
      (disk : Disk) (remote old : RemoteServer) (id : Text) (s : Store)
      → remote.id ≢ []
      → get_remote_server remote.id s ≡ some old
      → get_remote_server id (update_remote_server codec disk (some remote) s).1
        ≡ (if remote.id == id then some remote else get_remote_server id s)
  unfolding get_remote_server update_remote_server
  get-update_remote_server disk remote old id s named found =
      rw (eq-nil remote.id named, found) (rw contents-save (rw get-put))

  -- A new connection time changes that field of the stored remote, and no other remote.
  get-update_last_connected :
      (disk : Disk) (old : RemoteServer) (target id : Text) (at : ℕ) (s : Store)
      → get_remote_server target s ≡ some old
      → get_remote_server id (update_remote_server_last_connected codec disk target at s).1 ≡ (
          if target == id
          then some (record old { last_connected_at = at })
          else get_remote_server id s)
  unfolding get_remote_server update_remote_server_last_connected
  get-update_last_connected disk old target id at s found = rw found (rw contents-save (rw get-put))
