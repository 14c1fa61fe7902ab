-- ===== src/Storage/Invariant.antt =====
-- The invariant of the store: every entry stands under its own key, once.
use skeys.Prelude.{
  ◌≡◌, refl, inl, inr, Bool, true, false, none, some, [], Option-cases, ◌==◌, arith, if◌then◌else◌,
}
use skeys.Text.{Text, text_eq}
use skeys.Map
use skeys.Map.{Map}
use skeys.Map.Laws.{Distinct, get-put, get-delete, put-Distinct, delete-Distinct}
use skeys.Storage.{
  RemoteServer, StoreData, Codec, Disk, Store, Outcome, save, set_key_metadata, delete_key_metadata,
  add_remote_server, update_remote_server, delete_remote_server,
  update_remote_server_last_connected,
}
use skeys.Storage.Queries.{contents-save}
use skeys.Storage.Saving.{
  Change, set_metadata, delete_metadata, add_remote, update_remote, delete_remote, connected, apply,
}

-- Each entry of a map stands under the key that `key` reads from it, and no key stands twice.
pub record IsKeyed {V : Type 0} (key : V → Text) (m : Map Text V) : Type 0 where
  pub distinct : Distinct m
  pub own_key : (k : Text) (v : V) → Map.get k m ≡ some v → key v ≡ k

module _ {V : Type 0} (key : V → Text) where
  put-IsKeyed :
      (k : Text) (v : V) (m : Map Text V) → key v ≡ k → IsKeyed key m → IsKeyed key (Map.put k v m)
  put-IsKeyed k v m own h = record {
    distinct = put-Distinct k v m h.distinct;
    own_key = λ j w found. ground (arith, get-put k j v m, h.own_key j w, text_eq.beq_iff k j);
  }

  delete-IsKeyed : (k : Text) (m : Map Text V) → IsKeyed key m → IsKeyed key (Map.delete k m)
  delete-IsKeyed k m h = record {
    distinct = delete-Distinct k m h.distinct;
    own_key = λ j w found. ground (arith, get-delete k j m, h.own_key j w);
  }

pub record IsValid (d : StoreData) : Type 0 where
  pub metadata : IsKeyed (λ m. m.key_path) d.key_metadata
  pub remotes : IsKeyed (λ r. r.id) d.remote_servers

module _ (codec : Codec) where
  abbrev Keeps : Outcome → Type 0
  Keeps r = IsValid r.1.contents

  save-IsValid : (disk : Disk) (s : Store) → IsValid s.contents → Keeps (save codec disk s)
  save-IsValid disk s h = rw contents-save h

  if-Keeps : (b : Bool) (x y : Outcome) → Keeps x → Keeps y → Keeps (if b then x else y)
  if-Keeps true x y hx hy = hx
  if-Keeps false x y hx hy = hy

  put_remote-IsValid :
      (disk : Disk) (r : RemoteServer) (k : Text) (s : Store)
      → r.id ≡ k
      → IsValid s.contents
      → Keeps (
          save codec disk (record s {
            contents = record s.contents { remote_servers = Map.put k r s.contents.remote_servers };
          }))
  put_remote-IsValid disk r k s own h = save-IsValid disk _ (record {
    metadata = h.metadata;
    remotes = put-IsKeyed (λ x. x.id) k r s.contents.remote_servers own h.remotes;
  })

  -- Every operation, refused, failing or not, keeps each entry under its own key, once.
  pub apply-IsValid :
      (disk : Disk) (ch : Change) (s : Store)
      → IsValid s.contents
      → IsValid (apply codec disk ch s).1.contents
  unfolding apply set_key_metadata delete_key_metadata add_remote_server update_remote_server
      delete_remote_server update_remote_server_last_connected
  apply-IsValid disk (set_metadata none) s h = h
  apply-IsValid disk (set_metadata (some m)) s h = if-Keeps (m.key_path == []) _ _ h (
      save-IsValid disk _ (record {
        metadata = put-IsKeyed (λ x. x.key_path) _ m s.contents.key_metadata refl h.metadata;
        remotes = h.remotes;
      }))
  apply-IsValid disk (delete_metadata path) s h = save-IsValid disk _ (record {
    metadata = delete-IsKeyed (λ x. x.key_path) path s.contents.key_metadata h.metadata;
    remotes = h.remotes;
  })
  apply-IsValid disk (add_remote none) s h = h
  apply-IsValid disk (add_remote (some r)) s h =
      if-Keeps (r.id == []) _ _ h (put_remote-IsValid disk r r.id s refl h)
  apply-IsValid disk (update_remote none) s h = h
  apply-IsValid disk (update_remote (some r)) s h =
      if-Keeps (r.id == []) _ _ h (elim (Option-cases (Map.get r.id s.contents.remote_servers)) [
        | inl absent ↦ rw absent h
        | inr (old, found) ↦ rw found (put_remote-IsValid disk r r.id s refl h)
      ])
  apply-IsValid disk (delete_remote id) s h = save-IsValid disk _ (record {
    metadata = h.metadata;
    remotes = delete-IsKeyed (λ x. x.id) id s.contents.remote_servers h.remotes;
  })
  apply-IsValid disk (connected id at) s h =
      elim (Option-cases (Map.get id s.contents.remote_servers)) [
        | inl absent ↦ rw absent h
        | inr (old, found) ↦ rw found (
            put_remote-IsValid disk (record old { last_connected_at = at }) id s
              (h.remotes.own_key id old found) h)
      ]
