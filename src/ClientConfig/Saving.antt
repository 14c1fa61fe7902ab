-- ===== src/ClientConfig/Saving.antt =====
-- A change of the configuration never loses the text that the file held.
use skeys.Prelude.{
  ◌≡◌, ◌⊎◌, refl, inl, inr, nat_eq, Option, none, some, List, ◌==◌, Bool-cases, ◌&&◌,
}
use skeys.Text.{Text, text_eq}
use skeys.Files.{Write, complete, broken}
use skeys.ClientConfig.{
  Library, Disk, ClientConfig, Outcome, SshConfigEntry, HostEntry, save, save_file, after_backup,
  save_backed_up, add_entry, add, update_entry, update, delete_entry, delete, reorder, replace,
  update_host, delete_found, reorder_blocks, patched, get_entry, get, list_entries, blocks_of,
  host_entry_to_ssh_config_entry, entry_type_host, is_taken,
}
use skeys.ClientConfig.Globals.{
  set_global_directive, delete_global_directive, delete_lines, has_directive,
}

pub data Change : Type 0 where
  change_add : SshConfigEntry → Change
  change_add_host : HostEntry → Change
  change_update : Text → SshConfigEntry → Change
  change_update_host : Text → HostEntry → Change
  change_delete : Text → Change
  change_delete_host : Text → Change
  change_reorder : List Text → Change
  change_set : Text → Text → Change
  change_unset : Text → Change

module _ (l : Library) where
  unfoldable pub change : Disk → Change → ClientConfig l → Outcome l
  unfolding add_entry add update_entry update delete_entry delete reorder set_global_directive
      delete_global_directive
  change d (change_add e) c = add_entry l d e c
  change d (change_add_host h) c = add l d h c
  change d (change_update id e) c = update_entry l d id e c
  change d (change_update_host alias h) c = update l d alias h c
  change d (change_delete id) c = delete_entry l d id c
  change d (change_delete_host alias) c = delete l d alias c
  change d (change_reorder ids) c = reorder l d ids c
  change d (change_set key value) c = set_global_directive l d key value c
  change d (change_unset key) c = delete_global_directive l d key c

  abbrev pub IsKept : Text → ClientConfig l → Type 0
  IsKept text c = (c.file ≡ some text) ⊎ (c.backup ≡ some text)

  backed-up_IsKept :
      (d : Disk) (text : Text) (c : ClientConfig l)
      → c.backup ≡ some text
      → IsKept text (save_backed_up l d c).1
  backed-up_IsKept d text c h = elim (Bool-cases d.mkdir_succeeds) [
    | inl good ↦ simp good (inr h)
    | inr bad ↦ simp bad (inr h)
  ]

  after-backup_IsKept :
      (d : Disk) (w : Write) (text : Text) (c : ClientConfig l)
      → d.backup_write ≡ w
      → c.file ≡ some text
      → IsKept text (after_backup l d text c).1
  after-backup_IsKept d complete text c e h =
      simp e (backed-up_IsKept d text (record c { backup = some text }) refl)
  after-backup_IsKept d (broken left) text c e h = simp e (inl h)

  file-IsKept :
      (d : Disk) (text : Text) (c : ClientConfig l)
      → c.file ≡ some text
      → IsKept text (save_file l d (some text) c).1
  file-IsKept d text c h = elim (Bool-cases d.readable) [
    | inl good ↦ simp good (after-backup_IsKept d d.backup_write text c refl h)
    | inr bad ↦ simp bad (inl h)
  ]

  save-IsKept :
      (d : Disk) (text : Text) (c : ClientConfig l)
      → c.file ≡ some text
      → IsKept text (save l d c).1
  unfolding save
  save-IsKept d text c h = by_file c.file h
    where
      by_file : (f : Option Text) → f ≡ some text → IsKept text (save_file l d f c).1
      by_file none e = cc e
      by_file (some t) e = let same : t ≡ text = cc e in rw same (file-IsKept d text c h)

  module _ (d : Disk) (text : Text) (c : ClientConfig l) (h : c.file ≡ some text) where
    add-IsKept : (e : SshConfigEntry) → IsKept text (add_entry l d e c).1
    unfolding add_entry
    add-IsKept e =
        elim (Bool-cases
          (e.entry_type == entry_type_host && is_taken e.patterns (list_entries l c))) [
            | inl taken ↦ simp taken (inl h)
            | inr free ↦
                simp free (save-IsKept d text (record c { config = patched l e c.config }) h)
          ]

    replace-IsKept :
        (e : SshConfigEntry) (o : Option SshConfigEntry) → IsKept text (replace l d e c o).1
    replace-IsKept e none = inl h
    replace-IsKept e (some old) = save-IsKept d text _ h

    update-IsKept : (id : Text) (e : SshConfigEntry) → IsKept text (update_entry l d id e c).1
    unfolding update_entry
    update-IsKept id e = replace-IsKept e (get_entry l id c)

    update-host_IsKept :
        (alias : Text) (e : HostEntry) (o : Option HostEntry)
        → IsKept text (update_host l d alias e c o).1
    update-host_IsKept alias e none = inl h
    update-host_IsKept alias e (some existing) = update-IsKept _ _

    delete-IsKept : (o : Option SshConfigEntry) → IsKept text (delete_found l d c o).1
    delete-IsKept none = inl h
    delete-IsKept (some e) = save-IsKept d text _ h

    reorder-IsKept : (blocks : Option Text) → IsKept text (reorder_blocks l d c blocks).1
    reorder-IsKept none = inl h
    reorder-IsKept (some blocks) = save-IsKept d text _ h

    unset-IsKept : (key : Text) → IsKept text (delete_global_directive l d key c).1
    unfolding delete_global_directive
    unset-IsKept key = elim (Bool-cases (has_directive key (l.lines c.config))) [
      | inl there ↦ simp there (
          save-IsKept d text
            (record c { config = l.parse_config (delete_lines key (l.lines c.config)) }) h)
      | inr absent ↦ simp absent (inl h)
    ]

-- Whatever change is made and whatever the disk does, the text that the file held before is still in
-- the file or in its backup.
pub change-IsKept :
    (l : Library) (d : Disk) (text : Text) (c : ClientConfig l)
    → c.file ≡ some text
    → (x : Change) → IsKept l text (change l d x c).1
unfolding change
change-IsKept l d text c h (change_add e) = add-IsKept l d text c h e
change-IsKept l d text c h (change_add_host e) =
    unfold add in add-IsKept l d text c h (host_entry_to_ssh_config_entry e)
change-IsKept l d text c h (change_update id e) = update-IsKept l d text c h id e
change-IsKept l d text c h (change_update_host alias e) =
    unfold update in update-host_IsKept l d text c h alias e (get l alias c)
change-IsKept l d text c h (change_delete id) =
    unfold delete_entry in delete-IsKept l d text c h (get_entry l id c)
change-IsKept l d text c h (change_delete_host alias) = unfold delete in save-IsKept l d text _ h
change-IsKept l d text c h (change_reorder ids) =
    unfold reorder in reorder-IsKept l d text c h (blocks_of ids (list_entries l c))
change-IsKept l d text c h (change_set key value) =
    unfold set_global_directive in save-IsKept l d text _ h
change-IsKept l d text c h (change_unset key) = unset-IsKept l d text c h key
