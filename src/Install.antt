-- ===== src/Install.antt =====
-- skeys-core/update/manager.go: applying an update and rolling it back.
mod Extraction
pub mod Backups
pub mod Restoring
pub mod Targets
mod Tests
pub use skeys.Install.Extraction.{
  EntryKind, directory, regular, other, Entry, Archive, File, Disk, System, Place, in_install,
  in_backup, outside, Extracted, place_from, backup_dir, files_of, write_at, make_dir, make_parent,
  create_file, write_entry, write_target, then_extract, extract_archive,
}
unfoldable pub use skeys.Install.Extraction.{
  strip_first, target_of, below, place_of, put_file, extract_entry, extract_entries,
  extract_tarball,
}
use skeys.Prelude.{
  Bool, not, ◌||◌, Option, none, some, List, [], ◌∷◌, ◌++◌, ◌==◌, Result, ok, err, if◌then◌else◌,
}
use skeys.Text.{Text, text_eq, codes}
use skeys.Text.Paths.{join_path}
use skeys.Map
use skeys.Update.{
  UpdateError, idle, applying, set_state, set_error, backup_failed, mkdir_failed, no_backup,
  remove_failed, restore_failed,
}

module _ (d : Disk) where
  -- `os.Rename` of the backup to the installation, which fails where there is one or no backup
  abbrev pub move_back : Option (List File) → Option (List File) → System → System
  move_back none (some old) s =
      if d.moves_back then record s { install = some old; backup = none } else s
  move_back none none s = s
  move_back (some files) backup s = s

  abbrev pub drop_install : System → System
  drop_install s = if d.removes_install then record s { install = none } else s

  abbrev pub Outcome : Type 0
  Outcome = Result UpdateError (Unit {0}) × System

  abbrev failing : UpdateError → System → Outcome
  failing e s = (err e, record s { manager = set_error e s.manager })

  abbrev roll_back : System → System
  roll_back s = move_back s.install s.backup s

  -- the loop over the two programs
  unfoldable pub make_executable : Text → List File → List File
  make_executable dest [] = []
  make_executable dest (f ∷ fs) =
      let rest = make_executable dest fs in
      if f.path == codes "skeys-app" || f.path == codes "skeys-daemon"
      then record f { executable = f.executable || d.can_chmod (join_path dest f.path) } ∷ rest
      else f ∷ rest

  -- behind the extraction
  abbrev finish_apply : Text → Extracted → Outcome
  finish_apply path (some e, s) = failing e (roll_back (drop_install s))
  finish_apply path (none, s) = (
    ok tt,
    record s {
      install = some (make_executable s.manager.install_dir (files_of s.install));
      manager = set_state idle s.manager;
      elsewhere = Map.delete (path ++ codes ".sha256") (Map.delete path s.elsewhere);
    },
  )

  -- behind the backup
  abbrev install_new : Text → System → Outcome
  install_new path s =
      if not d.makes_install
      then failing mkdir_failed (roll_back s)
      else finish_apply path
          (extract_tarball d path s.manager.install_dir (record s { install = some [] }))

  -- the backup of an installation that is there
  abbrev back_up : Text → Option (List File) → System → Outcome
  back_up path none s = install_new path s
  back_up path (some files) s =
      if d.moves_to_backup
      then install_new path (record s { install = none; backup = some files })
      else failing backup_failed s

  -- the state and the removal of the old backup, whose failure is only logged
  abbrev pub prepared : System → System
  prepared s =
      let s' = record s { manager = set_state applying s.manager } in
      if d.removes_backup then record s' { backup = none } else s'

  pub apply_update : Text → System → Outcome
  unfolding extract_tarball make_executable
  apply_update path s = back_up path s.install (prepared s)

  abbrev restore : Option (List File) → System → Outcome
  restore none s = (err no_backup, s)
  restore (some old) s =
      if not d.removes_install
      then (err remove_failed, s)
      else if d.moves_back
      then (ok tt, record s { install = some old; backup = none })
      else (err restore_failed, record s { install = none })

  pub rollback : System → Outcome
  rollback s = restore s.backup s
