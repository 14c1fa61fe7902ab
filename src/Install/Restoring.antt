-- ===== src/Install/Restoring.antt =====
-- The old installation comes back, by itself where an update cannot be applied, and by `Rollback`, if the
-- archive leaves the backup alone.
use skeys.Prelude.{
  ◌≡◌, ◌∙◌, refl, sym, subst, true, Option, none, some, List, [], ok, err, Bool-cases, inl, inr,
  arith, All,
}
use skeys.Text.{Text}
use skeys.Update.{UpdateError, failed}
use skeys.Install.Backups.{SparesBackup, entries_of, backup-extract_tarball}
use skeys.Install.{
  Disk, File, System, Extracted, finish_apply, install_new, back_up, apply_update, rollback,
  prepared, restore, extract_tarball,
}

install-prepared : (d : Disk) (s : System) → (prepared d s).install ≡ s.install
install-prepared d s = ground arith

install_dir-prepared :
    (d : Disk) (s : System) → (prepared d s).manager.install_dir ≡ s.manager.install_dir
install_dir-prepared d s = ground arith

-- No entry of the archive is written to a path that starts with the path of the backup.
abbrev pub ArchiveSparesBackup : Disk → Text → Text → Type 0
ArchiveSparesBackup d path dest = All (SparesBackup dest) (entries_of (d.open_archive path))

-- the state that the extraction leaves
abbrev unpacked : Disk → Text → System → Extracted
unpacked d path s = extract_tarball d path s.manager.install_dir (record s { install = some [] })

module _ (d : Disk) (old : List File) where
  -- the state of an update that has failed, with the old installation in place
  abbrev pub IsRestored : UpdateError → System → Type 0
  IsRestored e s =
      (s.install ≡ some old) × (s.manager.status.state ≡ failed) × (s.manager.status.error ≡ some e)

  module _ (removes : d.removes_install ≡ true) (moves : d.moves_back ≡ true) where
    finish-IsRestored :
        (path : Text) (x : Extracted) (e : UpdateError)
        → x.1.backup ≡ some old
        → (finish_apply d path x).0 ≡ err e
        → IsRestored e (finish_apply d path x).1
    finish-IsRestored path (some x, s) e b h =
        simp (removes, b, moves) (refl, refl, ground (arith, h))
    finish-IsRestored path (none, s) e b h = cc h

    new-IsRestored :
        (path : Text) (e : UpdateError) (s : System)
        → ArchiveSparesBackup d path s.manager.install_dir
        → s.install ≡ none
        → s.backup ≡ some old
        → (install_new d path s).0 ≡ err e
        → IsRestored e (install_new d path s).1
    new-IsRestored path e s spares i b h = elim (Bool-cases d.makes_install) [
      | inr fails ↦ simp (fails, i, b, moves) (refl, refl, ground (arith, (simp fails at h)))
      | inl goes ↦ simp goes (
          finish-IsRestored path (unpacked d path s) e
            (backup-extract_tarball d path s.manager.install_dir _ spares ∙ b) (simp goes at h))
    ]

    backed_up-IsRestored :
        (path : Text) (o : Option (List File)) (e : UpdateError) (s : System)
        → ArchiveSparesBackup d path s.manager.install_dir
        → s.install ≡ o
        → o ≡ some old
        → (back_up d path o s).0 ≡ err e
        → IsRestored e (back_up d path o s).1
    backed_up-IsRestored path none e s spares i o h = cc o
    backed_up-IsRestored path (some files) e s spares i o h = elim (Bool-cases d.moves_to_backup) [
      | inr fails ↦ simp fails (i ∙ o, refl, ground (arith, (simp fails at h)))
      | inl goes ↦ simp goes (
          new-IsRestored path e (record s { install = none; backup = some files }) spares refl o
            (simp goes at h))
    ]

    -- Where an installation can be removed and moved back, and no entry of the archive is written to a
    -- path that starts with the path of the backup, an update that cannot be applied leaves the old
    -- installation in place, and a failed state with the error that is answered.
    pub apply-IsRestored :
        (path : Text) (e : UpdateError) (s : System)
        → ArchiveSparesBackup d path s.manager.install_dir
        → s.install ≡ some old
        → (apply_update d path s).0 ≡ err e
        → IsRestored e (apply_update d path s).1
    unfolding apply_update
    apply-IsRestored path e s spares i h =
        backed_up-IsRestored path s.install e (prepared d s)
          (subst (ArchiveSparesBackup d path) (sym (install_dir-prepared d s)) spares)
          (install-prepared d s) i h

  finish-keeps_backup :
      (path : Text) (x : Extracted)
      → (finish_apply d path x).0 ≡ ok tt
      → (finish_apply d path x).1.backup ≡ x.1.backup
  finish-keeps_backup path (some x, s) h = cc h
  finish-keeps_backup path (none, s) h = refl

  new-keeps_backup :
      (path : Text) (s : System)
      → ArchiveSparesBackup d path s.manager.install_dir
      → (install_new d path s).0 ≡ ok tt
      → (install_new d path s).1.backup ≡ s.backup
  new-keeps_backup path s spares h = elim (Bool-cases d.makes_install) [
    | inr fails ↦ cc (simp fails at h)
    | inl goes ↦ simp goes (
        finish-keeps_backup path (unpacked d path s) (simp goes at h)
        ∙ backup-extract_tarball d path s.manager.install_dir _ spares)
  ]

  applied-backup :
      (path : Text) (o : Option (List File)) (s : System)
      → ArchiveSparesBackup d path s.manager.install_dir
      → o ≡ some old
      → (back_up d path o s).0 ≡ ok tt
      → (back_up d path o s).1.backup ≡ some old
  applied-backup path none s spares o h = cc o
  applied-backup path (some files) s spares o h = elim (Bool-cases d.moves_to_backup) [
    | inr fails ↦ cc (simp fails at h)
    | inl goes ↦ simp goes (
        new-keeps_backup path (record s { install = none; backup = some files }) spares
          (simp goes at h)
        ∙ o)
  ]

  restored :
      (o : Option (List File)) (s : System)
      → d.removes_install ≡ true
      → d.moves_back ≡ true
      → o ≡ some old
      → ((restore d o s).0 ≡ ok tt) × ((restore d o s).1.install ≡ some old)
  restored none s removes moves o = cc o
  restored (some files) s removes moves o = simp (removes, moves) (refl, o)

  -- Where an installation can be removed and moved back, and no entry of the archive is written to a path
  -- that starts with the path of the backup, a rollback after an update that was applied succeeds and
  -- puts the old installation back.
  pub rollback-apply :
      (path : Text) (s : System)
      → ArchiveSparesBackup d path s.manager.install_dir
      → d.removes_install ≡ true
      → d.moves_back ≡ true
      → s.install ≡ some old
      → (apply_update d path s).0 ≡ ok tt
      → ((rollback d (apply_update d path s).1).0 ≡ ok tt)
        × ((rollback d (apply_update d path s).1).1.install ≡ some old)
  unfolding rollback apply_update
  rollback-apply path s spares removes moves i h =
      let applied = (apply_update d path s).1 in
      restored applied.backup applied removes moves (
        applied-backup path s.install (prepared d s)
          (subst (ArchiveSparesBackup d path) (sym (install_dir-prepared d s)) spares) i h)
