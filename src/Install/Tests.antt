-- ===== src/Install/Tests.antt =====
-- Runs of the installer on small archives, and the theorems at concrete inputs.
use skeys.Prelude.{◌≡◌, refl, true, none, some, List, [], ◌∷◌, ok, err, ◌==◌, if◌then◌else◌}
use skeys.Text.{text_eq, codes}
use skeys.Text.Strings.{split, join, has_prefix, cut, trim_prefix}
use skeys.Text.Splitting.{is_free}
use skeys.Text.Paths.{clean, clean_from, join_path}
use skeys.Text.Cleaning.{IsName}
use skeys.Update.{tarball_unreadable, new_manager}
use skeys.Install.{
  Disk, File, System, Entry, regular, apply_update, rollback, target_of, extract_tarball,
  extract_entries, extract_entry, strip_first, place_of, below, put_file, make_executable,
}
use skeys.Install.Backups.{SparesBackup}
use skeys.Install.Restoring.{IsRestored, apply-IsRestored, rollback-apply}

abbrev app : Entry
app = record {
  name = codes "v2/app";
  kind = regular;
  content = codes "new";
  is_whole = true;
  executable = true;
}

-- an entry that goes up into the directory of the backup
abbrev intruder : Entry
intruder = record app { name = codes "v2/../opt.backup/app" }

-- the archive at `good` is whole, the one at `cut` ends early, and so does the one at `evil`
abbrev disk : Disk
disk = record {
  open_archive = λ path. some (record {
    entries = if path == codes "evil" then intruder ∷ [] else app ∷ [];
    ends_well = path == codes "good";
  });
  removes_backup = true;
  moves_to_backup = true;
  makes_install = true;
  removes_install = true;
  moves_back = true;
  can_mkdir = λ p. true;
  can_make_parent = λ p. true;
  can_create = λ p. true;
  can_chmod = λ p. true;
}

abbrev old_files : List File
old_files = record { path = codes "app"; content = codes "old"; executable = true } ∷ []

abbrev installed : System
installed = record {
  manager = record {
    current_version = codes "1";
    install_dir = codes "/opt";
    cache_dir = codes "/c";
    status = (new_manager [] [] []).status;
  };
  install = some old_files;
  backup = none;
  elsewhere = [];
}

cut_archive_fails : (apply_update disk (codes "cut") installed).0 ≡ err tarball_unreadable
unfolding apply_update extract_tarball extract_entries extract_entry strip_first cut target_of
    place_of below put_file trim_prefix make_executable join_path clean clean_from split join
    has_prefix
cut_archive_fails = refl

app_spares : SparesBackup (codes "/opt") app
unfolding strip_first cut join_path clean clean_from split join has_prefix
app_spares = refl

apply-IsRestored_example :
    IsRestored disk old_files tarball_unreadable (apply_update disk (codes "cut") installed).1
apply-IsRestored_example =
    apply-IsRestored disk old_files refl refl (codes "cut") tarball_unreadable installed
      (app_spares, tt) refl cut_archive_fails

good_archive_succeeds : (apply_update disk (codes "good") installed).0 ≡ ok tt
unfolding apply_update extract_tarball extract_entries extract_entry strip_first cut target_of
    place_of below put_file trim_prefix make_executable join_path clean clean_from split join
    has_prefix
good_archive_succeeds = refl

rollback-apply_example :
    ((rollback disk (apply_update disk (codes "good") installed).1).0 ≡ ok tt)
    × ((rollback disk (apply_update disk (codes "good") installed).1).1.install ≡ some old_files)
rollback-apply_example =
    rollback-apply disk old_files (codes "good") installed (app_spares, tt) refl refl refl
      good_archive_succeeds

-- An entry that is written to the backup comes back with it where the update fails.
intruder_comes_back :
    (apply_update disk (codes "evil") installed).1.install
    ≡ some (record { path = codes "app"; content = codes "new"; executable = true } ∷ [])
unfolding apply_update extract_tarball extract_entries extract_entry strip_first cut target_of
    place_of below put_file trim_prefix make_executable join_path clean clean_from split join
    has_prefix
intruder_comes_back = refl

opt : IsName (codes "opt")
unfolding is_free
opt = record { free = refl; full = refl; not_here = refl; not_up = refl }

evil : IsName (codes "opt-evil")
unfolding is_free
evil = record { free = refl; full = refl; not_here = refl; not_up = refl }
