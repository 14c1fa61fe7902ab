-- ===== src/Install/Backups.antt =====
-- What an extraction does to the backup: nothing, where no entry is written to a path that starts with the
-- path of the backup.
use skeys.Prelude.{
  ◌≡◌, ◌∙◌, refl, Bool, true, false, not, Option, none, some, List, [], ◌∷◌, ◌++◌, ◌==◌, All, arith,
  if◌then◌else◌,
}
use skeys.Text.{Text, text_eq}
use skeys.Text.Strings.{has_prefix}
use skeys.Text.Paths.{clean, join_path}
use skeys.Update.{UpdateError, mkdir_failed, create_failed}
use skeys.Install.{
  EntryKind, directory, regular, other, Entry, Archive, Disk, System, Place, in_install, in_backup,
  outside, Extracted, place_from, backup_dir, write_at, make_dir, make_parent, create_file,
  write_entry, write_target, then_extract, extract_archive, strip_first, target_of, below, place_of,
  extract_entry, extract_entries, extract_tarball,
}

-- The path that an entry is written to does not start with the path of the backup.
abbrev pub SparesBackup : Text → Entry → Type 0
SparesBackup dest e = has_prefix (join_path dest (strip_first e.name)) (backup_dir dest) ≡ false

abbrev pub entries_of : Option Archive → List Entry
entries_of none = []
entries_of (some a) = a.entries

has_prefix_self : (s : Text) → has_prefix s s ≡ true
unfolding has_prefix
has_prefix_self [] = refl
has_prefix_self (c ∷ s) = ground (arith, has_prefix_self s)

has_prefix_longer : (s p q : Text) → has_prefix s p ≡ false → has_prefix s (p ++ q) ≡ false
unfolding has_prefix
has_prefix_longer s [] q h = cc h
has_prefix_longer [] (d ∷ p) q h = refl
has_prefix_longer (c ∷ s) (d ∷ p) q h = ground (arith, has_prefix_longer s p q)

not_below : (dir path : Text) → has_prefix path dir ≡ false → below dir path ≡ none
unfolding below
not_below dir path h =
    ground (
      arith,
      text_eq.beq_iff path dir,
      has_prefix_self dir,
      has_prefix_longer path dir (b'/' ∷ []) h,
    )

-- a place that is not in the backup
abbrev IsElsewhere : Place → Type 0
IsElsewhere (in_install rest) = Unit
IsElsewhere (in_backup rest) = ⊥
IsElsewhere (outside path) = Unit

from-IsElsewhere :
    (here there : Option Text) (path : Text)
    → there ≡ none
    → IsElsewhere (place_from here there path)
from-IsElsewhere (some rest) there path h = tt
from-IsElsewhere none none path h = tt
from-IsElsewhere none (some rest) path h = cc h

place_of-IsElsewhere :
    (dest target : Text)
    → has_prefix target (backup_dir dest) ≡ false
    → IsElsewhere (place_of dest target)
unfolding place_of
place_of-IsElsewhere dest target h =
    from-IsElsewhere (below (clean dest) target) (below (backup_dir dest) target) target
      (not_below (backup_dir dest) target h)

backup-write_at :
    (p : Place) (content : Text) (executable : Bool) (s : System)
    → IsElsewhere p
    → (write_at p content executable s).backup ≡ s.backup
backup-write_at (in_install rest) content executable s h = refl
backup-write_at (in_backup rest) content executable s h = elim h [ ]
backup-write_at (outside path) content executable s h = refl

backup-make_dir : (p : Place) (s : System) → IsElsewhere p → (make_dir p s).backup ≡ s.backup
backup-make_dir (in_install rest) s h = refl
backup-make_dir (in_backup rest) s h = elim h [ ]
backup-make_dir (outside path) s h = refl

backup-make_parent : (p : Place) (s : System) → IsElsewhere p → (make_parent p s).backup ≡ s.backup
backup-make_parent (in_install rest) s h = refl
backup-make_parent (in_backup rest) s h = elim h [ ]
backup-make_parent (outside path) s h = refl

-- the backup of what an extraction leaves
record Keeps (s : System) (x : Extracted) : Type 0 where
  pub backup : x.1.backup ≡ s.backup

Keeps-if :
    (s : System) (b : Bool) (x y : Extracted) → Keeps s x → Keeps s y → Keeps s (if b then x else y)
Keeps-if s true x y hx hy = hx
Keeps-if s false x y hx hy = hy

Keeps-same : (s : System) (r : Option UpdateError) → Keeps s (r, s)
Keeps-same s r = record { backup = refl }

module _ (d : Disk) where
  create-Keeps :
      (target : Text) (p : Place) (e : Entry) (s : System)
      → IsElsewhere p
      → Keeps s (create_file d target p e (make_parent p s))
  create-Keeps target p e s h = record {
    backup = backup-write_at p e.content _ (make_parent p s) h ∙ backup-make_parent p s h;
  }

  write-Keeps :
      (target : Text) (p : Place) (e : Entry) (kind : EntryKind) (s : System)
      → IsElsewhere p
      → Keeps s (write_entry d target p e kind s)
  write-Keeps target p e directory s h =
      Keeps-if s (d.can_mkdir target) (none, make_dir p s) (some mkdir_failed, s)
        (record { backup = backup-make_dir p s h }) (Keeps-same s (some mkdir_failed))
  write-Keeps target p e regular s h =
      let made = make_parent p s in
      let created = create_file d target p e made in
      Keeps-if s (not (d.can_make_parent target)) (some mkdir_failed, s)
        (if not (d.can_create target) then (some create_failed, made) else created)
        (Keeps-same s (some mkdir_failed))
        (Keeps-if s (not (d.can_create target)) (some create_failed, made) created
          (record { backup = backup-make_parent p s h }) (create-Keeps target p e s h))
  write-Keeps target p e other s h = Keeps-same s none

  target-Keeps :
      (b : Bool) (dest name : Text) (e : Entry) (s : System)
      → has_prefix (join_path dest name) (backup_dir dest) ≡ false
      → Keeps s (write_target d dest (if b then some (join_path dest name) else none) e s)
  target-Keeps true dest name e s h =
      write-Keeps (join_path dest name) _ e e.kind s (place_of-IsElsewhere dest _ h)
  target-Keeps false dest name e s h = Keeps-same s _

  entry-Keeps :
      (dest : Text) (e : Entry) (s : System)
      → SparesBackup dest e
      → Keeps s (extract_entry d dest e s)
  unfolding extract_entry target_of
  entry-Keeps dest e s h =
      Keeps-if s (strip_first e.name == []) (none, s)
        (write_target d dest (target_of dest (strip_first e.name)) e s) (Keeps-same s none)
        (target-Keeps (has_prefix (clean (join_path dest (strip_first e.name))) (clean dest)) dest
          (strip_first e.name) e s h)

  then-Keeps :
      (s : System) (x : Extracted) (rest : System → Extracted)
      → Keeps s x
      → ((t : System) → Keeps t (rest t))
      → Keeps s (then_extract d x rest)
  then-Keeps s (some e, t) rest h k = h
  then-Keeps s (none, t) rest h k = record { backup = (k t).backup ∙ h.backup }

  entries-Keeps :
      (dest : Text) (es : List Entry) (ends_well : Bool) (s : System)
      → All (SparesBackup dest) es
      → Keeps s (extract_entries d dest es ends_well s)
  unfolding extract_entries
  entries-Keeps dest [] ends_well s h = Keeps-same s _
  entries-Keeps dest (e ∷ es) ends_well s (h, hs) =
      then-Keeps s (extract_entry d dest e s) _ (entry-Keeps dest e s h)
        (λ t. entries-Keeps dest es ends_well t hs)

  archive-Keeps :
      (a : Option Archive) (dest : Text) (s : System)
      → All (SparesBackup dest) (entries_of a)
      → Keeps s (extract_archive d a dest s)
  archive-Keeps none dest s h = Keeps-same s _
  archive-Keeps (some a) dest s h = entries-Keeps dest a.entries a.ends_well s h

  pub backup-extract_tarball :
      (path dest : Text) (s : System)
      → All (SparesBackup dest) (entries_of (d.open_archive path))
      → (extract_tarball d path dest s).1.backup ≡ s.backup
  unfolding extract_tarball
  backup-extract_tarball path dest s h = (archive-Keeps (d.open_archive path) dest s h).backup
