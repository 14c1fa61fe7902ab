-- ===== src/Install/Extraction.antt =====
-- skeys-core/update/manager.go: the extraction of an archive. A directory is the list of its files; `none`
-- is one that does not exist. What an entry writes may land in the installation, in the backup beside it, or
-- elsewhere.
use skeys.Prelude.{
  Bool, not, ◌&&◌, ◌||◌, Option, none, some, List, [], ◌∷◌, ◌++◌, ◌==◌, if◌then◌else◌,
}
use skeys.Text.{Text, text_eq, codes}
use skeys.Text.Strings.{cut, has_prefix, trim_prefix}
use skeys.Text.Paths.{clean, join_path}
use skeys.Map
use skeys.Map.{Map}
use skeys.Update.{
  UpdateError, Manager, mkdir_failed, tarball_unreadable, invalid_tar_path, create_failed,
  read_failed,
}

pub data EntryKind : Type 0 where
  directory regular other : EntryKind

-- a header of the archive, with the content behind it, whether that can be read to its end, and the
-- executable bit
pub record Entry : Type 0 where
  pub name : Text
  pub kind : EntryKind
  pub content : Text
  pub is_whole : Bool
  pub executable : Bool

-- the headers that `tar.Reader.Next` gives, and whether they end without an error
pub record Archive : Type 0 where
  pub entries : List Entry
  pub ends_well : Bool

pub record File : Type 0 where
  -- below the directory that the file stands in
  pub path : Text
  pub content : Text
  pub executable : Bool

pub record Disk : Type 0 where
  -- the archive at a path, if it opens and is compressed as expected
  pub open_archive : Text → Option Archive
  -- `os.RemoveAll` of the old backup, `os.Rename` to the backup, `os.MkdirAll` of the new directory
  pub removes_backup : Bool
  pub moves_to_backup : Bool
  pub makes_install : Bool
  -- `os.RemoveAll` of the installation and `os.Rename` back
  pub removes_install : Bool
  pub moves_back : Bool
  -- making a directory, a parent directory and a file during the extraction; one that fails leaves
  -- nothing behind
  pub can_mkdir : Text → Bool
  pub can_make_parent : Text → Bool
  pub can_create : Text → Bool
  -- the errors of `os.Chmod` are ignored or only logged
  pub can_chmod : Text → Bool

pub record System : Type 0 where
  pub manager : Manager
  -- the directories `installDir` and `installDir` + ".backup"
  pub install : Option (List File)
  pub backup : Option (List File)
  -- the files outside of both, the downloads among them, by their whole paths
  pub elsewhere : Map Text Text

-- the name without its first directory
abbrev stripped : Option (Text × Text) → Text → Text
stripped none name = name
stripped (some parts) name = parts.1

unfoldable pub strip_first : Text → Text
strip_first name = stripped (cut b'/' name) name

-- the path that an entry is written to, if the test against path traversal lets it pass
unfoldable pub target_of : Text → Text → Option Text
target_of dest name =
    let target = join_path dest name in
    if has_prefix (clean target) (clean dest) then some target else none

-- where a path stands: in a directory, under the rest of the path, or outside of both
pub data Place : Type 0 where
  in_install in_backup outside : Text → Place

-- the rest of a path that is a directory or lies below it
unfoldable pub below : Text → Text → Option Text
below dir path =
    if path == dir
    then some []
    else if has_prefix path (dir ++ b'/' ∷ [])
    then some (trim_prefix path (dir ++ b'/' ∷ []))
    else none

abbrev pub place_from : Option Text → Option Text → Text → Place
place_from (some rest) backup path = in_install rest
place_from none (some rest) path = in_backup rest
place_from none none path = outside path

-- `installDir + ".backup"`, as the system reads it
abbrev pub backup_dir : Text → Text
backup_dir dest = clean (dest ++ codes ".backup")

unfoldable pub place_of : Text → Text → Place
unfolding below
place_of dest target =
    place_from (below (clean dest) target) (below (backup_dir dest) target) target

abbrev pub files_of : Option (List File) → List File
files_of none = []
files_of (some files) = files

-- A file that is there is truncated and keeps its mode.
unfoldable pub put_file : File → List File → List File
put_file f [] = f ∷ []
put_file f (g ∷ gs) =
    let rest = put_file f gs in
    if g.path == f.path
    then record f { executable = f.executable || g.executable } ∷ gs
    else g ∷ rest

abbrev pub write_at : Place → Text → Bool → System → System
write_at (in_install rest) content executable s = record s {
  install = some (
      put_file (record { path = rest; content = content; executable = executable })
        (files_of s.install));
}
write_at (in_backup rest) content executable s = record s {
  backup = some (
      put_file (record { path = rest; content = content; executable = executable })
        (files_of s.backup));
}
write_at (outside path) content executable s = record s {
  elsewhere = Map.put path content s.elsewhere;
}

-- Of the directories that are made, the backup itself matters.
abbrev pub make_dir : Place → System → System
make_dir (in_install rest) s = s
make_dir (in_backup rest) s = record s { backup = some (files_of s.backup) }
make_dir (outside path) s = s

abbrev pub make_parent : Place → System → System
make_parent (in_install rest) s = s
make_parent (in_backup []) s = s
make_parent (in_backup (c ∷ rest)) s = record s { backup = some (files_of s.backup) }
make_parent (outside path) s = s

abbrev pub Extracted : Type 0
Extracted = Option UpdateError × System

module _ (d : Disk) where
  abbrev pub create_file : Text → Place → Entry → System → Extracted
  create_file target place e s = (
    (if e.is_whole then none else some read_failed),
    write_at place e.content (e.is_whole && e.executable && d.can_chmod target) s,
  )

  abbrev pub write_entry : Text → Place → Entry → EntryKind → System → Extracted
  write_entry target place e directory s =
      if d.can_mkdir target then (none, make_dir place s) else (some mkdir_failed, s)
  write_entry target place e regular s =
      if not (d.can_make_parent target)
      then (some mkdir_failed, s)
      else if not (d.can_create target)
      then (some create_failed, make_parent place s)
      else create_file target place e (make_parent place s)
  write_entry target place e other s = (none, s)

  abbrev pub write_target : Text → Option Text → Entry → System → Extracted
  write_target dest none e s = (some invalid_tar_path, s)
  write_target dest (some target) e s = write_entry target (place_of dest target) e e.kind s

  -- one turn of the loop of `extractTarball`
  unfoldable pub extract_entry : Text → Entry → System → Extracted
  unfolding strip_first target_of place_of put_file
  extract_entry dest e s =
      if strip_first e.name == []
      then (none, s)
      else write_target dest (target_of dest (strip_first e.name)) e s

  abbrev pub then_extract : Extracted → (System → Extracted) → Extracted
  then_extract (some e, s) rest = (some e, s)
  then_extract (none, s) rest = rest s

  unfoldable pub extract_entries : Text → List Entry → Bool → System → Extracted
  unfolding extract_entry
  extract_entries dest [] ends_well s = (if ends_well then none else some tarball_unreadable, s)
  extract_entries dest (e ∷ es) ends_well s =
      then_extract (extract_entry dest e s) (λ s. extract_entries dest es ends_well s)

  abbrev pub extract_archive : Option Archive → Text → System → Extracted
  extract_archive none dest s = (some tarball_unreadable, s)
  extract_archive (some a) dest s = extract_entries dest a.entries a.ends_well s

  unfoldable pub extract_tarball : Text → Text → System → Extracted
  unfolding extract_entries
  extract_tarball path dest s = extract_archive (d.open_archive path) dest s
