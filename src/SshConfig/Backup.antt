-- ===== src/SshConfig/Backup.antt =====
-- The user's file is never lost: whatever a write does, the old text stands in the file or its backup.
use skeys.Prelude.{
  ◌≡◌, ◌⊎◌, inl, inr, refl, Bool, true, false, Option, none, some, Result, ok, err, Bool-cases,
}
use skeys.Text.{Text}
use skeys.Files.{Write, complete, broken}
use skeys.SshConfig.{
  Manager, Disk, ConfigError, enable, enable_unless, enable_with, disable, disable_with,
  write_changed, write_config, write_over, back_up_then, write_main,
}

-- the old text stands in the file or its backup, or there was no file
abbrev pub IsKept : Option Text → Manager → Type 0
IsKept old m = (m.config ≡ old) ⊎ (m.backup ≡ old) ⊎ (old ≡ none)

main-IsKept :
    (w : Write) (text : Text) (old : Option Text) (m : Manager)
    → (m.backup ≡ old) ⊎ (old ≡ none)
    → IsKept old (write_main w text m).1
main-IsKept complete text old m h = inr h
main-IsKept (broken left) text old m h = inr h

back_up-IsKept :
    (d : Disk) (w : Write) (old text : Text) (m : Manager)
    → m.config ≡ some old
    → IsKept (some old) (back_up_then d w old text m).1
back_up-IsKept d complete old text m h =
    main-IsKept d.config_write text (some old) (record m { backup = some old }) (inl refl)
back_up-IsKept d (broken left) old text m h = inl h

write_over-IsKept :
    (d : Disk) (o : Option Text) (text : Text) (m : Manager)
    → m.config ≡ o
    → IsKept o (write_over d o text m).1
write_over-IsKept d none text m h = main-IsKept d.config_write text none m (inr refl)
write_over-IsKept d (some old) text m h = elim (Bool-cases d.readable) [
  | inl allowed ↦ rw allowed (back_up-IsKept d d.backup_write old text m h)
  | inr refused ↦ rw refused (inl h)
]

write-IsKept : (d : Disk) (text : Text) (m : Manager) → IsKept m.config (write_config d text m).1
unfolding write_config
write-IsKept d text m = write_over-IsKept d m.config text m refl

enable_with-IsKept :
    (d : Disk) (r : Result ConfigError (Option Text)) (m : Manager)
    → IsKept m.config (enable_with d r m).1
enable_with-IsKept d (ok content) m = write-IsKept d _ m
enable_with-IsKept d (err e) m = inl refl

enable_unless-IsKept :
    (d : Disk) (r : Result ConfigError Bool) (m : Manager) → IsKept m.config (enable_unless d r m).1
enable_unless-IsKept d (err e) m = inl refl
enable_unless-IsKept d (ok true) m = inl refl
enable_unless-IsKept d (ok false) m = elim (Bool-cases d.mkdir_succeeds) [
  | inl allowed ↦ simp allowed (enable_with-IsKept d _ m)
  | inr refused ↦ rw refused (inl refl)
]

disable_with-IsKept :
    (d : Disk) (r : Result ConfigError (Option Text)) (m : Manager)
    → IsKept m.config (disable_with d r m).1
disable_with-IsKept d (err e) m = inl refl
disable_with-IsKept d (ok none) m = inl refl
disable_with-IsKept d (ok (some content)) m = changed-IsKept d _ m
  where
    changed-IsKept :
        (d : Disk) (r : Text × Bool) (m : Manager) → IsKept m.config (write_changed d r m).1
    changed-IsKept d (text, true) m = write-IsKept d text m
    changed-IsKept d (text, false) m = inl refl

-- Whatever fails, after `Enable` and after `Disable` the old text of the file stands in the file or in
-- its backup, unless there was no file.
pub old_text-IsKept :
    (d : Disk) (m : Manager) → IsKept m.config (enable d m).1 × IsKept m.config (disable d m).1
unfolding enable disable
old_text-IsKept d m = (enable_unless-IsKept d _ m, disable_with-IsKept d _ m)
