-- ===== src/SshConfig/Disabling.antt =====
-- What a call of `Disable` leaves, on whatever disk.
use skeys.Prelude.{
  ◌≡◌, refl, Bool, true, false, Option, none, some, List, [], ◌∷◌, Result, ok, err, ◌==◌, All,
  Bool-cases, Option-cases, inl, inr, arith,
}
use mathlib.Core.Path.{subst}
use skeys.Text.{Text, text_eq}
use skeys.Text.Strings.{split, trim_space}
use skeys.SshConfig.{
  Manager, Disk, ConfigError, begin_marker, end_marker, filter_lines, remove_managed_block,
  read_config, disable, disable_with, write_changed,
}
use skeys.SshConfig.Blocks.{ArePlain, remove-ArePlain}
use skeys.SshConfig.Enabling.{config-write}

-- no line of the file is the first line of a block
abbrev pub BeginsNone : Option Text → Type 0
BeginsNone none = Unit
BeginsNone (some text) = All (λ line. (trim_space line == begin_marker) ≡ false) (split b'\n' text)

begins_none-of_plain :
    (lines : List Text)
    → ArePlain lines
    → All (λ line. (trim_space line == begin_marker) ≡ false) lines
begins_none-of_plain [] h = tt
begins_none-of_plain (l ∷ ls) h = (h.0.0, begins_none-of_plain ls h.1)

begins_none-of_unchanged :
    (b : Bool) (lines : List Text)
    → (filter_lines b lines).1 ≡ false
    → All (λ line. (trim_space line == begin_marker) ≡ false) lines
unfolding filter_lines
begins_none-of_unchanged b [] h = tt
begins_none-of_unchanged true (l ∷ ls) h = elim (Bool-cases (trim_space l == begin_marker)) [
  | inl begins ↦ cc (rw begins at h)
  | inr other ↦ elim (Bool-cases (trim_space l == end_marker)) [
    | inl ends ↦ (other, begins_none-of_unchanged false ls (rw (other, ends) at h))
    | inr plain ↦ (other, begins_none-of_unchanged true ls (rw (other, plain) at h))
  ]
]
begins_none-of_unchanged false (l ∷ ls) h =
    (ground arith, begins_none-of_unchanged false ls (ground arith))

unchanged-BeginsNone :
    (content : Text) → (remove_managed_block content).1 ≡ false → BeginsNone (some content)
unfolding remove_managed_block
unchanged-BeginsNone content h = begins_none-of_unchanged false (split b'\n' content) h

module _ (d : Disk) where
  changed-BeginsNone :
      (content : Text) (r : Text × Bool) (m : Manager)
      → remove_managed_block content ≡ r
      → m.config ≡ some content
      → (write_changed d r m).0 ≡ ok tt
      → BeginsNone (write_changed d r m).1.config
  changed-BeginsNone content (text, true) m e there h =
      rw (config-write d text m h) (
        begins_none-of_plain _
          (subst (λ r. ArePlain (split b'\n' r.0)) e (remove-ArePlain content)))
  changed-BeginsNone content (text, false) m e there h =
      rw there (unchanged-BeginsNone content (ground (arith, e)))

  disabled-BeginsNone :
      (o : Option Text) (m : Manager)
      → m.config ≡ o
      → (disable_with d (ok o) m).0 ≡ ok tt
      → BeginsNone (disable_with d (ok o) m).1.config
  disabled-BeginsNone none m e h = rw e tt
  disabled-BeginsNone (some content) m e h =
      changed-BeginsNone content (remove_managed_block content) m refl e h

  read_is : (m : Manager) (o : Option Text) → read_config d m ≡ ok o → m.config ≡ o
  unfolding read_config
  read_is m o a = elim (Option-cases m.config) [
    | inl absent ↦ ground (arith, absent, (rw absent at a))
    | inr (text, there) ↦ ground (arith, there, (rw there at a))
  ]

  answer-BeginsNone :
      (r : Result ConfigError (Option Text)) (m : Manager)
      → read_config d m ≡ r
      → (disable_with d r m).0 ≡ ok tt
      → BeginsNone (disable_with d r m).1.config
  answer-BeginsNone (err e) m a h = cc h
  answer-BeginsNone (ok o) m a h = disabled-BeginsNone o m (read_is m o a) h

  -- After a `Disable` without an error, on whatever disk, no line of the file opens a managed block,
  -- however many there were and whether or not they were closed.
  disable-BeginsNone : (m : Manager) → (disable d m).0 ≡ ok tt → BeginsNone (disable d m).1.config
  unfolding disable
  disable-BeginsNone m h = answer-BeginsNone (read_config d m) m refl h
