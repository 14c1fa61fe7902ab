-- ===== src/SshConfig/Enabling.antt =====
-- `Enable`, `Disable` and `IsEnabled` one after the other.
use skeys.Prelude.{
  ◌≡◌, ◌∙◌, refl, ap, Bool, true, false, Option, none, some, [], ◌∷◌, Result, ok, err, ◌==◌,
  Bool-cases, Option-cases, inl, inr, arith,
}
use skeys.Text.{Text, text_eq}
use skeys.Text.Strings.{split, join, contains, has_prefix, trim_space, trim_left, trim_right}
use skeys.Text.Splitting.{is_free}
use skeys.Files.{Write, complete, broken}
use skeys.SshConfig.{
  Manager, Disk, ConfigError, begin_marker, build_managed_block, drop_blank, remove_managed_block,
  read_config, is_enabled, enabled_of, prepended, content_or_empty, write_config, write_over,
  write_main, back_up_then, enable, enable_unless, enable_with, disable, disable_with,
  write_changed,
}
use skeys.SshConfig.Blocks.{ArePlain, remove-prepended, remove-block}

-- a disk on which nothing fails
abbrev pub healthy : Disk
healthy = record {
  readable = true;
  mkdir_succeeds = true;
  backup_write = complete;
  config_write = complete;
}

-- what `Disable` leaves of a file to which `Enable` has added the block
abbrev pub restored : Option Text → Text
restored none = []
restored (some text) = join (b'\n' ∷ []) (drop_blank (split b'\n' text))

contains-prepended :
    (m : Manager) (content : Text)
    → contains (prepended (build_managed_block m) content) begin_marker ≡ true
unfolding contains has_prefix build_managed_block
contains-prepended m [] = refl
contains-prepended m (c ∷ s) = refl

module _ (d : Disk) where
  config-main :
      (w : Write) (text : Text) (m : Manager)
      → (write_main w text m).0 ≡ ok tt
      → (write_main w text m).1.config ≡ some text
  config-main complete text m h = refl
  config-main (broken left) text m h = cc h

  config-back_up :
      (w : Write) (old text : Text) (m : Manager)
      → (back_up_then d w old text m).0 ≡ ok tt
      → (back_up_then d w old text m).1.config ≡ some text
  config-back_up complete old text m h =
      config-main d.config_write text (record m { backup = some old }) h
  config-back_up (broken left) old text m h = cc h

  config-write_over :
      (o : Option Text) (text : Text) (m : Manager)
      → (write_over d o text m).0 ≡ ok tt
      → (write_over d o text m).1.config ≡ some text
  config-write_over none text m h = config-main d.config_write text m h
  config-write_over (some old) text m h = elim (Bool-cases d.readable) [
    | inl allowed ↦ simp allowed (config-back_up d.backup_write old text m (simp allowed at h))
    | inr refused ↦ cc (simp refused at h)
  ]

  pub config-write :
      (text : Text) (m : Manager)
      → (write_config d text m).0 ≡ ok tt
      → (write_config d text m).1.config ≡ some text
  unfolding write_config
  config-write text m h = config-write_over m.config text m h

  config-enable_with :
      (r : Result ConfigError (Option Text)) (m : Manager)
      → (enable_with d r m).0 ≡ ok tt
      → enabled_of (enable_with d r m).1.config ≡ true
  config-enable_with (err e) m h = cc h
  config-enable_with (ok content) m h =
      let text = prepended (build_managed_block m) (content_or_empty content) in
      rw (config-write text m h) (contains-prepended m (content_or_empty content))

  -- what `IsEnabled` answers is true of the file
  enabled-of_answer : (b : Bool) (m : Manager) → is_enabled d m ≡ ok b → enabled_of m.config ≡ b
  unfolding is_enabled read_config
  enabled-of_answer b m h = elim (Option-cases m.config) [
    | inl absent ↦ rw absent (ground (arith, (rw absent at h)))
    | inr (text, there) ↦ rw there (ground (arith, (rw there at h)))
  ]

  enabled-enable_unless :
      (r : Result ConfigError Bool) (m : Manager)
      → is_enabled d m ≡ r
      → (enable_unless d r m).0 ≡ ok tt
      → enabled_of (enable_unless d r m).1.config ≡ true
  enabled-enable_unless (err e) m a h = cc h
  enabled-enable_unless (ok true) m a h = enabled-of_answer true m a
  enabled-enable_unless (ok false) m a h = elim (Bool-cases d.mkdir_succeeds) [
    | inl allowed ↦ simp allowed (config-enable_with (read_config d m) m (simp allowed at h))
    | inr refused ↦ cc (simp refused at h)
  ]

  -- After an `Enable` without an error, on whatever disk, the block's first line stands in the file.
  enabled-enable : (m : Manager) → (enable d m).0 ≡ ok tt → enabled_of (enable d m).1.config ≡ true
  unfolding enable
  enabled-enable m h = enabled-enable_unless (is_enabled d m) m refl h

  is_enabled-of_read :
      (m : Manager) → read_config d m ≡ ok m.config → is_enabled d m ≡ ok (enabled_of m.config)
  unfolding is_enabled
  is_enabled-of_read m h = rw h refl

  -- Where the block's first line stands in a file that can be read, `Enable` changes nothing.
  enable_enabled :
      (m : Manager)
      → read_config d m ≡ ok m.config
      → enabled_of m.config ≡ true
      → enable d m ≡ (ok tt, m)
  unfolding enable
  enable_enabled m h e = rw (is_enabled-of_read m h, e) refl

read_healthy : (m : Manager) → read_config healthy m ≡ ok m.config
unfolding read_config
read_healthy m = elim (Option-cases m.config) [
  | inl absent ↦ rw absent refl
  | inr (text, there) ↦ rw there refl
]

write_healthy : (text : Text) (m : Manager) → (write_config healthy text m).0 ≡ ok tt
unfolding write_config
write_healthy text m = elim (Option-cases m.config) [
  | inl absent ↦ rw absent refl
  | inr (old, there) ↦ rw there refl
]

config-enable :
    (m : Manager)
    → enabled_of m.config ≡ false
    → (enable healthy m).1.config
      ≡ some (prepended (build_managed_block m) (content_or_empty m.config))
unfolding enable
config-enable m h =
    rw (is_enabled-of_read healthy m (read_healthy m), h, read_healthy m)
      (config-write healthy _ m (write_healthy _ m))

config-changed :
    (r : Text × Bool) (after : Text) (m : Manager)
    → r ≡ (after, true)
    → (write_changed healthy r m).1.config ≡ some after
config-changed r after m e = rw e (config-write healthy after m (write_healthy after m))

config-disable_with :
    (o : Option Text) (text after : Text) (m : Manager)
    → o ≡ some text
    → remove_managed_block text ≡ (after, true)
    → (disable_with healthy (ok o) m).1.config ≡ some after
config-disable_with none text after m h e = cc h
config-disable_with (some t) text after m h e =
    config-changed (remove_managed_block t) after m (ground (arith, h, e))

config-disable :
    (text after : Text) (m : Manager)
    → m.config ≡ some text
    → remove_managed_block text ≡ (after, true)
    → (disable healthy m).1.config ≡ some after
unfolding disable
config-disable text after m h e =
    rw (read_healthy m) (config-disable_with m.config text after m h e)

restored-of_empty : (o : Option Text) → content_or_empty o ≡ [] → restored o ≡ []
unfolding split drop_blank trim_space trim_left trim_right join
restored-of_empty none h = refl
restored-of_empty (some text) h = rw h refl

restored-of_full :
    (o : Option Text)
    → (content_or_empty o == []) ≡ false
    → join (b'\n' ∷ []) (drop_blank (split b'\n' (content_or_empty o))) ≡ restored o
restored-of_full none h = cc h
restored-of_full (some text) h = refl

removed-prepended :
    (m : Manager)
    → is_free b'\n' m.agent_socket ≡ true
    → ArePlain (split b'\n' (content_or_empty m.config))
    → remove_managed_block (prepended (build_managed_block m) (content_or_empty m.config))
      ≡ (restored m.config, true)
removed-prepended m h plain = elim (Bool-cases (content_or_empty m.config == [])) [
  | inl empty ↦
      rw (empty, restored-of_empty m.config ((text_eq.beq_iff _ []).0 empty)) (remove-block m h)
  | inr full ↦ rw full (
      remove-prepended m (content_or_empty m.config) h plain
      ∙ ap (λ t. (t, true)) (restored-of_full m.config full))
]

pub disable-enable :
    (m : Manager)
    → is_free b'\n' m.agent_socket ≡ true
    → enabled_of m.config ≡ false
    → ArePlain (split b'\n' (content_or_empty m.config))
    → (disable healthy (enable healthy m).1).1.config ≡ some (restored m.config)
disable-enable m h e plain =
    config-disable _ _ (enable healthy m).1 (config-enable m e) (removed-prepended m h plain)
