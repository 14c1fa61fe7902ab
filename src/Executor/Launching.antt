-- ===== src/Executor/Launching.antt =====
-- What a privileged executor can start.
use skeys.Prelude.{
  ◌≡◌, refl, Bool, true, false, Option, none, some, List, [], ◌∷◌, ◌++◌, ◌==◌, ◌&&◌, All,
  Bool-cases, inl, inr, if◌then◌else◌,
}
use skeys.Text.{Text, text_eq, codes}
use skeys.Text.Strings.{has_prefix, join}
use skeys.Text.Splitting.{is_free}
use skeys.Text.Paths.{clean, join_path}
use skeys.Text.Cleaning.{IsName, AreNames, join-up}
use skeys.Executor.{
  PrivilegeMethod, pkexec, sudo, Launch, System, is_listed, escalate, run, has_allowed_prefix,
  read_file, write_file, execute, Call, call_run, call_read, call_write, call_execute, perform,
  new_privilege_executor,
}

-- the command line behind the program that gives the privileges
abbrev pub behind : Bool → Bool → List Text → List Text
behind true s args = args
behind false true (flag ∷ args) = if flag == codes "-n" then args else []
behind false true [] = []
behind false false args = []

abbrev pub the_commands : List Text
the_commands = codes "sshd" ∷ codes "systemctl" ∷ codes "cat" ∷ codes "tee" ∷ []

-- Without input it is one of four commands. Input goes to `tee` and a path under /etc/ssh/ only.
abbrev pub is_permitted_command : Option Text → List Text → Bool
is_permitted_command none [] = false
is_permitted_command none (name ∷ args) = is_listed name the_commands
is_permitted_command (some text) (name ∷ path ∷ []) =
    name == codes "tee" && has_prefix path (codes "/etc/ssh/")
is_permitted_command (some text) [] = false
is_permitted_command (some text) (name ∷ []) = false
is_permitted_command (some text) (name ∷ path ∷ more ∷ args) = false

unfoldable pub is_permitted : Launch → Bool
unfolding is_listed
is_permitted l =
    is_permitted_command l.stdin (behind (l.name == codes "pkexec") (l.name == codes "sudo") l.args)

abbrev pub ArePermitted : List Launch → Type 0
ArePermitted = All (λ l. is_permitted l ≡ true)

escalate-IsPermitted :
    (m : PrivilegeMethod) (name : Text) (args : List Text) (input : Option Text)
    → is_permitted_command input (name ∷ args) ≡ true
    → is_permitted (escalate m name args input) ≡ true
unfolding escalate is_permitted
escalate-IsPermitted pkexec name args input h = h
escalate-IsPermitted sudo name args input h = h

module _ (os : System) (m : PrivilegeMethod) where
  run-IsPermitted :
      (name : Text) (args : List Text)
      → ArePermitted (run os (new_privilege_executor m) name args).1
  unfolding run new_privilege_executor
  run-IsPermitted name args = elim (Bool-cases (is_listed name the_commands)) [
    | inl listed ↦ rw listed (escalate-IsPermitted m name args none listed, tt)
    | inr other ↦ rw other tt
  ]

  read-IsPermitted : (path : Text) → ArePermitted (read_file os (new_privilege_executor m) path).1
  unfolding read_file
  read-IsPermitted path = elim (Bool-cases (has_allowed_prefix path (codes "/etc/ssh/" ∷ []))) [
    | inl allowed ↦
        unfold new_privilege_executor in rw allowed (run-IsPermitted (codes "cat") (path ∷ []))
    | inr other ↦ unfold new_privilege_executor in rw other tt
  ]

  write-IsPermitted :
      (path text : Text) → ArePermitted (write_file os (new_privilege_executor m) path text).1
  unfolding write_file new_privilege_executor has_allowed_prefix
  write-IsPermitted path text = elim (Bool-cases (has_prefix path (codes "/etc/ssh/"))) [
    | inl allowed ↦
        rw allowed (escalate-IsPermitted m (codes "tee") (path ∷ []) (some text) allowed, tt)
    | inr other ↦ rw other tt
  ]

  -- Whatever is asked of a privileged executor as the program makes it, with either method and
  -- whatever the system answers, each process that it starts is pkexec or sudo -n with one of the
  -- four allowed commands behind it, and only a tee to a single path that begins with /etc/ssh/ is
  -- given any input.
  pub perform-ArePermitted : (c : Call) → ArePermitted (perform os (new_privilege_executor m) c).1
  unfolding perform execute
  perform-ArePermitted (call_run name args) = run-IsPermitted name args
  perform-ArePermitted (call_read path) = read-IsPermitted path
  perform-ArePermitted (call_write path text) = write-IsPermitted path text
  perform-ArePermitted (call_execute name args) = run-IsPermitted name args

ssh_names : AreNames (codes "etc" ∷ codes "ssh" ∷ [])
ssh_names = (
  record { free = unfold is_free in refl; full = refl; not_here = refl; not_up = refl },
  (record { free = unfold is_free in refl; full = refl; not_here = refl; not_up = refl }, tt),
)

-- The test of a path compares texts: a path that goes up from /etc/ssh/ to a plain name passes it, is
-- handed to the privileged tee as it is, and means the file of that name in /etc.
parent_is_writable :
    (os : System) (m : PrivilegeMethod) (name text : Text)
    → IsName name
    → ((write_file os (new_privilege_executor m) (codes "/etc/ssh/../" ++ name) text).1
        ≡ escalate m (codes "tee") ((codes "/etc/ssh/../" ++ name) ∷ []) (some text) ∷ [])
      × (clean (codes "/etc/ssh/../" ++ name) ≡ codes "/etc/" ++ name)
unfolding write_file new_privilege_executor has_allowed_prefix has_prefix join
parent_is_writable os m name text h = (
  refl,
  unfold join_path in join-up (codes "etc" ∷ []) (codes "ssh") name ssh_names ssh_names.1.0 h,
)
