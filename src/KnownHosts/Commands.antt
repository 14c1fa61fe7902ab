-- ===== src/KnownHosts/Commands.antt =====
-- The list of allowed commands in front of the executor.
use skeys.Prelude.{
  ◌≡◌, refl, ap, Bool, false, Option, none, some, List, [], ◌∷◌, ◌==◌, ok, if◌then◌else◌, ℕ,
}
use skeys.Text.{Text, text_eq, codes}
use skeys.Text.Strings.{trim_space, fields, split}
use skeys.KnownHosts.{
  Executor, Disk, default_executor, lookup, remove, hash, scan_host_keys, scanned_keys,
  calculate_fingerprint, line_to_add, add, is_skipped, push_some, scanned_key, keys_of_output,
}

-- A command that is not `ssh-keygen` or `ssh-keyscan` fails and does nothing.
refuses_others :
    (e : Executor) (name : Text) (args : List Text) (file : Option Text)
    → (name == codes "ssh-keygen") ≡ false
    → (name == codes "ssh-keyscan") ≡ false
    → (default_executor e).run name args file ≡ (none, file)
unfolding default_executor
refuses_others e name args file a b = rw (a, b) refl

module _ (e : Executor) (path : Text) where
  scanned-guarded :
      (d : Disk) (port : ℕ) (lines : List Text)
      → scanned_keys (default_executor e) path d port lines ≡ scanned_keys e path d port lines
  unfolding scanned_keys calculate_fingerprint default_executor
  scanned-guarded d port [] = refl
  scanned-guarded d port (raw ∷ lines) =
      ap
        (λ rest.
          if is_skipped (trim_space raw)
          then rest
          else push_some (scanned_key e path d port (trim_space raw) (fields (trim_space raw)))
              rest)
        (scanned-guarded d port lines)

  output-guarded :
      (d : Disk) (port : ℕ) (o : Option Text)
      → keys_of_output (default_executor e) path d port o ≡ keys_of_output e path d port o
  output-guarded d port none = refl
  output-guarded d port (some output) = ap ok (scanned-guarded d port (split b'\n' output))

  -- No operation of the manager needs any other command: over the allowed ones it does the same as over
  -- all of them.
  guard_is_transparent :
      (d : Disk) (host : Text) (port secs : ℕ) (key_type public_key : Text) (hashing : Bool)
      (file : Option Text)
      → (lookup (default_executor e) path host file ≡ lookup e path host file)
        × (remove (default_executor e) path host file ≡ remove e path host file)
        × (hash (default_executor e) path file ≡ hash e path file)
        × (scan_host_keys (default_executor e) path d host port secs
            ≡ scan_host_keys e path d host port secs)
        × (add (default_executor e) path d host port key_type public_key hashing file
            ≡ add e path d host port key_type public_key hashing file)
  unfolding lookup remove hash scan_host_keys add line_to_add default_executor
  guard_is_transparent d host port secs key_type public_key hashing file =
      (refl, refl, refl, output-guarded d _ _, refl)
