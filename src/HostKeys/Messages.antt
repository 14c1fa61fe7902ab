-- ===== src/HostKeys/Messages.antt =====
-- skeys-core/remote/connection.go: what TestConnection answers. A message is a constructor, with what the error
-- or the server says in it.
use skeys.Prelude.{
  ℕ, Bool, true, false, ◌||◌, Option, none, some, [], ◌∷◌, ◌==◌, nat_eq, take, if◌then◌else◌,
}
use skeys.Text.{Text, text_eq, codes}
use skeys.Text.Strings.{contains, has_prefix, trim_space, index}
use skeys.HostKeys.{HostKeyStatus, HostKeyInfo}

pub data Message : Type 0 where
  verifier_failed check_failed host_changed host_unknown key_not_added : Message
  key_unparsable key_file_unread passphrase_needed no_auth_methods callback_failed : Message
  said : Text → Message

pub record TestResult : Type 0 where
  pub success : Bool
  pub message : Message
  pub server_version : Text
  pub latency_ms : ℕ
  pub host_key_status : HostKeyStatus
  pub host_key_info : Option HostKeyInfo

-- `ssh.Dial` fails with an error, or the client has the version of the server, and the output of an empty
-- command if a session can be opened.
pub data Dialled : Type 0 where
  refused : Text → Dialled
  connected : Text → Option Text → Dialled

unfoldable pub friendly_error : Text → Text
unfolding contains
friendly_error msg =
    if contains msg (codes "unable to authenticate")
      || contains msg (codes "no supported methods remain")
    then codes "authentication failed - key may not be registered with the server"
    else if contains msg (codes "connection refused")
    then codes "connection refused - server may be down or port may be blocked"
    else if contains msg (codes "i/o timeout") || contains msg (codes "deadline exceeded")
    then codes "connection timed out - server may be unreachable"
    else msg

abbrev pub up_to : Option ℕ → Text → Text
up_to none output = output
up_to (some i) output = if i == 0 then output else take i output

unfoldable pub greeting_of : Text → Text
unfolding contains has_prefix index
greeting_of output =
    if has_prefix output (codes "Hi ")
      || (contains output (codes "Welcome") || contains output (codes "successfully authenticated"))
    then up_to (index output (codes "\n")) output
    else codes "Authentication successful"

abbrev pub success_message : Option Text → Text
success_message none = codes "Authentication successful"
success_message (some []) = codes "Authentication successful"
success_message (some (c ∷ s)) = greeting_of (trim_space (c ∷ s))

abbrev pub failed : Message → ℕ → HostKeyStatus → Option HostKeyInfo → TestResult
failed m latency status info = record {
  success = false;
  message = m;
  server_version = [];
  latency_ms = latency;
  host_key_status = status;
  host_key_info = info;
}

abbrev pub dialled : ℕ → HostKeyStatus → Option HostKeyInfo → Dialled → TestResult
dialled latency status info (refused msg) = failed (said (friendly_error msg)) latency status info
dialled latency status info (connected version greeting) = record {
  success = true;
  message = said (success_message greeting);
  server_version = version;
  latency_ms = latency;
  host_key_status = status;
  host_key_info = info;
}
