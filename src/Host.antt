-- ===== src/Host.antt =====
-- The machine as the parts that look at it see it: the answers of os.Stat, os.Open, exec.LookPath and of
-- the commands that are run, which are the same for the length of one call.
use skeys.Prelude.{Bool, true, false, Option, none, some, List}
use skeys.Text.{Text}

-- `os.Stat` answers, or fails because nothing is there, or for another reason.
pub data Stat : Type 0 where
  present missing denied : Stat

pub record Answer : Type 0 where
  pub succeeds : Bool
  pub stdout : Text
  pub stderr : Text
  -- what the error says where the command fails
  pub failure : Text

pub record Host : Type 0 where
  pub stat : Text → Stat
  -- opening for reading, with the text, and for appending
  pub open_file : Text → Option Text
  pub appends : Text → Bool
  pub home : Option Text
  pub look_path : Text → Option Text
  pub run : Text → List Text → Answer
  -- the order in which a map of two texts is visited
  pub visit : List (Text × Text) → List (Text × Text)

abbrev pub is_present : Stat → Bool
is_present present = true
is_present missing = false
is_present denied = false

abbrev pub is_some : Option Text → Bool
is_some none = false
is_some (some t) = true

abbrev pub is_command_available : Host → Text → Bool
is_command_available h c = is_some (h.look_path c)
