-- ===== src/Files.antt =====
-- The file system as the managers of text files see it: what one write of a file does to it.
use skeys.Prelude.{Option, some, Bool, true, false}
use skeys.Text.{Text}

-- `os.WriteFile` writes everything, or fails and leaves what it has written, or no file.
pub data Write : Type 0 where
  complete : Write
  broken : Option Text → Write

abbrev pub succeeds : Write → Bool
succeeds complete = true
succeeds (broken left) = false

abbrev pub written : Write → Text → Option Text
written complete text = some text
written (broken left) text = left
