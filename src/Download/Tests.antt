-- ===== src/Download/Tests.antt =====
-- Downloads from a network of two files, and the theorems at concrete inputs.
use skeys.Prelude.{◌≡◌, refl, true, false, none, some, [], ◌∷◌, ◌==◌, if◌then◌else◌}
use skeys.Text.{Text, text_eq, codes}
use skeys.Text.Numbers.{pos}
use skeys.Update.{ReleaseInfo, Response, Network, Manager, new_manager}
use skeys.Download.{Disk, copy_chunks, download_file, download_update}
use skeys.Download.Verified.{IsSettled, download-IsSettled}

abbrev answer : Text → Response
answer text = record {
  status_code = 200;
  content_length = pos 3;
  chunks = text ∷ [] ∷ codes "!" ∷ [];
  ends_well = true;
}

abbrev network : Network
network = record {
  get = λ url.
      if url == codes "u"
      then some (answer (codes "ab"))
      else if url == codes "u.sha256"
      then some (answer (codes "AB"))
      else none;
  now = 7;
  decode_release = λ r. none;
  decode_releases = λ r. none;
}

-- a digest that is the text itself
abbrev disk : Disk
disk = record {
  mkdir_succeeds = true;
  can_create = λ p. true;
  can_write = λ p n. true;
  can_read = λ p. true;
  sha256_hex = λ t. t;
  speed = λ n. n;
}

fetch_succeeds : (download_file disk network (codes "u") (codes "p") (pos 0) []).0 ≡ none
unfolding download_file copy_chunks
fetch_succeeds = refl

abbrev release : ReleaseInfo
release = record {
  tag_name = codes "v2";
  name = [];
  body = [];
  html_url = [];
  prerelease = false;
  published_at = 0;
  assets =
      record {
        name = codes "skeys-v2-linux-x64.tar.gz";
        size = pos 3;
        browser_download_url = codes "u";
      }
      ∷ [];
}

abbrev manager : Manager
manager = new_manager (codes "1") (codes "/opt") (codes "/c")

download-IsSettled_example :
    IsSettled disk network release (download_update disk network release manager [])
download-IsSettled_example = download-IsSettled disk network release manager []
