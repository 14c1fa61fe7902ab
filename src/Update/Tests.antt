-- ===== src/Update/Tests.antt =====
-- A check against a network with one release.
use skeys.Prelude.{true, false, none, some, [], ◌∷◌}
use skeys.Text.{codes}
use skeys.Text.Numbers.{pos}
use skeys.Update.{ReleaseInfo, Network, Manager, new_manager, check_for_updates}
use skeys.Update.Checking.{IsSettled, check-IsSettled}

abbrev release : ReleaseInfo
release = record {
  tag_name = codes "v1.2.0";
  name = [];
  body = [];
  html_url = [];
  prerelease = false;
  published_at = 0;
  assets = [];
}

abbrev network : Network
network = record {
  get = λ url. some (record {
    status_code = 200;
    content_length = pos 2;
    chunks = codes "{}" ∷ [];
    ends_well = true;
  });
  now = 7;
  decode_release = λ r. some release;
  decode_releases = λ r. none;
}

abbrev manager : Manager
manager = new_manager (codes "1.1.9") (codes "/opt") (codes "/c")

check-IsSettled_example :
    IsSettled false manager.current_version
      (check_for_updates network false false manager).0
      (check_for_updates network false false manager).1
check-IsSettled_example = check-IsSettled network false false manager
