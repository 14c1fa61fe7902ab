-- ===== src/Discovery/Consistent.antt =====
-- skeys-core/config/discovery.go: what is told of a path is what the machine says of it.
use skeys.Prelude.{
  ◌≡◌, refl, sym, ap, ◌∙◌, Bool, true, false, ◌&&◌, Option, none, some, List, [], ◌∷◌,
  if◌then◌else◌,
}
use skeys.Text.{Text, codes}
use skeys.Host.{Host, missing, is_present, is_some}
use skeys.Discovery.Packages.{
  get_client_config_from_command, get_server_config_from_command,
  get_client_config_from_package_manager, get_server_config_from_package_manager,
}
use skeys.Discovery.Paths.{
  ConfigPathInfo, DiscoveryMethod, no_info, check_path, first_common, at_or, user_config,
  client_by_package, client_by_path, other_client_paths, server_by_package, server_by_path,
  other_server_paths, server_include, discover_client_user_config, discover_client_system_config,
  discover_server_config, discover, command, found_at, package_manager, common_path,
}

pub record Tells (h : Host) (path : Text) (exists readable writable : Bool) : Type 0 where
  there : exists ≡ is_present (h.stat path)
  opens : readable ≡ exists && is_some (h.open_file path)
  takes : writable ≡ exists && h.appends path

-- The path is there exactly when it is told to be, and can be opened exactly when it is told to be.
abbrev pub IsTruthful : Host → ConfigPathInfo → Type 0
IsTruthful h info = Tells h info.path info.exists info.readable info.writable

exists_if :
    (b : Bool) (x y : ConfigPathInfo)
    → x.exists ≡ true
    → y.exists ≡ false
    → (if b then x else y).exists ≡ b
exists_if true x y e f = e
exists_if false x y e f = f

module _ (h : Host) where
  of_branches :
      (b : Bool) (x y : ConfigPathInfo)
      → (b ≡ true → IsTruthful h x)
      → (b ≡ false → IsTruthful h y)
      → IsTruthful h (if b then x else y)
  of_branches true x y f g = f refl
  of_branches false x y f g = g refl

  check_path-IsTruthful : (path : Text) → IsTruthful h (check_path h path)
  unfolding check_path
  check_path-IsTruthful path =
      of_branches (is_present (h.stat path)) _ _
        (λ e. record { there = sym e; opens = refl; takes = refl })
        (λ e. record { there = sym e; opens = refl; takes = refl })

  first_common-IsTruthful :
      (ps : List Text) (fallback : ConfigPathInfo)
      → IsTruthful h fallback
      → IsTruthful h (first_common h ps fallback)
  unfolding first_common
  first_common-IsTruthful [] fallback t = t
  first_common-IsTruthful (p ∷ ps) fallback t =
      of_branches (check_path h p).exists _ _ (λ e. check_path-IsTruthful p)
        (λ e. first_common-IsTruthful ps fallback t)

  exists-check_path : (path : Text) → (check_path h path).exists ≡ is_present (h.stat path)
  unfolding check_path
  exists-check_path path = exists_if (is_present (h.stat path)) _ _ refl refl

  -- The first path stands for the others, where none of them is there.
  common-IsTruthful :
      (p dir : Text) (ps : List Text)
      → IsTruthful h (
          first_common h
            (p ∷ ps)
            (record no_info { path = p; discovery_method = common_path; include_dir = dir }))
  unfolding first_common
  common-IsTruthful p dir ps =
      of_branches (check_path h p).exists _ _ (λ e. check_path-IsTruthful p)
        (λ e.
          first_common-IsTruthful ps _
            (record { there = sym (sym (exists-check_path p) ∙ e); opens = refl; takes = refl }))

  at_or-IsTruthful :
      (path : Text) (m : DiscoveryMethod) (later : ConfigPathInfo)
      → IsTruthful h later
      → IsTruthful h (at_or h path m later)
  at_or-IsTruthful [] m later t = t
  at_or-IsTruthful (c ∷ s) m later t = check_path-IsTruthful (c ∷ s)

  user_config-IsTruthful :
      (home : Option Text) → h.stat [] ≡ missing → IsTruthful h (user_config h home)
  user_config-IsTruthful none e = record {
    there = sym (ap is_present e);
    opens = refl;
    takes = refl;
  }
  user_config-IsTruthful (some d) e = check_path-IsTruthful _

  client-IsTruthful : IsTruthful h (discover_client_system_config h)
  unfolding discover_client_system_config
  client-IsTruthful =
      at_or-IsTruthful (get_client_config_from_command h) command (client_by_package h) (
        at_or-IsTruthful (get_client_config_from_package_manager h) package_manager
          (client_by_path h)
          (common-IsTruthful (codes "/etc/ssh/ssh_config") [] (other_client_paths h)))

  server-IsTruthful : IsTruthful h (discover_server_config h)
  unfolding discover_server_config
  server-IsTruthful =
      at_or-IsTruthful (get_server_config_from_command h) command (server_by_package h) (
        at_or-IsTruthful (get_server_config_from_package_manager h) package_manager
          (server_by_path h)
          (common-IsTruthful (codes "/etc/ssh/sshd_config") (server_include h)
            (other_server_paths h)))

-- Of the three files that Discover tells of, on a machine whose os.Stat finds nothing at the empty path,
-- each is told to exist exactly when os.Stat finds its path, and to be readable, or writable, exactly
-- when it exists and can be opened for reading, or for appending: whichever of the command, the package
-- managers and the usual places named it, and also where the first usual place stands for all of them.
pub discover-IsTruthful :
    (h : Host)
    → h.stat [] ≡ missing
    → IsTruthful h (discover h).client_user_config
      × (IsTruthful h (discover h).client_system_config × IsTruthful h (discover h).server_config)
unfolding discover discover_client_user_config
discover-IsTruthful h e =
    (user_config-IsTruthful h h.home e, (client-IsTruthful h, server-IsTruthful h))

path_if : (a b : Bool) (s : Text) → b ≡ true → (if a then s else if b then s else []) ≡ s
path_if true b s e = refl
path_if false b s e = rw e refl

-- Where exec.LookPath finds sshd, the configuration of the server that Discover tells of is the file
-- /etc/ssh/sshd_config, found by the command: the package managers and the other usual paths, such as
-- /usr/local/etc/ssh/sshd_config, have no say.
installed_server_is_standard :
    (h : Host)
    → is_some (h.look_path (codes "sshd")) ≡ true
    → (discover h).server_config ≡ found_at h (codes "/etc/ssh/sshd_config") command
unfolding discover discover_server_config get_server_config_from_command
installed_server_is_standard h e =
    ap (λ p. at_or h p command (server_by_package h)) (path_if _ _ (codes "/etc/ssh/sshd_config") e)
