-- ===== src/ClientConfig/Children.antt =====
-- The lines of a block as the options that they hold.
use skeys.Prelude.{Bool, not, List, [], ◌∷◌, ◌++◌, ◌==◌, nat_eq, if◌then◌else◌}
use skeys.Text.{Text, text_eq, codes}
use skeys.Map.{Map}
use skeys.ClientConfig.Entries.{shows_port, is_positive, print_int}
use skeys.ClientConfig.{SshOptions, Child}

abbrev pub child_if : Bool → Text → Text → List Child
child_if b k v = if b then record { key = k; value = v } ∷ [] else []

abbrev pub identity_children : List Text → List Child
identity_children [] = []
identity_children (f ∷ fs) = record { key = codes "IdentityFile"; value = f } ∷ identity_children fs

abbrev pub extra_children : Map Text Text → List Child
extra_children [] = []
extra_children ((k, v) ∷ m) = record { key = k; value = v } ∷ extra_children m

abbrev pub option_children : SshOptions → List Child
option_children o =
    child_if (not (o.hostname == [])) (codes "HostName") o.hostname
    ++ (child_if (not (o.user == [])) (codes "User") o.user
        ++ (child_if (shows_port o.port) (codes "Port") (print_int o.port)
            ++ (identity_children o.identity_files
                ++ (child_if (not (o.proxy_jump == [])) (codes "ProxyJump") o.proxy_jump
                    ++ (child_if (not (o.proxy_command == [])) (codes "ProxyCommand")
                          o.proxy_command
                        ++ (child_if o.forward_agent (codes "ForwardAgent") (codes "yes")
                            ++ (child_if o.identities_only (codes "IdentitiesOnly") (codes "yes")
                                ++ (child_if (not (o.strict_host_key_checking == []))
                                      (codes "StrictHostKeyChecking") o.strict_host_key_checking
                                    ++ (child_if (is_positive o.server_alive_interval)
                                          (codes "ServerAliveInterval")
                                          (print_int o.server_alive_interval)
                                        ++ (child_if (is_positive o.server_alive_count_max)
                                              (codes "ServerAliveCountMax")
                                              (print_int o.server_alive_count_max)
                                            ++ (child_if o.compression (codes "Compression")
                                                  (codes "yes")
                                                ++ extra_children o.extra_options)))))))))))
