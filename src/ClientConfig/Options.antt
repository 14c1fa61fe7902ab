-- ===== src/ClientConfig/Options.antt =====
-- The options that are printed for an entry are read back.
use skeys.Prelude.{
  ℕ, zero, suc, ◌<◌, ◌^◌, ◌≡◌, ◌∙◌, refl, sym, ap, subst, Bool, true, false, not, List, [], ◌∷◌,
  ◌++◌, ◌==◌, nat_eq, nat_beq_iff, append_assoc, append-nil, Bool-cases, inl, inr,
}
use skeys.Text.{Text, text_eq, codes}
use skeys.Text.Decimal.{itoa}
use skeys.Text.Numbers.{ℤ, pos, int_of-itoa}
use skeys.Map.Laws.{Distinct}
use skeys.ClientConfig.Entries.{shows_port, is_positive, print_int}
use skeys.ClientConfig.{SshOptions, Child, no_options, extract_options, extract_from, parse_int}
use skeys.ClientConfig.Children.{child_if, identity_children, option_children}
use skeys.ClientConfig.Extras.{AreExtra, extras_read}

extract-append :
    (xs ys : List Child) (o : SshOptions)
    → extract_from o (xs ++ ys) ≡ extract_from (extract_from o xs) ys
unfolding extract_from
extract-append [] ys o = refl
extract-append (x ∷ xs) ys o = extract-append xs ys _

parse-print : (n : ℕ) → n < 2 ^ 63 → parse_int (itoa n) ≡ pos n
unfolding parse_int
parse-print n h = rw (int_of-itoa n h) refl

module _ (a : SshOptions) where
  set-hostname :
      (v : Text)
      → a.hostname ≡ []
      → extract_from a (child_if (not (v == [])) (codes "HostName") v) ≡ record a { hostname = v }
  unfolding extract_from
  set-hostname [] h = ap (λ (x : Text). record a { hostname = x }) h
  set-hostname (c ∷ v) h = refl

  set-user :
      (v : Text)
      → a.user ≡ []
      → extract_from a (child_if (not (v == [])) (codes "User") v) ≡ record a { user = v }
  unfolding extract_from
  set-user [] h = ap (λ (x : Text). record a { user = x }) h
  set-user (c ∷ v) h = refl

  set-port :
      (n : ℕ)
      → a.port ≡ pos 0
      → (n == 22) ≡ false
      → n < 2 ^ 63
      → extract_from a (child_if (shows_port (pos n)) (codes "Port") (print_int (pos n)))
        ≡ record a { port = pos n }
  unfolding extract_from
  set-port n h k b = elim (Bool-cases (n == 0)) [
    | inl is_zero ↦
        rw (is_zero, (nat_beq_iff n 0).0 is_zero) (ap (λ (x : ℤ). record a { port = x }) h)
    | inr full ↦ rw (full, k) (ap (λ (x : ℤ). record a { port = x }) (parse-print n b))
  ]

  set-proxy_jump :
      (v : Text)
      → a.proxy_jump ≡ []
      → extract_from a (child_if (not (v == [])) (codes "ProxyJump") v)
        ≡ record a { proxy_jump = v }
  unfolding extract_from
  set-proxy_jump [] h = ap (λ (x : Text). record a { proxy_jump = x }) h
  set-proxy_jump (c ∷ v) h = refl

  set-proxy_command :
      (v : Text)
      → a.proxy_command ≡ []
      → extract_from a (child_if (not (v == [])) (codes "ProxyCommand") v)
        ≡ record a { proxy_command = v }
  unfolding extract_from
  set-proxy_command [] h = ap (λ (x : Text). record a { proxy_command = x }) h
  set-proxy_command (c ∷ v) h = refl

  set-strict :
      (v : Text)
      → a.strict_host_key_checking ≡ []
      → extract_from a (child_if (not (v == [])) (codes "StrictHostKeyChecking") v)
        ≡ record a { strict_host_key_checking = v }
  unfolding extract_from
  set-strict [] h = ap (λ (x : Text). record a { strict_host_key_checking = x }) h
  set-strict (c ∷ v) h = refl

  set-forward :
      (b : Bool)
      → a.forward_agent ≡ false
      → extract_from a (child_if b (codes "ForwardAgent") (codes "yes"))
        ≡ record a { forward_agent = b }
  unfolding extract_from
  set-forward false h = ap (λ (x : Bool). record a { forward_agent = x }) h
  set-forward true h = refl

  set-only :
      (b : Bool)
      → a.identities_only ≡ false
      → extract_from a (child_if b (codes "IdentitiesOnly") (codes "yes"))
        ≡ record a { identities_only = b }
  unfolding extract_from
  set-only false h = ap (λ (x : Bool). record a { identities_only = x }) h
  set-only true h = refl

  set-compression :
      (b : Bool)
      → a.compression ≡ false
      → extract_from a (child_if b (codes "Compression") (codes "yes"))
        ≡ record a { compression = b }
  unfolding extract_from
  set-compression false h = ap (λ (x : Bool). record a { compression = x }) h
  set-compression true h = refl

  set-interval :
      (n : ℕ)
      → a.server_alive_interval ≡ pos 0
      → n < 2 ^ 63
      → extract_from a
          (child_if (is_positive (pos n)) (codes "ServerAliveInterval") (print_int (pos n)))
        ≡ record a { server_alive_interval = pos n }
  unfolding extract_from
  set-interval zero h b = ap (λ (x : ℤ). record a { server_alive_interval = x }) h
  set-interval (suc n) h b =
      ap (λ (x : ℤ). record a { server_alive_interval = x }) (parse-print (suc n) b)

  set-count :
      (n : ℕ)
      → a.server_alive_count_max ≡ pos 0
      → n < 2 ^ 63
      → extract_from a
          (child_if (is_positive (pos n)) (codes "ServerAliveCountMax") (print_int (pos n)))
        ≡ record a { server_alive_count_max = pos n }
  unfolding extract_from
  set-count zero h b = ap (λ (x : ℤ). record a { server_alive_count_max = x }) h
  set-count (suc n) h b =
      ap (λ (x : ℤ). record a { server_alive_count_max = x }) (parse-print (suc n) b)

set-identities :
    (fs : List Text) (a : SshOptions)
    → extract_from a (identity_children fs) ≡ record a { identity_files = a.identity_files ++ fs }
unfolding extract_from
set-identities [] a =
    ap (λ (x : List Text). record a { identity_files = x }) (sym (append-nil a.identity_files))
set-identities (f ∷ fs) a =
    set-identities fs (record a { identity_files = a.identity_files ++ f ∷ [] })
    ∙ ap (λ (x : List Text). record a { identity_files = x })
        (append_assoc a.identity_files (f ∷ []) fs)

followed :
    (a b c : SshOptions) (xs ys : List Child)
    → extract_from a xs ≡ b
    → extract_from b ys ≡ c
    → extract_from a (xs ++ ys) ≡ c
followed a b c xs ys p q = extract-append xs ys a ∙ ap (λ (o : SshOptions). extract_from o ys) p ∙ q

-- numbers that are printed, and extra options whose keys have no field of their own
pub record ArePrinted (o : SshOptions) (port interval count : ℕ) : Type 0 where
  pub port_is : o.port ≡ pos port
  pub interval_is : o.server_alive_interval ≡ pos interval
  pub count_is : o.server_alive_count_max ≡ pos count
  pub not_22 : (port == 22) ≡ false
  pub port_fits : port < 2 ^ 63
  pub interval_fits : interval < 2 ^ 63
  pub count_fits : count < 2 ^ 63
  pub extra : AreExtra o.extra_options
  pub distinct : Distinct o.extra_options

abbrev with_numbers : SshOptions → ℕ → ℕ → ℕ → SshOptions
with_numbers o p i c = record o {
  port = pos p;
  server_alive_interval = pos i;
  server_alive_count_max = pos c;
}

numbers_read :
    (o : SshOptions) (p i c : ℕ)
    → ArePrinted o p i c
    → extract_from no_options (option_children (with_numbers o p i c)) ≡ with_numbers o p i c
numbers_read o p i c h = followed _ _ _ _ _ (set-hostname _ o.hostname refl) (
    followed _ _ _ _ _ (set-user _ o.user refl) (
      followed _ _ _ _ _ (set-port _ p refl h.not_22 h.port_fits) (
        followed _ _ _ _ _ (set-identities o.identity_files _) (
          followed _ _ _ _ _ (set-proxy_jump _ o.proxy_jump refl) (
            followed _ _ _ _ _ (set-proxy_command _ o.proxy_command refl) (
              followed _ _ _ _ _ (set-forward _ o.forward_agent refl) (
                followed _ _ _ _ _ (set-only _ o.identities_only refl) (
                  followed _ _ _ _ _ (set-strict _ o.strict_host_key_checking refl) (
                    followed _ _ _ _ _ (set-interval _ i refl h.interval_fits) (
                      followed _ _ _ _ _ (set-count _ c refl h.count_fits) (
                        followed _ _ _ _ _ (set-compression _ o.compression refl)
                          (extras_read o.extra_options _ h.extra h.distinct refl))))))))))))

pub extract-printed :
    (o : SshOptions) (p i c : ℕ) → ArePrinted o p i c → extract_options (option_children o) ≡ o
unfolding extract_options
extract-printed o p i c h =
    let same : o ≡ with_numbers o p i c = (λ j. record o {
      port = h.port_is j;
      server_alive_interval = h.interval_is j;
      server_alive_count_max = h.count_is j;
    }) in
    subst (λ x. extract_from no_options (option_children x) ≡ x) (sym same) (numbers_read o p i c h)
