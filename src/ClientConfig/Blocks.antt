-- ===== src/ClientConfig/Blocks.antt =====
-- The block that is written for an entry, and the entry that is listed for it.
use skeys.Prelude.{
  ℕ, ◌≡◌, ◌∙◌, ◌⊎◌, inl, inr, refl, sym, ap, Bool, true, false, not, List, [], ◌∷◌, ◌++◌, ◌==◌,
  nat_eq, All, append_assoc, append-nil, Bool-cases, if◌then◌else◌,
}
use skeys.Text.{Text, text_eq, codes}
use skeys.Text.Strings.{join, fields, to_lower}
use skeys.Text.Words.{IsWord, fields-word, fields-last}
use skeys.Map.{Map}
use skeys.ClientConfig.Entries.{shows_port, is_positive, line_if}
use skeys.ClientConfig.Children.{child_if, identity_children, extra_children, option_children}
use skeys.ClientConfig.Options.{ArePrinted, extract-printed}
use skeys.ClientConfig.Globals.{print_children}
use skeys.ClientConfig.State.{is_star}
use skeys.ClientConfig.{
  option_line, Library, ClientConfig, SshConfigEntry, Line, Child, entry_type_host,
  entry_type_match, get_entry_header, build_entry_block, identity_lines, extra_lines,
  generate_entry_id, list_entries, entries_from, type_of, is_block, is_wildcard,
}

print-append :
    (xs ys : List Child) → print_children (xs ++ ys) ≡ print_children xs ++ print_children ys
unfolding print_children
print-append [] ys = refl
print-append (x ∷ xs) ys =
    ap (λ (t : Text). option_line x.key x.value ++ t) (print-append xs ys)
    ∙ sym (append_assoc (option_line x.key x.value) (print_children xs) (print_children ys))

print-if : (b : Bool) (k v : Text) → print_children (child_if b k v) ≡ line_if b k v
unfolding print_children
print-if true k v = append-nil _
print-if false k v = refl

print-identities : (fs : List Text) → print_children (identity_children fs) ≡ identity_lines fs
unfolding print_children identity_lines
print-identities [] = refl
print-identities (f ∷ fs) = rw (print-identities fs) refl

print-extras : (m : Map Text Text) → print_children (extra_children m) ≡ extra_lines m
unfolding print_children extra_lines
print-extras [] = refl
print-extras ((k, v) ∷ m) = rw (print-extras m) refl

cons_printed :
    (xs ys : List Child) (s t : Text)
    → print_children xs ≡ s
    → print_children ys ≡ t
    → print_children (xs ++ ys) ≡ s ++ t
cons_printed xs ys s t p q = print-append xs ys ∙ rw (p, q) refl

build-block :
    (e : SshConfigEntry)
    → build_entry_block e ≡ get_entry_header e ++ b'\n' ∷ print_children (option_children e.options)
unfolding build_entry_block
build-block e =
    let o = e.options in
    ap (λ (t : Text). get_entry_header e ++ b'\n' ∷ t)
      (sym (
        cons_printed _ _ _ _ (print-if (not (o.hostname == [])) _ _) (
          cons_printed _ _ _ _ (print-if (not (o.user == [])) _ _) (
            cons_printed _ _ _ _ (print-if (shows_port o.port) _ _) (
              cons_printed _ _ _ _ (print-identities o.identity_files) (
                cons_printed _ _ _ _ (print-if (not (o.proxy_jump == [])) _ _) (
                  cons_printed _ _ _ _ (print-if (not (o.proxy_command == [])) _ _) (
                    cons_printed _ _ _ _ (print-if o.forward_agent _ _) (
                      cons_printed _ _ _ _ (print-if o.identities_only _ _) (
                        cons_printed _ _ _ _ (print-if (not (o.strict_host_key_checking == [])) _ _)
                          (cons_printed _ _ _ _ (print-if (is_positive o.server_alive_interval) _ _)
                            (cons_printed _ _ _ _
                              (print-if (is_positive o.server_alive_count_max) _ _)
                              (cons_printed _ _ _ _ (print-if o.compression _ _)
                                (print-extras o.extra_options))))))))))))))

fields-join : (ws : List Text) → All IsWord ws → fields (join (b' ' ∷ []) ws) ≡ ws
unfolding join
fields-join [] h = unfold fields in refl
fields-join (w ∷ []) h = fields-last w h.0
fields-join (w ∷ v ∷ ws) h =
    fields-word w (join (b' ' ∷ []) (v ∷ ws)) h.0 ∙ ap (λ r. w ∷ r) (fields-join (v ∷ ws) h.1)

abbrev pub keyword : ℕ → Text
keyword t = if t == entry_type_match then codes "Match" else codes "Host"

-- the line with its options that the text of an entry stands for
abbrev pub line_of : SshConfigEntry → Line
line_of e = record {
  key = keyword e.entry_type;
  value = join (b' ' ∷ []) e.patterns;
  comment = [];
  children = option_children e.options;
}

abbrev pub IsBlockType : ℕ → Type 0
IsBlockType t = (t ≡ entry_type_host) ⊎ (t ≡ entry_type_match)

keyword-is_block : (t : ℕ) → IsBlockType t → is_block (to_lower (keyword t)) ≡ true
unfolding to_lower
keyword-is_block t (inl h) = rw h refl
keyword-is_block t (inr h) = rw h refl

type_of-keyword : (t : ℕ) → IsBlockType t → type_of (to_lower (keyword t)) ≡ t
unfolding to_lower
type_of-keyword t (inl h) = rw h refl
type_of-keyword t (inr h) = rw h refl

not_wild : (t : ℕ) (ps : List Text) → is_star ps ≡ false → is_wildcard t ps ≡ false
not_wild t ps h = elim (Bool-cases (t == entry_type_host)) [
  | inl host ↦ rw (host, h) refl
  | inr other ↦ rw other refl
]

-- An entry of one of the two types, with patterns that are words and not a single star, with numbers
-- that are printed, and with extra options that have no field of their own, is listed with the same
-- type, patterns and options, at position 0 and with the ID of its patterns, by a configuration whose
-- text is its block, if the library reads that text, a header and a line for each option, as the line
-- that it stands for.
pub list-built :
    (l : Library) (c : ClientConfig l) (e : SshConfigEntry) (p i n : ℕ)
    → IsBlockType e.entry_type
    → All IsWord e.patterns
    → is_star e.patterns ≡ false
    → ArePrinted e.options p i n
    → l.lines
        (l.parse_config (get_entry_header e ++ b'\n' ∷ print_children (option_children e.options)))
      ≡ line_of e ∷ []
    → c.config ≡ l.parse_config (build_entry_block e)
    → list_entries l c
      ≡ record e { id = generate_entry_id l e.entry_type e.patterns; position = 0 } ∷ []
unfolding list_entries
list-built l c e p i n t w s h parses text =
    ap (entries_from l 0) (ap l.lines (text ∙ ap l.parse_config (build-block e)) ∙ parses) ∙ listed
  where
    listed :
        entries_from l 0 (line_of e ∷ [])
        ≡ record e { id = generate_entry_id l e.entry_type e.patterns; position = 0 } ∷ []
    listed =
        simp
          (
            keyword-is_block e.entry_type t,
            type_of-keyword e.entry_type t,
            fields-join e.patterns w,
            not_wild e.entry_type e.patterns s,
            extract-printed e.options p i n h,
          )
          refl
