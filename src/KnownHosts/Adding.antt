-- ===== src/KnownHosts/Adding.antt =====
-- What `Add` answers, and what `List` finds behind it, for a name that is not hashed.
use skeys.Prelude.{
  ℕ, suc, ◌+◌, ◌<◌, ◌≡◌, ◌∙◌, refl, ap, sym, true, false, Option, none, some, List, [], ◌∷◌, ◌++◌,
  append_assoc, ◌==◌, Result, ok, length, arith,
}
use skeys.Text.{Text, text_eq, codes}
use skeys.Text.Decimal.{itoa}
use skeys.Text.Strings.{
  split, scan_lines, trim_space, trim_right, trim_left, fields, has_prefix, utf8_length,
}
use skeys.Text.Splitting.{is_free, is_free-append}
use skeys.Text.Trimming.{drop_cr-of_trimmed}
use skeys.Text.Lines.{IsLine, EndsLine, scan-append}
use skeys.Text.Words.{
  IsWord, fields-word, fields-last, trim_right-word, trim_left-word, solid-is_free,
}
use skeys.Files.{complete}
use skeys.KnownHosts.{
  KnownHost, Executor, Disk, HostsError, add, list, list_text, parse_line, hosts_of_lines,
  push_some, is_skipped, host_line, host_entry, last_or, answer, line_to_add,
}

-- a disk on which nothing fails
abbrev pub healthy : Disk
healthy = record {
  readable = true;
  temp_succeeds = true;
  mkdir_succeeds = true;
  openable = true;
  file_write = complete;
  temp_path = [];
}

-- a name that is one field and has no special meaning at the start of a line
pub record IsHost (h : Text) : Type 0 where
  pub word : IsWord h
  pub no_comment : has_prefix h (codes "#") ≡ false
  pub not_hashed : has_prefix h (codes "|1|") ≡ false
  pub not_revoked : (h == codes "@revoked") ≡ false
  pub not_authority : (h == codes "@cert-authority") ≡ false

abbrev pub text_or_empty : Option Text → Text
text_or_empty none = []
text_or_empty (some text) = text

-- the entry that a line gives
abbrev pub entry_on : ℕ → Text → Text → Text → KnownHost
entry_on n h key_type key = record {
  id = itoa n;
  hostnames = split b',' h;
  key_type = key_type;
  fingerprint = [];
  public_key = key;
  is_hashed = false;
  is_revoked = false;
  is_cert_auth = false;
  line_number = n;
}

fields-host_line :
    (h t k : Text) → IsWord h → IsWord t → IsWord k → fields (host_line h t k) ≡ h ∷ t ∷ k ∷ []
fields-host_line h t k wh wt wk =
    rw (fields-word h (t ++ b' ' ∷ k) wh, fields-word t k wt, fields-last k wk) refl

parse-host_line :
    (h t k : Text) (n : ℕ)
    → IsHost h
    → IsWord t
    → IsWord k
    → parse_line (host_line h t k) n ≡ some (entry_on n h t k)
unfolding parse_line
parse-host_line h t k n ih wt wk =
    rw (fields-host_line h t k ih.word wt wk)
      (rw (ih.not_revoked, ih.not_authority) (rw ih.not_hashed refl))

host_line-end : (h t k : Text) → IsWord k → trim_right (host_line h t k) ≡ host_line h t k
host_line-end h t k wk =
    ap trim_right (shape h t k)
    ∙ trim_right-word (h ++ b' ' ∷ (t ++ b' ' ∷ [])) k wk
    ∙ sym (shape h t k)
  where
    shape : (h t k : Text) → host_line h t k ≡ (h ++ b' ' ∷ (t ++ b' ' ∷ [])) ++ k
    shape h t k = sym (
        append_assoc h (b' ' ∷ (t ++ b' ' ∷ [])) k
        ∙ ap (λ s. h ++ b' ' ∷ s) (append_assoc t (b' ' ∷ []) k))

trimmed-host_line :
    (h t k : Text) → IsWord h → IsWord k → trim_space (host_line h t k) ≡ host_line h t k
unfolding trim_space
trimmed-host_line h t k wh wk =
    ap trim_left (host_line-end h t k wk) ∙ trim_left-word h (b' ' ∷ (t ++ b' ' ∷ k)) wh

kept-host_line : (h t k : Text) → IsHost h → is_skipped (host_line h t k) ≡ false
kept-host_line [] t k ih = absurd (ih.word.full refl)
kept-host_line (c ∷ s) t k ih = unfold has_prefix in ih.no_comment

hosts-host_line :
    (h t k : Text) (n : ℕ)
    → IsHost h
    → IsWord t
    → IsWord k
    → hosts_of_lines n (host_line h t k ∷ []) ≡ entry_on n h t k ∷ []
unfolding hosts_of_lines
hosts-host_line h t k n ih wt wk =
    rw
      (
        trimmed-host_line h t k ih.word wk,
        kept-host_line h t k ih,
        parse-host_line h t k n ih wt wk,
      )
      refl

host_line-IsLine :
    (h t k : Text)
    → IsWord h
    → IsWord t
    → IsWord k
    → utf8_length (host_line h t k) < 65536
    → IsLine (host_line h t k)
host_line-IsLine h t k wh wt wk short = record {
  free = is_free-append b'\n' h (b' ' ∷ (t ++ b' ' ∷ k)) (solid-is_free h wh.solid) (
      unfold is_free in
      is_free-append b'\n' t (b' ' ∷ k) (solid-is_free t wt.solid) (solid-is_free k wk.solid));
  short = short;
  stable = drop_cr-of_trimmed (host_line h t k) (host_line-end h t k wk);
}

append-push :
    (o : Option KnownHost) (xs ys : List KnownHost) → push_some o (xs ++ ys) ≡ push_some o xs ++ ys
append-push none xs ys = refl
append-push (some h) xs ys = refl

hosts-snoc :
    (n m : ℕ) (ls : List Text) (l : Text)
    → n + length ls ≡ m
    → hosts_of_lines n (ls ++ l ∷ []) ≡ hosts_of_lines n ls ++ hosts_of_lines m (l ∷ [])
unfolding hosts_of_lines
hosts-snoc n m [] l e = rw (← e) (ground arith)
hosts-snoc n m (x ∷ ls) l e = ground (
  arith,
  hosts-snoc (suc n) m ls l (omega (arith, e)),
  append-push (parse_line (trim_space x) n) (hosts_of_lines (suc n) ls) (hosts_of_lines m (l ∷ [])),
)

-- a text of whole lines that lists these entries, with the number of the line behind it
abbrev pub IsListed : Text → List KnownHost → ℕ → Type 0
IsListed text hosts next =
    EndsLine text × (list_text text ≡ ok hosts) × (next ≡ suc (length (scan_lines text).0))

listed-scan :
    (text : Text) (hosts : List KnownHost)
    → list_text text ≡ ok hosts
    → ((scan_lines text).1 ≡ false) × (hosts_of_lines 1 (scan_lines text).0 ≡ hosts)
listed-scan text hosts h = (ground arith, ground arith)

list-text_append :
    (text h t k : Text) (hosts : List KnownHost) (n : ℕ)
    → IsListed text hosts n
    → IsHost h
    → IsWord t
    → IsWord k
    → utf8_length (host_line h t k) < 65536
    → list_text (text ++ (host_line h t k ++ b'\n' ∷ [])) ≡ ok (hosts ++ entry_on n h t k ∷ [])
list-text_append text h t k hosts n (ends, listed, next) ih wt wk short =
    let (clean, same) = listed-scan text hosts listed in
    rw (scan-append text (host_line h t k) ends (host_line-IsLine h t k ih.word wt wk short) clean)
      (ap ok (
        hosts-snoc 1 n (scan_lines text).0 (host_line h t k) (omega (arith, next))
        ∙ rw (same, hosts-host_line h t k n ih wt wk) refl))

last-append : (d x : KnownHost) (xs : List KnownHost) → last_or d (xs ++ x ∷ []) ≡ x
last-append d x [] = refl
last-append d x (y ∷ xs) = last-append y x xs

answer-append :
    (xs : List KnownHost) (d x : KnownHost) (r : Result HostsError (List KnownHost))
    → r ≡ ok (xs ++ x ∷ [])
    → answer r d ≡ x
answer-append xs d x r h = rw h (last-append d x xs)

-- On a disk where nothing fails, an entry that is added under a plain name to a file of whole lines is
-- listed behind the others, with the number of its line, and is the entry that `Add` answers.
pub list-add_host :
    (e : Executor) (path hostname : Text) (port : ℕ) (t k : Text) (file : Option Text)
    (hosts : List KnownHost) (n : ℕ)
    → IsListed (text_or_empty file) hosts n
    → IsHost (host_entry hostname port)
    → IsWord t
    → IsWord k
    → utf8_length (host_line (host_entry hostname port) t k) < 65536
    → ((add e path healthy hostname port t k false file).0
        ≡ ok (entry_on n (host_entry hostname port) t k))
      × (list healthy (add e path healthy hostname port t k false file).1
          ≡ ok (hosts ++ entry_on n (host_entry hostname port) t k ∷ []))
unfolding add list line_to_add
list-add_host e path hostname port t k none hosts n listed ih wt wk short =
    let p = list-text_append [] (host_entry hostname port) t k hosts n listed ih wt wk short in
    (ap ok (answer-append hosts _ _ _ p), p)
list-add_host e path hostname port t k (some text) hosts n listed ih wt wk short =
    let p = list-text_append text (host_entry hostname port) t k hosts n listed ih wt wk short in
    (ap ok (answer-append hosts _ _ _ p), p)
