-- ===== src/SshConfig/Blocks.antt =====
-- What `removeManagedBlock` keeps of the lines of a file.
use skeys.Prelude.{
  ◌≡◌, ◌∙◌, refl, ap, sym, Bool, true, false, List, [], ◌∷◌, ◌++◌, append-nil, ◌==◌, nat_eq, All,
  Bool-cases, inl, inr, arith,
}
use skeys.Text.{Text, text_eq, codes}
use skeys.Text.Strings.{split, join, trim_space, trim_left, trim_right, is_space}
use skeys.Text.Splitting.{is_free, split-of_free, split-append, split-join, AreFree, split-AreFree}
use skeys.SshConfig.{
  Manager, begin_marker, end_marker, build_managed_block, filter_lines, drop_blank,
  remove_managed_block,
}

-- no line is one of the markers
abbrev pub IsPlain : Text → Type 0
IsPlain line = (trim_space line == begin_marker ≡ false) × (trim_space line == end_marker ≡ false)

abbrev pub ArePlain : List Text → Type 0
ArePlain = All IsPlain

filter-of_plain : (lines : List Text) → ArePlain lines → filter_lines false lines ≡ (lines, false)
unfolding filter_lines
filter-of_plain [] h = refl
filter-of_plain (l ∷ ls) h = ground (arith, filter-of_plain ls h.1, h.0)

abbrev pub block_lines : Text → List Text
block_lines socket =
    begin_marker ∷ codes "Host *" ∷ (codes "    IdentityAgent " ++ socket) ∷ end_marker ∷ []

split-line :
    (s t : Text) → is_free b'\n' s ≡ true → split b'\n' (s ++ b'\n' ∷ t) ≡ s ∷ split b'\n' t
split-line s t h = split-append b'\n' s t ∙ rw (split-of_free b'\n' s h) refl

split-block :
    (m : Manager)
    → is_free b'\n' m.agent_socket ≡ true
    → split b'\n' (build_managed_block m) ≡ block_lines m.agent_socket
unfolding build_managed_block is_free
split-block m h =
    split-line begin_marker _ refl
    ∙ ap (λ ls. begin_marker ∷ ls)
        (split-line (codes "Host *") _ refl
          ∙ ap (λ ls. codes "Host *" ∷ ls)
              (split-line (codes "    IdentityAgent " ++ m.agent_socket) end_marker h
                ∙ ap (λ ls. (codes "    IdentityAgent " ++ m.agent_socket) ∷ ls)
                    (split-of_free b'\n' end_marker refl)))

filter-begin :
    (line : Text) (lines : List Text) (b : Bool)
    → (trim_space line == begin_marker) ≡ true
    → filter_lines b (line ∷ lines) ≡ ((filter_lines true lines).0, true)
unfolding filter_lines
filter-begin line lines b h = ground arith

filter-inside :
    (line : Text) (lines : List Text)
    → IsPlain line
    → filter_lines true (line ∷ lines) ≡ filter_lines true lines
unfolding filter_lines
filter-inside line lines h = ground (arith, h.0, h.1)

filter-end :
    (line : Text) (lines : List Text) (b : Bool)
    → (trim_space line == begin_marker) ≡ false
    → (trim_space line == end_marker) ≡ true
    → filter_lines b (line ∷ lines) ≡ filter_lines false lines
unfolding filter_lines
filter-end line lines b h k = ground arith

identity_line-IsPlain : (socket : Text) → IsPlain (codes "    IdentityAgent " ++ socket)
unfolding trim_space trim_left trim_right is_space
identity_line-IsPlain socket = (refl, refl)

filter-block :
    (socket : Text) (lines : List Text)
    → filter_lines false (block_lines socket ++ lines) ≡ ((filter_lines false lines).0, true)
unfolding trim_space trim_left trim_right is_space
filter-block socket lines =
    filter-begin begin_marker _ false refl
    ∙ ap (λ r. (r.0, true))
        (filter-inside (codes "Host *") _ (refl, refl)
          ∙ filter-inside (codes "    IdentityAgent " ++ socket) _ (identity_line-IsPlain socket)
          ∙ filter-end end_marker lines true refl refl)

-- The block goes, and of the rest, if no line of it is a marker, only blank lines in front.
pub remove-prepended :
    (m : Manager) (content : Text)
    → is_free b'\n' m.agent_socket ≡ true
    → ArePlain (split b'\n' content)
    → remove_managed_block (build_managed_block m ++ b'\n' ∷ content)
      ≡ (join (b'\n' ∷ []) (drop_blank (split b'\n' content)), true)
unfolding remove_managed_block
remove-prepended m content h plain =
    rw
      (
        split-append b'\n' (build_managed_block m) content,
        split-block m h,
        filter-block m.agent_socket (split b'\n' content),
        filter-of_plain (split b'\n' content) plain,
      )
      refl

pub remove-block :
    (m : Manager)
    → is_free b'\n' m.agent_socket ≡ true
    → remove_managed_block (build_managed_block m) ≡ ([], true)
unfolding remove_managed_block drop_blank join
remove-block m h =
    rw
      (
        split-block m h,
        ap (filter_lines false) (sym (append-nil (block_lines m.agent_socket))),
        filter-block m.agent_socket [],
      )
      refl

plain_line :
    (b : Bool) (l : Text) (ls : List Text)
    → (trim_space l == begin_marker) ≡ false
    → (trim_space l == end_marker) ≡ false
    → ArePlain (filter_lines true ls).0
    → ArePlain (filter_lines false ls).0
    → ArePlain (filter_lines b (l ∷ ls)).0
unfolding filter_lines
plain_line true l ls other plain inside outside = rw (other, plain) inside
plain_line false l ls other plain inside outside = rw (other, plain) ((other, plain), outside)

filter-ArePlain : (b : Bool) (lines : List Text) → ArePlain (filter_lines b lines).0
unfolding filter_lines
filter-ArePlain b [] = tt
filter-ArePlain b (l ∷ ls) = elim (Bool-cases (trim_space l == begin_marker)) [
  | inl begins ↦ rw begins (filter-ArePlain true ls)
  | inr other ↦ elim (Bool-cases (trim_space l == end_marker)) [
    | inl ends ↦ rw (other, ends) (filter-ArePlain false ls)
    | inr plain ↦ plain_line b l ls other plain (filter-ArePlain true ls) (filter-ArePlain false ls)
  ]
]

filter-AreFree :
    (b : Bool) (lines : List Text) → AreFree b'\n' lines → AreFree b'\n' (filter_lines b lines).0
unfolding filter_lines
filter-AreFree b [] h = tt
filter-AreFree true (l ∷ ls) h = elim (Bool-cases (trim_space l == begin_marker)) [
  | inl begins ↦ rw begins (filter-AreFree true ls h.1)
  | inr other ↦ elim (Bool-cases (trim_space l == end_marker)) [
    | inl ends ↦ rw (other, ends) (filter-AreFree false ls h.1)
    | inr plain ↦ rw (other, plain) (filter-AreFree true ls h.1)
  ]
]
filter-AreFree false (l ∷ ls) h = elim (Bool-cases (trim_space l == begin_marker)) [
  | inl begins ↦ rw begins (filter-AreFree true ls h.1)
  | inr other ↦ elim (Bool-cases (trim_space l == end_marker)) [
    | inl ends ↦ rw (other, ends) (filter-AreFree false ls h.1)
    | inr plain ↦ rw (other, plain) (h.0, filter-AreFree false ls h.1)
  ]
]

All-drop_blank : (P : Text → Type 0) (lines : List Text) → All P lines → All P (drop_blank lines)
unfolding drop_blank
All-drop_blank P [] h = tt
All-drop_blank P (l ∷ ls) h = elim (Bool-cases (trim_space l == [])) [
  | inl blank ↦ rw blank (All-drop_blank P ls h.1)
  | inr other ↦ rw other h
]

lines-join :
    (lines : List Text)
    → AreFree b'\n' lines
    → ArePlain lines
    → ArePlain (split b'\n' (join (b'\n' ∷ []) lines))
lines-join [] f h = unfold join split trim_space trim_left trim_right in ((refl, refl), tt)
lines-join (l ∷ ls) f h = rw (split-join b'\n' (l ∷ ls) (λ e. cc) f) h

-- What is left has no marker in any line.
pub remove-ArePlain : (content : Text) → ArePlain (split b'\n' (remove_managed_block content).0)
unfolding remove_managed_block
remove-ArePlain content =
    let kept = (filter_lines false (split b'\n' content)).0 in
    lines-join (drop_blank kept)
      (All-drop_blank _ kept (filter-AreFree false _ (split-AreFree b'\n' content)))
      (All-drop_blank _ kept (filter-ArePlain false (split b'\n' content)))
