-- ===== src/System/Parsing.antt =====
-- skeys-core/system/service.go: what is read of the properties that systemctl prints.
use skeys.Prelude.{
  ℕ, ◌<◌, ◌^◌, ◌≡◌, refl, ap, ◌∙◌, Bool, true, false, ◌||◌, Option, none, some, List, [], ◌∷◌, ◌++◌,
  ◌==◌, if◌then◌else◌, arith, All,
}
use skeys.Text.{Text, text_eq, codes}
use skeys.Text.Decimal.{itoa, is_digit, itoa-AreDigits}
use skeys.Text.Numbers.{pos, int_of-itoa}
use skeys.Text.Strings.{cut, split}
use skeys.Text.Splitting.{is_free, is_free-append, split-of_free, split-append}
use skeys.Version.Numeric.{free-of_digits}
use skeys.System.Service.{
  ServiceStatus, unknown, status_with, time_or, set_property, set_parts, set_lines, parse_status,
  state_of, loaded_state,
}

-- the properties as systemctl prints them
abbrev pub print_properties : List (Text × Text) → Text
print_properties [] = []
print_properties ((k, v) ∷ ps) = (k ++ b'=' ∷ v) ++ b'\n' ∷ print_properties ps

cut-append : (c : ℕ) (s t : Text) → is_free c s ≡ true → cut c (s ++ c ∷ t) ≡ some (s, t)
unfolding cut is_free
cut-append c [] t h = ground arith
cut-append c (d ∷ s) t h = ground (arith, cut-append c s t)

-- The key has no sign `=` and no end of a line, and the value no end of a line.
record IsProperty (p : Text × Text) : Type 0 where
  key : is_free b'=' p.0 ≡ true
  key_line : is_free b'\n' p.0 ≡ true
  value_line : is_free b'\n' p.1 ≡ true

free_after : (v : Text) → is_free b'\n' v ≡ true → is_free b'\n' (b'=' ∷ v) ≡ true
unfolding is_free
free_after v h = h

module _ (parse_time : Text → Option ℕ) where
  abbrev set_all : List (Text × Text) → ServiceStatus → ServiceStatus
  set_all [] s = s
  set_all ((k, v) ∷ ps) s = set_all ps (set_property parse_time k v s)

  set_lines-line :
      (k v : Text) (lines : List Text) (s : ServiceStatus)
      → is_free b'=' k ≡ true
      → set_lines parse_time ((k ++ b'=' ∷ v) ∷ lines) s
        ≡ set_lines parse_time lines (set_property parse_time k v s)
  unfolding set_lines
  set_lines-line k v lines s h =
      ap (λ o. set_lines parse_time lines (set_parts parse_time o s)) (cut-append b'=' k v h)

  set_lines-print :
      (ps : List (Text × Text)) (s : ServiceStatus)
      → All IsProperty ps
      → set_lines parse_time (split b'\n' (print_properties ps)) s ≡ set_all ps s
  unfolding set_lines split cut
  set_lines-print [] s h = refl
  set_lines-print ((k, v) ∷ ps) s (p, h) =
      rw
        (
          split-append b'\n' (k ++ b'=' ∷ v) (print_properties ps),
          split-of_free b'\n' (k ++ b'=' ∷ v)
              (is_free-append b'\n' k (b'=' ∷ v) p.key_line (free_after v p.value_line)),
        )
        (set_lines-line k v (split b'\n' (print_properties ps)) s p.key
          ∙ set_lines-print ps (set_property parse_time k v s) h)

keep_or_set :
    (b : Bool) (t : Option ℕ) (s : ServiceStatus)
    → s.started_at ≡ none
    → (if b then s else record s { started_at = time_or t s.started_at })
      ≡ record s { started_at = if b then none else t }
keep_or_set true t s h = ap (λ (x : Option ℕ). record s { started_at = x }) h
keep_or_set false none s h = ap (λ (x : Option ℕ). record s { started_at = x }) h
keep_or_set false (some t) s h = refl

pub record Shown : Type 0 where
  pub main_pid : ℕ
  pub load_state : Text
  pub active_state : Text
  pub sub_state : Text
  pub unit_file_state : Text
  pub timestamp : Text

abbrev pub properties_of : Shown → List (Text × Text)
properties_of v =
    (codes "MainPID", itoa v.main_pid)
    ∷ (codes "LoadState", v.load_state)
    ∷ (codes "ActiveState", v.active_state)
    ∷ (codes "SubState", v.sub_state)
    ∷ (codes "UnitFileState", v.unit_file_state)
    ∷ (codes "ActiveEnterTimestamp", v.timestamp)
    ∷ []

-- No text has an end of a line, and the number is one of 64 bits.
pub record IsShown (v : Shown) : Type 0 where
  pub bound : v.main_pid < 2 ^ 63
  pub load : is_free b'\n' v.load_state ≡ true
  pub active : is_free b'\n' v.active_state ≡ true
  pub sub : is_free b'\n' v.sub_state ≡ true
  pub unit_file : is_free b'\n' v.unit_file_state ≡ true
  pub time : is_free b'\n' v.timestamp ≡ true

property :
    (k v : Text)
    → is_free b'=' k ≡ true
    → is_free b'\n' k ≡ true
    → is_free b'\n' v ≡ true
    → IsProperty (k, v)
property k v a b h = record { key = a; key_line = b; value_line = h }

shown-AreProperties : (v : Shown) → IsShown v → All IsProperty (properties_of v)
unfolding is_free is_digit
shown-AreProperties v h = (
  property _ _ refl refl (free-of_digits b'\n' (itoa v.main_pid) refl (itoa-AreDigits v.main_pid)),
  (
    property _ _ refl refl h.load,
    (
      property _ _ refl refl h.active,
      (
        property _ _ refl refl h.sub,
        (property _ _ refl refl h.unit_file, (property _ _ refl refl h.time, tt)),
      ),
    ),
  ),
)

-- the status with these properties, started at that time
abbrev pub status_of : Shown → Text → Option ℕ → ServiceStatus
status_of v name t = record {
  state = state_of v.active_state (loaded_state v.load_state unknown);
  enabled = v.unit_file_state == codes "enabled";
  active_state = v.active_state;
  sub_state = v.sub_state;
  load_state = v.load_state;
  pid = pos v.main_pid;
  started_at = t;
  service_name = name;
}

pub parse_status-print :
    (parse_time : Text → Option ℕ) (v : Shown) (name stderr failure : Text)
    → IsShown v
    → parse_status parse_time
        (record {
          succeeds = true;
          stdout = print_properties (properties_of v);
          stderr = stderr;
          failure = failure;
        })
        name
      ≡ status_of v name
          (if v.timestamp == [] || v.timestamp == codes "n/a" then none else parse_time v.timestamp)
unfolding parse_status set_property is_free
parse_status-print parse_time v name stderr failure h =
    set_lines-print parse_time (properties_of v) (status_with unknown name)
      (shown-AreProperties v h)
    ∙ rw (int_of-itoa v.main_pid h.bound) (
        keep_or_set (v.timestamp == [] || v.timestamp == codes "n/a") (parse_time v.timestamp)
          (status_of v name none) refl)
