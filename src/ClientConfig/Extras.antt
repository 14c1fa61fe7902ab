-- ===== src/ClientConfig/Extras.antt =====
-- The options without a field of their own are read back.
use skeys.Prelude.{
  ◌≡◌, ◌∙◌, refl, sym, ap, Bool, false, ◌||◌, none, [], ◌∷◌, ◌++◌, ◌==◌, nat_eq, All, append_assoc,
  append-nil, arith, Bool-cases, inl, inr,
}
use skeys.Text.{Text, text_eq, codes}
use skeys.Text.Strings.{to_lower}
use skeys.Map
use skeys.Map.{Map}
use skeys.Map.Laws.{Distinct, get-put}
use skeys.ClientConfig.Entries.{add_option}
use skeys.ClientConfig.{SshOptions, extract_from}
use skeys.ClientConfig.Children.{extra_children}

-- the keys that have a field of their own
abbrev pub is_known : Text → Bool
is_known k =
    k == codes "hostname"
    || (k == codes "user"
        || (k == codes "port"
            || (k == codes "identityfile"
                || (k == codes "proxyjump"
                    || (k == codes "proxycommand"
                        || (k == codes "forwardagent"
                            || (k == codes "identitiesonly"
                                || (k == codes "stricthostkeychecking"
                                    || (k == codes "serveraliveinterval"
                                        || (k == codes "serveralivecountmax"
                                            || k == codes "compression"))))))))))

abbrev pub AreExtra : Map Text Text → Type 0
AreExtra = All (λ (kv : Text × Text). is_known (to_lower kv.0) ≡ false)

add-extra :
    (k key v : Text) (a : SshOptions)
    → is_known k ≡ false
    → add_option k key v a ≡ record a { extra_options = Map.put key v a.extra_options }
add-extra k key v a h = ground arith

put_all : Map Text Text → Map Text Text → Map Text Text
put_all x [] = x
put_all x ((k, v) ∷ m) = put_all (Map.put k v x) m

set-extras :
    (m : Map Text Text) (a : SshOptions)
    → AreExtra m
    → extract_from a (extra_children m) ≡ record a { extra_options = put_all a.extra_options m }
unfolding extract_from put_all
set-extras [] a h = refl
set-extras ((k, v) ∷ m) a h =
    ap (λ (o : SshOptions). extract_from o (extra_children m)) (add-extra (to_lower k) k v a h.0)
    ∙ set-extras m (record a { extra_options = Map.put k v a.extra_options }) h.1

-- none of the keys of the second map stands in the first
abbrev AreNew : Map Text Text → Map Text Text → Type 0
AreNew x = All (λ (kv : Text × Text). Map.get kv.0 x ≡ none)

put-new : (k v : Text) (x : Map Text Text) → Map.get k x ≡ none → Map.put k v x ≡ x ++ (k, v) ∷ []
unfolding Map.get Map.put
put-new k v [] h = refl
put-new k v ((j, w) ∷ x) h = elim (Bool-cases (j == k)) [
  | inl same ↦ cc (rw same at h)
  | inr other ↦ rw other (ap (λ (r : Map Text Text). (j, w) ∷ r) (put-new k v x (rw other at h)))
]

absent :
    (k j w : Text) (m : Map Text Text)
    → Map.get k ((j, w) ∷ m) ≡ none
    → ((j == k) ≡ false) × (Map.get k m ≡ none)
unfolding Map.get
absent k j w m h = elim (Bool-cases (j == k)) [
  | inl same ↦ cc (rw same at h)
  | inr other ↦ (other, rw other at h)
]

put-AreNew :
    (k v : Text) (x m : Map Text Text) → Map.get k m ≡ none → AreNew x m → AreNew (Map.put k v x) m
put-AreNew k v x [] h n = tt
put-AreNew k v x ((j, w) ∷ m) h n =
    let (other, rest) = absent k j w m h in
    (get-put k j v x ∙ rw (differ k j other) n.0, put-AreNew k v x m rest n.1)
  where
    differ : (k j : Text) → (j == k) ≡ false → (k == j) ≡ false
    differ k j h = ground (arith, text_eq.beq_iff k j, text_eq.beq_iff j k)

put_all-new : (m x : Map Text Text) → Distinct m → AreNew x m → put_all x m ≡ x ++ m
unfolding put_all
put_all-new [] x d n = sym (append-nil x)
put_all-new ((k, v) ∷ m) x (fresh, d) n =
    put_all-new m (Map.put k v x) d (put-AreNew k v x m fresh n.1)
    ∙ ap (λ (r : Map Text Text). r ++ m) (put-new k v x n.0)
    ∙ append_assoc x ((k, v) ∷ []) m

all_new : (m : Map Text Text) → AreNew [] m
all_new [] = tt
all_new (kv ∷ m) = (unfold Map.get in refl, all_new m)

pub extras_read :
    (m : Map Text Text) (a : SshOptions)
    → AreExtra m
    → Distinct m
    → a.extra_options ≡ []
    → extract_from a (extra_children m) ≡ record a { extra_options = m }
extras_read m a h d e =
    set-extras m a h
    ∙ ap (λ (x : Map Text Text). record a { extra_options = put_all x m }) e
    ∙ ap (λ (x : Map Text Text). record a { extra_options = x }) (put_all-new m [] d (all_new m))
