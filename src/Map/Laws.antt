-- ===== src/Map/Laws.antt =====
-- The laws of the maps.
use skeys.Prelude.{
  ◌+◌, ◌≤◌, ◌≡◌, refl, ◌≢◌, inl, inr, Bool-cases, Option-cases, none, some, [], ◌∷◌, Eq, ◌==◌,
  arith, length, if◌then◌else◌,
}
use skeys.Map.{Map, get, put, delete}

module _ {K V : Type 0} ⦃e : Eq K⦄ where
  pub get-put :
      (k j : K) (v : V) (m : Map K V) → get j (put k v m) ≡ (if k == j then some v else get j m)
  unfolding get put
  get-put k j v [] = refl
  get-put k j v ((i, w) ∷ m) =
      ground (arith, e.beq_iff k j, e.beq_iff i k, e.beq_iff i j, get-put k j v m)

  pub get-delete : (k j : K) (m : Map K V) → get j (delete k m) ≡ (if k == j then none else get j m)
  unfolding get delete
  get-delete k j [] = ground arith
  get-delete k j ((i, w) ∷ m) =
      ground (arith, get-delete k j m, e.beq_iff i k, e.beq_iff i j, e.beq_iff k j)

  pub get-put_self : (k : K) (v : V) (m : Map K V) → get k (put k v m) ≡ some v
  get-put_self k v m = ground (arith, get-put k k v m, e.beq_iff k k)

  pub get-delete_self : (k : K) (m : Map K V) → get k (delete k m) ≡ none
  get-delete_self k m = ground (arith, get-delete k k m, e.beq_iff k k)

  length-put_new :
      (k : K) (v : V) (m : Map K V) → get k m ≡ none → length (put k v m) ≡ length m + 1
  unfolding get put
  length-put_new k v [] h = omega arith
  length-put_new k v ((i, w) ∷ m) h = ground (arith, length-put_new k v m)

  pub length-put_old :
      (k : K) (v : V) (m : Map K V) → get k m ≢ none → length (put k v m) ≡ length m
  unfolding get put
  length-put_old k v [] h = absurd (h refl)
  length-put_old k v ((i, w) ∷ m) h = ground (arith, length-put_old k v m)

  pub length-delete : (k : K) (m : Map K V) → length (delete k m) ≤ length m
  unfolding delete
  length-delete k [] = omega arith
  length-delete k ((i, w) ∷ m) = ground (arith, length-delete k m)

  length-delete_old : (k : K) (m : Map K V) → get k m ≢ none → length (delete k m) + 1 ≤ length m
  unfolding get delete
  length-delete_old k [] h = absurd (h refl)
  length-delete_old k ((i, w) ∷ m) h = ground (arith, length-delete k m, length-delete_old k m)

  delete_absent : (k : K) (m : Map K V) → get k m ≡ none → delete k m ≡ m
  unfolding get delete
  delete_absent k [] h = refl
  delete_absent k ((i, w) ∷ m) h = ground (arith, delete_absent k m)

pub ruleset map_laws = (get-put, get-delete)

-- No key stands twice, as in a Go map.
module _ {K V : Type 0} ⦃e : Eq K⦄ where
  abbrev pub Distinct : Map K V → Type 0
  Distinct [] = Unit
  Distinct ((k, v) ∷ m) = (get k m ≡ none) × Distinct m

  pub put-Distinct : (k : K) (v : V) (m : Map K V) → Distinct m → Distinct (put k v m)
  unfolding get put
  put-Distinct k v [] d = (refl, tt)
  put-Distinct k v ((i, w) ∷ m) (fresh, d) = elim (Bool-cases (i == k)) [
    | inl same ↦ rw same (rw (← (e.beq_iff i k).0 same) fresh, d)
    | inr other ↦
        rw other
          (ground (arith, get-put k i v m, e.beq_iff k i, e.beq_iff i k), put-Distinct k v m d)
  ]

  pub delete-Distinct : (k : K) (m : Map K V) → Distinct m → Distinct (delete k m)
  unfolding delete
  delete-Distinct k [] d = tt
  delete-Distinct k ((i, w) ∷ m) (fresh, d) = elim (Bool-cases (i == k)) [
    | inl same ↦ rw same (delete-Distinct k m d)
    | inr other ↦ rw other (ground (arith, get-delete k i m), delete-Distinct k m d)
  ]

module _ {K V : Type 0} ⦃e : Eq K⦄ where
  pub length-put_le : (k : K) (v : V) (m : Map K V) → length (put k v m) ≤ length m + 1
  length-put_le k v m = elim (Option-cases (get k m)) [
    | inl absent ↦ omega (arith, length-put_new k v m absent)
    | inr (w, found) ↦ omega (arith, length-put_old k v m (λ n. cc (n, found)))
  ]
