-- ===== src/Base/Maps.antt =====
-- `HashMap` and `HashSet` as association lists and lists without repetition. The order in which
-- the program walks a map is the order of the list.
use Prim.Native.Nat.{suc, ◌≤◌}
use mathlib.Core.Path.{◌≡◌, refl}
use mathlib.Core.Bool.{Bool, true, false}
use mathlib.Core.Option.{Option, none, some}
use mathlib.Core.List.{List, [], ◌∷◌}
use native.Mathlib.Omega.{arith}
use mathlib.Core.Logic.{inl, inr}
use vitruvius.Base.Tests.{is_some, if◌then◌else◌, Bool-cases}
use vitruvius.Base.Lists.{length}
use vitruvius.Base.Equality.{Eq, ◌==◌, contains}

abbrev pub Dict {ℓ κ} : Type ℓ → Type κ → Type (ℓ ⊔ κ)
Dict K V = List (K × V)

module _ {ℓ κ} {K : Type ℓ} {V : Type κ} ⦃e : Eq K⦄ where
  -- `map.get(&k)`
  unfoldable pub lookup : K → Dict K V → Option V
  lookup k [] = none
  lookup k ((j, v) ∷ d) = if j == k then some v else lookup k d

  -- `map.contains_key(&k)`
  unfoldable pub contains_key : K → Dict K V → Bool
  contains_key k [] = false
  contains_key k ((j, v) ∷ d) = if j == k then true else contains_key k d

  -- `map.insert(k, v)`
  unfoldable pub insert : K → V → Dict K V → Dict K V
  insert k v [] = (k, v) ∷ []
  insert k v ((j, w) ∷ d) = let rest = insert k v d in if j == k then (j, v) ∷ d else (j, w) ∷ rest

  -- `map.remove(&k)`
  unfoldable pub remove : K → Dict K V → Dict K V
  remove k [] = []
  remove k ((j, w) ∷ d) = let rest = remove k d in if j == k then rest else (j, w) ∷ rest

  pub lookup-insert :
      (j k : K) (v : V) (d : Dict K V)
      → lookup j (insert k v d) ≡ (if k == j then some v else lookup j d)
  unfolding lookup insert
  lookup-insert j k v [] = refl
  lookup-insert j k v ((i, w) ∷ d) =
      ground (arith, e.beq_iff k j, e.beq_iff i k, e.beq_iff i j, lookup-insert j k v d)

  pub lookup-insert_self : (k : K) (v : V) (d : Dict K V) → lookup k (insert k v d) ≡ some v
  lookup-insert_self k v d = ground (arith, lookup-insert k k v d, e.beq_iff k k)

  pub lookup-remove :
      (j k : K) (d : Dict K V) → lookup j (remove k d) ≡ (if k == j then none else lookup j d)
  unfolding lookup remove
  lookup-remove j k [] = ground arith
  lookup-remove j k ((i, w) ∷ d) =
      ground (arith, e.beq_iff k j, e.beq_iff i k, e.beq_iff i j, lookup-remove j k d)

  pub contains_key-remove : (k : K) (d : Dict K V) → contains_key k (remove k d) ≡ false
  unfolding contains_key remove
  contains_key-remove k [] = refl
  contains_key-remove k ((i, w) ∷ d) = ground (arith, contains_key-remove k d)

  pub insert-insert : (k : K) (v w : V) (d : Dict K V) → insert k v (insert k w d) ≡ insert k v d
  unfolding insert
  insert-insert k v w [] = ground (arith, e.beq_iff k k)
  insert-insert k v w ((i, u) ∷ d) = ground (arith, e.beq_iff i k, insert-insert k v w d)

  pub contains_key-is_some :
      (k : K) (d : Dict K V) → contains_key k d ≡ true → is_some (lookup k d) ≡ true
  unfolding lookup contains_key
  contains_key-is_some k [] h = cc
  contains_key-is_some k ((i, w) ∷ d) h = ground (arith, contains_key-is_some k d)

  pub contains_key-eq_none : (k : K) (d : Dict K V) → contains_key k d ≡ false → lookup k d ≡ none
  unfolding lookup contains_key
  contains_key-eq_none k [] h = refl
  contains_key-eq_none k ((i, w) ∷ d) h = ground (arith, contains_key-eq_none k d)

  pub length-insert-le : (k : K) (v : V) (d : Dict K V) → length (insert k v d) ≤ suc (length d)
  unfolding insert
  length-insert-le k v [] = omega arith
  length-insert-le k v ((i, w) ∷ d) = ground (arith, length-insert-le k v d)

  pub length-remove-le : (k : K) (d : Dict K V) → length (remove k d) ≤ length d
  unfolding remove
  length-remove-le k [] = omega arith
  length-remove-le k ((i, w) ∷ d) = ground (arith, length-remove-le k d)

module _ {ℓ} {A : Type ℓ} ⦃e : Eq A⦄ where
  -- `set.insert(a)`
  unfoldable pub add : A → List A → List A
  add a xs = if contains xs a then xs else a ∷ xs

  -- `set.remove(&a)`
  unfoldable pub delete : A → List A → List A
  delete a [] = []
  delete a (x ∷ xs) = let rest = delete a xs in if x == a then rest else x ∷ rest

  pub contains-add :
      (a b : A) (xs : List A) → contains (add a xs) b ≡ (if a == b then true else contains xs b)
  unfolding add contains
  contains-add a b xs = elim (Bool-cases (contains xs a)) [
    | inl old ↦ rw (old, add) (ground (arith, e.beq_iff a b, old))
    | inr new ↦ rw (new, add) (ground arith)
  ]

  pub contains-delete :
      (a b : A) (xs : List A) → contains (delete a xs) b ≡ (if a == b then false else contains xs b)
  unfolding delete contains
  contains-delete a b [] = ground arith
  contains-delete a b (x ∷ xs) =
      ground (arith, e.beq_iff a b, e.beq_iff x a, e.beq_iff x b, contains-delete a b xs)
