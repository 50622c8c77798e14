-- ===== src/Base/Values.antt =====
-- A property of every value of a map.
use Prim.Native.Nat.{suc}
use mathlib.Core.Path.{◌≡◌, ap, subst}
use mathlib.Core.Option.{some, some-injective}
use mathlib.Core.List.{[], ◌∷◌}
use mathlib.Core.Logic.{inl, inr}
use vitruvius.Base.Tests.{Bool-cases}
use vitruvius.Base.Lists.{length, All}
use vitruvius.Base.Equality.{Eq, ◌==◌}
use vitruvius.Base.Maps.{Dict, lookup, insert, remove}

module _ {ℓ κ ι} {K : Type ℓ} {V : Type κ} ⦃e : Eq K⦄ (P : V → Type ι) where
  abbrev pub AllValues : Dict K V → Type ι
  AllValues d = All (λ (x : K × V). P x.1) d

  pub AllValues-insert :
      (k : K) (v : V) (d : Dict K V) → P v → AllValues d → AllValues (insert k v d)
  unfolding insert
  AllValues-insert k v [] holds all = (holds, tt)
  AllValues-insert k v ((j, w) ∷ d) holds (first, rest) = elim (Bool-cases (j == k)) [
    | inl same ↦ rw (same, insert) (holds, rest)
    | inr differ ↦ rw (differ, insert) (first, AllValues-insert k v d holds rest)
  ]

  pub AllValues-remove : (k : K) (d : Dict K V) → AllValues d → AllValues (remove k d)
  unfolding remove
  AllValues-remove k [] all = tt
  AllValues-remove k ((j, w) ∷ d) (first, rest) = elim (Bool-cases (j == k)) [
    | inl same ↦ rw (same, remove) (AllValues-remove k d rest)
    | inr differ ↦ rw (differ, remove) (first, AllValues-remove k d rest)
  ]

  pub AllValues-lookup : (k : K) (d : Dict K V) (v : V) → AllValues d → lookup k d ≡ some v → P v
  unfolding lookup
  AllValues-lookup k [] v all found = cc
  AllValues-lookup k ((j, w) ∷ d) v (first, rest) found = elim (Bool-cases (j == k)) [
    | inl same ↦ subst P (some-injective w v (rw (same, lookup) at found)) first
    | inr differ ↦ AllValues-lookup k d v rest (rw (differ, lookup) at found)
  ]

module _ {ℓ κ} {K : Type ℓ} {V : Type κ} ⦃e : Eq K⦄ where
  -- Inserting under a key that is there replaces its value.
  pub length-insert_there :
      (k : K) (v w : V) (d : Dict K V) → lookup k d ≡ some w → length (insert k v d) ≡ length d
  unfolding insert lookup
  length-insert_there k v w [] found = cc
  length-insert_there k v w ((j, x) ∷ d) found = elim (Bool-cases (j == k)) [
    | inl same ↦ rw (same, insert)
    | inr differ ↦
        rw (differ, insert) (ap suc (length-insert_there k v w d (rw (differ, lookup) at found)))
  ]
