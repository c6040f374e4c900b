-- ===== src/Collections.antt =====
-- The read-only collections of src/platform/readonly-collections.ts, over the insertion-ordered
-- `Set` and `Map` of the language: a set is the list of its members without repetition, a map the
-- list of its entries, both in the order of insertion.
pub mod Laws
use taller_mecario_b.Base.{
  Bool, true, false, List, [], ◌∷◌, ◌++◌, Option, none, some, Key, ◌==◌, any, if◌then◌else◌,
}

module _ {ℓ} {A : Type ℓ} ⦃key : Key A⦄ where
  -- `set.has(value)`.
  abbrev pub has : A → List A → Bool
  has a = any (λ x. x == a)

  -- `set.add(value)`: a member keeps its place, a new one goes to the end.
  abbrev pub add : A → List A → List A
  add a xs = if has a xs then xs else xs ++ a ∷ []

  pub add_all : List A → List A → List A
  add_all seen [] = seen
  add_all seen (x ∷ xs) = add_all (add x seen) xs

  -- `new FrozenSet(items)`: a copy of the items, each once.
  unfoldable pub frozen_set : List A → List A
  unfolding add_all
  frozen_set items = add_all [] items

module _ {ℓ κ} {K : Type ℓ} {V : Type κ} ⦃key : Key K⦄ where
  -- `map.get(key)`.
  unfoldable pub get : K → List (K × V) → Option V
  get k [] = none
  get k ((j, v) ∷ m) = if j == k then some v else get k m

  -- `map.set(key, value)`: an old key keeps its place.
  unfoldable pub set : K → V → List (K × V) → List (K × V)
  set k v [] = (k, v) ∷ []
  set k v ((j, w) ∷ m) = if j == k then (k, v) ∷ m else (j, w) ∷ set k v m

  unfoldable pub set_all : List (K × V) → List (K × V) → List (K × V)
  set_all m [] = m
  set_all m ((k, v) ∷ entries) = set_all (set k v m) entries

  -- `new FrozenMap(entries)`: a later entry replaces an earlier one of its key.
  unfoldable pub frozen_map : List (K × V) → List (K × V)
  unfolding set_all
  frozen_map entries = set_all [] entries
