-- ===== src/Collections/Laws.antt =====
-- What a reader of a set or of a map sees after it was built.
use taller_mecario_b.Base.{
  Bool, true, ◌||◌, none, Option, List, [], ◌∷◌, ◌++◌, some, ◌≡◌, refl, sym, ap, ◌∙◌, arith, Key,
  ◌==◌, ==_sound, any-append, if◌then◌else◌, Bool-cases, inl, inr,
}
use taller_mecario_b.Collections.{has, add, add_all, frozen_set, get, set, set_all, frozen_map}

or_absorb : (b c : Bool) → (c ≡ true → b ≡ true) → b || c ≡ b
or_absorb b c h = ground arith

module _ {ℓ} {A : Type ℓ} ⦃key : Key A⦄ where
  pub has-add : (a x : A) (xs : List A) → has a (add x xs) ≡ has a xs || (x == a)
  has-add a x xs = elim (Bool-cases (has x xs)) [
    | inl old ↦ rw old (sym (or_absorb (has a xs) (x == a) (λ h. subst_has (==_sound x a h) old)))
    | inr new ↦ rw new (rw (any-append (λ y. y == a) xs (x ∷ [])) (ground arith))
  ]
    where
      subst_has : {y : A} → x ≡ y → has x xs ≡ true → has y xs ≡ true
      subst_has p h = rw (← p) h

  has-add_all : (a : A) (seen xs : List A) → has a (add_all seen xs) ≡ has a seen || has a xs
  unfolding add_all
  has-add_all a seen [] = ground arith
  has-add_all a seen (x ∷ xs) = has-add_all a (add x seen) xs ∙ rw (has-add a x seen) (ground arith)

  -- A frozen set has the members that it was built from.
  pub has-frozen_set : (a : A) (xs : List A) → has a (frozen_set xs) ≡ has a xs
  unfolding frozen_set
  has-frozen_set a xs = has-add_all a [] xs

module _ {κ} {V : Type κ} where
  abbrev or_else : Option V → Option V → Option V
  or_else none d = d
  or_else (some v) d = some v

  or_else-none :
      (o : Option V) (b : Bool) → (if b then or_else o none else none) ≡ (if b then o else none)
  or_else-none o b = ground arith

  -- Setting a key of the table again changes nothing.
  or_else_twice :
      (o o' d : Option V) (same later : Bool)
      → (same ≡ true → o ≡ o')
      → (if later
          then or_else o' (if same then or_else o d else d)
          else if same
          then or_else o d
          else d)
        ≡ (if same || later then or_else o' d else d)
  or_else_twice o o' d same later h = ground (arith, h)

module _ {ℓ κ} {K : Type ℓ} {V : Type κ} ⦃key : Key K⦄ where
  pub get-set :
      (k j : K) (v : V) (m : List (K × V))
      → get j (set k v m) ≡ (if k == j then some v else get j m)
  unfolding get set
  get-set k j v [] = refl
  get-set k j v ((i, w) ∷ m) =
      ground (arith, key.same_iff k j, key.same_iff i k, key.same_iff i j, get-set k j v m)

  -- The entries of a table: a key for which the function has no value gets no entry.
  abbrev pub table_entry : K → Option V → List (K × V)
  table_entry k none = []
  table_entry k (some v) = (k, v) ∷ []

  unfoldable pub table : (K → Option V) → List K → List (K × V)
  table f [] = []
  table f (k ∷ ks) = table_entry k (f k) ++ table f ks

  abbrev set_if : K → Option V → List (K × V) → List (K × V)
  set_if k none m = m
  set_if k (some v) m = set k v m

  set_all-table_entry :
      (k : K) (o : Option V) (es m : List (K × V))
      → set_all m (table_entry k o ++ es) ≡ set_all (set_if k o m) es
  unfolding set_all
  set_all-table_entry k none es m = refl
  set_all-table_entry k (some v) es m = refl

  get-set_if :
      (j k : K) (o : Option V) (m : List (K × V))
      → get k (set_if j o m) ≡ (if j == k then or_else o (get k m) else get k m)
  get-set_if j k none m = ground arith
  get-set_if j k (some v) m = ground (arith, get-set j k v m)

  get-set_all :
      (f : K → Option V) (k : K) (ks : List K) (m : List (K × V))
      → get k (set_all m (table f ks)) ≡ (if has k ks then or_else (f k) (get k m) else get k m)
  unfolding set_all table
  get-set_all f k [] m = refl
  get-set_all f k (j ∷ ks) m =
      ap (get k) (set_all-table_entry j (f j) (table f ks) m)
      ∙ get-set_all f k ks (set_if j (f j) m)
      ∙ rw (get-set_if j k (f j) m)
          (or_else_twice (f j) (f k) (get k m) (j == k) (has k ks) (λ h. ap f (==_sound j k h)))

  -- A read-only map of the entries of a table has the values of its function.
  pub get-frozen_map-table :
      (f : K → Option V) (k : K) (ks : List K)
      → get k (frozen_map (table f ks)) ≡ (if has k ks then f k else none)
  unfolding frozen_map get
  get-frozen_map-table f k ks = get-set_all f k ks [] ∙ or_else-none (f k) (has k ks)
