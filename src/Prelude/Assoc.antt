-- ===== src/Prelude/Assoc.antt =====
-- `std::unordered_map` as a list of entries with distinct keys. The order of the entries stands for
-- the map's order of iteration, which the standard leaves open.
use my_testserver.Prelude.{
  ◌≡◌, ◌≢◌, refl, ◌↔◌, Bool, true, false, Option, none, some, List, [], ◌∷◌, arith, if◌then◌else◌,
}

-- A test of keys for equality.
pub record Keys {ℓ} (K : Type ℓ) : Type ℓ where
  pub same : K → K → Bool
  pub same_iff : (a b : K) → (same a b ≡ true) ↔ (a ≡ b)

module _ {ℓ κ} {K : Type ℓ} {V : Type κ} ⦃keys : Keys K⦄ where
  -- `find(k)`, with the value.
  unfoldable pub get : List (K × V) → K → Option V
  get [] k = none
  get ((j, v) ∷ rest) k = if keys.same j k then some v else get rest k

  unfoldable pub has : List (K × V) → K → Bool
  has [] k = false
  has ((j, v) ∷ rest) k = if keys.same j k then true else has rest k

  -- `m[k] = v`.
  unfoldable pub assign : List (K × V) → K → V → List (K × V)
  assign [] k v = (k, v) ∷ []
  assign ((j, w) ∷ rest) k v = if keys.same j k then (j, v) ∷ rest else (j, w) ∷ assign rest k v

  -- `erase(k)`.
  pub erase : List (K × V) → K → List (K × V)
  erase [] k = []
  erase ((j, w) ∷ rest) k = if keys.same j k then rest else (j, w) ∷ erase rest k

  -- No key stands twice.
  abbrev pub Distinct : List (K × V) → Type 0
  Distinct [] = Unit {0}
  Distinct ((j, v) ∷ rest) = (has rest j ≡ false) × Distinct rest

  pub has-get :
      (m : List (K × V)) (k : K) → has m k ≡ (elim (get m k) [ none ↦ false | some _ ↦ true ])
  unfolding has get
  has-get [] k = refl
  has-get ((j, v) ∷ rest) k = ground (arith, has-get rest k)

  pub get-assign :
      (m : List (K × V)) (k j : K) (v : V)
      → get (assign m k v) j ≡ (if keys.same k j then some v else get m j)
  unfolding get assign
  get-assign [] k j v = ground arith
  get-assign ((i, w) ∷ rest) k j v =
      ground (arith, keys.same_iff i k, keys.same_iff i j, keys.same_iff k j, get-assign rest k j v)

  -- What is there already is not changed by being assigned again.
  pub assign-get : (m : List (K × V)) (k : K) (v : V) → get m k ≡ some v → assign m k v ≡ m
  unfolding get assign
  assign-get [] k v h = absurd (none≢some v h)
    where
      none≢some : (v : V) → none ≢ some v
      none≢some v e = cc
  assign-get ((i, w) ∷ rest) k v h = ground (arith, assign-get rest k v)

  pub has-assign :
      (m : List (K × V)) (k j : K) (v : V)
      → has (assign m k v) j ≡ (if keys.same k j then true else has m j)
  unfolding has assign
  has-assign [] k j v = ground arith
  has-assign ((i, w) ∷ rest) k j v =
      ground (arith, keys.same_iff i k, keys.same_iff i j, keys.same_iff k j, has-assign rest k j v)

  pub assign-Distinct : (m : List (K × V)) (k : K) (v : V) → Distinct m → Distinct (assign m k v)
  unfolding has assign
  assign-Distinct [] k v d = (refl, tt)
  assign-Distinct ((i, w) ∷ rest) k v d = ground (
    arith,
    keys.same_iff i k,
    keys.same_iff k i,
    has-assign rest k i v,
    assign-Distinct rest k v d.1,
  )

  has-erase_other : (m : List (K × V)) (k j : K) → has m j ≡ false → has (erase m k) j ≡ false
  unfolding has erase
  has-erase_other [] k j h = refl
  has-erase_other ((i, w) ∷ rest) k j h = ground (arith, has-erase_other rest k j)

  pub erase-Distinct : (m : List (K × V)) (k : K) → Distinct m → Distinct (erase m k)
  unfolding has erase
  erase-Distinct [] k d = tt
  erase-Distinct ((i, w) ∷ rest) k d =
      ground (arith, has-erase_other rest k i, erase-Distinct rest k d.1)

  pub get-erase_other :
      (m : List (K × V)) (k j : K) → keys.same k j ≡ false → get (erase m k) j ≡ get m j
  unfolding get erase
  get-erase_other [] k j h = refl
  get-erase_other ((i, w) ∷ rest) k j h =
      ground
        (arith, keys.same_iff i k, keys.same_iff i j, keys.same_iff k j, get-erase_other rest k j h)

  -- With distinct keys, erasing removes the key.
  pub get-erase :
      (m : List (K × V)) (k j : K)
      → Distinct m
      → get (erase m k) j ≡ (if keys.same k j then none else get m j)
  unfolding get erase
  get-erase [] k j d = ground arith
  get-erase ((i, w) ∷ rest) k j d = ground (
    arith,
    keys.same_iff i k,
    keys.same_iff i j,
    keys.same_iff k j,
    has-get rest i,
    get-erase rest k j d.1,
  )
