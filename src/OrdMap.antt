-- ===== src/OrdMap.antt =====
-- `std::map`: a list of entries in the order of the keys. The source's maps are keyed by strings
-- (pset4/pancydb.hh) and by log slots (pset4/pt-paxos.cc).
pub mod Laws
use Prim.Native.Nat.{Ordering, lt, eq, gt, compare}
use doom_draft.Base.{
  ℕ, ◌≡◌, ◌↔◌, refl, Bool, true, false, List, [], ◌∷◌, Option, none, some, if◌then◌else◌, arith,
}

abbrev pub flip : Ordering → Ordering
flip lt = gt
flip eq = eq
flip gt = lt

-- A strict total order, as a three-way comparison.
pub record Ord {ℓ} (K : Type ℓ) : Type ℓ where
  pub cmp : K → K → Ordering
  pub cmp_iff : (a b : K) → (cmp a b ≡ eq) ↔ (a ≡ b)
  pub cmp_flip : (a b : K) → cmp b a ≡ flip (cmp a b)
  pub cmp_trans : (a b c : K) → cmp a b ≡ lt → cmp b c ≡ lt → cmp a c ≡ lt

abbrev pub same_key {ℓ} : {K : Type ℓ} ⦃o : Ord K⦄ → K → K → Bool
same_key ⦃o⦄ a b = elim (o.cmp a b) [ lt ↦ false | eq ↦ true | gt ↦ false ]

module _ {ℓ κ} {K : Type ℓ} {V : Type κ} ⦃o : Ord K⦄ where
  -- `map.find(k)`.
  unfoldable pub find : K → List (K × V) → Option V
  find k [] = none
  find k ((j, v) ∷ m) = if same_key j k then some v else find k m

  -- `map.emplace(k, v)`: an entry that is there stays.
  unfoldable pub emplace : K → V → List (K × V) → List (K × V)
  emplace k v [] = (k, v) ∷ []
  emplace k v ((j, w) ∷ m) = elim (o.cmp k j) [
    | lt ↦ (k, v) ∷ (j, w) ∷ m
    | eq ↦ (j, w) ∷ m
    | gt ↦ (j, w) ∷ emplace k v m
  ]

  -- A write through the iterator of an entry that is there.
  unfoldable pub assign : K → V → List (K × V) → List (K × V)
  assign k v [] = []
  assign k v ((j, w) ∷ m) = if same_key j k then (j, v) ∷ m else (j, w) ∷ assign k v m

  -- `map.erase(it)`.
  unfoldable pub erase : K → List (K × V) → List (K × V)
  erase k [] = []
  erase k ((j, w) ∷ m) = if same_key j k then m else (j, w) ∷ erase k m

  -- Every key of `m` is greater than `k`.
  abbrev pub Above : K → List (K × V) → Type 0
  Above k [] = Unit
  Above k ((j, w) ∷ m) = (o.cmp k j ≡ lt) × Above k m

  abbrev pub Sorted : List (K × V) → Type 0
  Sorted [] = Unit
  Sorted ((k, v) ∷ m) = Above k m × Sorted m
