-- ===== src/OrdMap/Laws.antt =====
-- The laws of the map operations, on entries in order.
use Prim.Native.Nat.{lt}
use doom_draft.Base.{◌≡◌, refl, List, [], ◌∷◌, none, some, if◌then◌else◌, arith}
use doom_draft.OrdMap.{Ord, same_key, find, emplace, assign, erase, Above, Sorted}

module _ {ℓ κ} {K : Type ℓ} {V : Type κ} ⦃o : Ord K⦄ where
  Above-trans : (k j : K) (m : List (K × V)) → o.cmp k j ≡ lt → Above j m → Above k m
  Above-trans k j [] h a = tt
  Above-trans k j ((i, w) ∷ m) h a = (o.cmp_trans k j i h a.0, Above-trans k j m h a.1)

  -- A key below all others is not there.
  pub find-Above : (k : K) (m : List (K × V)) → Above k m → find k m ≡ none
  unfolding find
  find-Above k [] a = refl
  find-Above k ((j, w) ∷ m) a = ground (arith, o.cmp_flip k j, a.0, find-Above k m a.1)

  pub emplace-Above :
      (i k : K) (v : V) (m : List (K × V)) → o.cmp i k ≡ lt → Above i m → Above i (emplace k v m)
  unfolding emplace
  emplace-Above i k v [] h a = (h, tt)
  emplace-Above i k v ((j, w) ∷ m) h a = ground (arith, emplace-Above i k v m h a.1)

  pub assign-Above : (i k : K) (v : V) (m : List (K × V)) → Above i m → Above i (assign k v m)
  unfolding assign
  assign-Above i k v [] a = tt
  assign-Above i k v ((j, w) ∷ m) a = ground (arith, assign-Above i k v m a.1)

  pub erase-Above : (i k : K) (m : List (K × V)) → Above i m → Above i (erase k m)
  unfolding erase
  erase-Above i k [] a = tt
  erase-Above i k ((j, w) ∷ m) a = ground (arith, erase-Above i k m a.1)

  pub emplace-Sorted : (k : K) (v : V) (m : List (K × V)) → Sorted m → Sorted (emplace k v m)
  unfolding emplace
  emplace-Sorted k v [] s = (tt, tt)
  emplace-Sorted k v ((j, w) ∷ m) s =
      ground
        (arith, Above-trans k j m, o.cmp_flip k j, emplace-Above j k v m, emplace-Sorted k v m s.1)

  pub assign-Sorted : (k : K) (v : V) (m : List (K × V)) → Sorted m → Sorted (assign k v m)
  unfolding assign
  assign-Sorted k v [] s = tt
  assign-Sorted k v ((j, w) ∷ m) s =
      ground (arith, assign-Above j k v m s.0, assign-Sorted k v m s.1)

  pub erase-Sorted : (k : K) (m : List (K × V)) → Sorted m → Sorted (erase k m)
  unfolding erase
  erase-Sorted k [] s = tt
  erase-Sorted k ((j, w) ∷ m) s = ground (arith, erase-Above j k m s.0, erase-Sorted k m s.1)

  pub find-emplace :
      (j k : K) (v : V) (m : List (K × V))
      → Sorted m
      → find j (emplace k v m)
        ≡ (if same_key k j then (elim (find k m) [ none ↦ some v | some w ↦ some w ]) else find j m)
  unfolding find emplace
  find-emplace j k v [] s = ground arith
  find-emplace j k v ((i, w) ∷ m) s = ground (
    arith,
    find-emplace j k v m s.1,
    o.cmp_iff k j,
    o.cmp_iff i j,
    o.cmp_iff i k,
    o.cmp_iff k i,
    o.cmp_flip k i,
    find-Above k m,
    Above-trans k i m,
  )

  pub find-assign :
      (j k : K) (v : V) (m : List (K × V))
      → find j (assign k v m)
        ≡ (if same_key k j then (elim (find k m) [ none ↦ none | some w ↦ some v ]) else find j m)
  unfolding find assign
  find-assign j k v [] = ground arith
  find-assign j k v ((i, w) ∷ m) =
      ground (arith, find-assign j k v m, o.cmp_iff k j, o.cmp_iff i j, o.cmp_iff i k)

  pub find-erase :
      (j k : K) (m : List (K × V))
      → Sorted m
      → find j (erase k m) ≡ (if same_key k j then none else find j m)
  unfolding find erase
  find-erase j k [] s = ground arith
  find-erase j k ((i, w) ∷ m) s =
      ground (
        arith,
        find-erase j k m s.1,
        o.cmp_iff k j,
        o.cmp_iff i j,
        o.cmp_iff i k,
        find-Above i m s.0,
      )

  pub emplace_present :
      (k : K) (v w : V) (m : List (K × V)) → Sorted m → find k m ≡ some w → emplace k v m ≡ m
  unfolding find emplace
  emplace_present k v w [] s e = cc
  emplace_present k v w ((j, u) ∷ m) s e = ground (
    arith,
    emplace_present k v w m s.1,
    o.cmp_iff j k,
    o.cmp_flip k j,
    find-Above k m,
    Above-trans k j m,
  )
