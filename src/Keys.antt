-- ===== src/Keys.antt =====
-- `std::string` as the key of a map: bytes in lexicographic order.
use Prim.Native.Nat.{Ordering, lt, eq, gt, compare}
use doom_draft.Base.{ℕ, ◌≡◌, ◌↔◌, refl, List, [], ◌∷◌, arith}
use doom_draft.OrdMap.{Ord, flip}

unfoldable pub compare_bytes : List ℕ → List ℕ → Ordering
compare_bytes [] [] = eq
compare_bytes [] (b ∷ t) = lt
compare_bytes (a ∷ s) [] = gt
compare_bytes (a ∷ s) (b ∷ t) = elim (compare a b) [ lt ↦ lt | eq ↦ compare_bytes s t | gt ↦ gt ]

pub compare_bytes_iff : (s t : List ℕ) → (compare_bytes s t ≡ eq) ↔ (s ≡ t)
unfolding compare_bytes
compare_bytes_iff [] [] = ground arith
compare_bytes_iff [] (b ∷ t) = ground arith
compare_bytes_iff (a ∷ s) [] = ground arith
compare_bytes_iff (a ∷ s) (b ∷ t) = ground (arith, compare_bytes_iff s t)

pub compare_bytes-flip : (s t : List ℕ) → compare_bytes t s ≡ flip (compare_bytes s t)
unfolding compare_bytes
compare_bytes-flip [] [] = refl
compare_bytes-flip [] (b ∷ t) = refl
compare_bytes-flip (a ∷ s) [] = refl
compare_bytes-flip (a ∷ s) (b ∷ t) = ground (arith, compare_bytes-flip s t)

pub compare_bytes_trans :
    (s t u : List ℕ) → compare_bytes s t ≡ lt → compare_bytes t u ≡ lt → compare_bytes s u ≡ lt
unfolding compare_bytes
compare_bytes_trans [] [] u h k = cc
compare_bytes_trans [] (b ∷ t) [] h k = cc
compare_bytes_trans [] (b ∷ t) (c ∷ u) h k = refl
compare_bytes_trans (a ∷ s) [] u h k = cc
compare_bytes_trans (a ∷ s) (b ∷ t) [] h k = cc
compare_bytes_trans (a ∷ s) (b ∷ t) (c ∷ u) h k = ground (arith, compare_bytes_trans s t u)

instance abbrev pub bytes_ord : Ord (List ℕ)
bytes_ord = record {
  cmp = compare_bytes;
  cmp_iff = compare_bytes_iff;
  cmp_flip = compare_bytes-flip;
  cmp_trans = compare_bytes_trans;
}
