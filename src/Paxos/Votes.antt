-- ===== src/Paxos/Votes.antt =====
-- Two majorities share a voter.
use doom_draft.Base.{
  ℕ, zero, suc, ◌+◌, ◌≤◌, ◌<◌, ◌≡◌, refl, Bool, true, false, List, [], ◌∷◌, ◌⊎◌, inl, inr, length,
  get_or, set, replicate, arith, ap,
}
use doom_draft.Paxos.Election.{count_true}

pub common_voter :
    (v w : List Bool)
    → length v ≡ length w
    → length v < count_true v + count_true w
    → (s : ℕ) × (get_or v s false ≡ true) × (get_or w s false ≡ true)
unfolding count_true
common_voter [] [] e h = absurd (omega arith)
common_voter [] (y ∷ w) e h = absurd (omega arith)
common_voter (x ∷ v) [] e h = absurd (omega arith)
common_voter (true ∷ v) (true ∷ w) e h = (0, refl, refl)
common_voter (true ∷ v) (false ∷ w) e h =
    let (s, a, b) = common_voter v w (omega arith) (omega arith) in (suc s, a, b)
common_voter (false ∷ v) (true ∷ w) e h =
    let (s, a, b) = common_voter v w (omega arith) (omega arith) in (suc s, a, b)
common_voter (false ∷ v) (false ∷ w) e h =
    let (s, a, b) = common_voter v w (omega arith) (omega arith) in (suc s, a, b)

pub length-set : (l : List Bool) (i : ℕ) (v : Bool) → length (set l i v) ≡ length l
length-set [] i v = refl
length-set (x ∷ l) zero v = refl
length-set (x ∷ l) (suc i) v = ap suc (length-set l i v)

pub length-replicate : (n : ℕ) (v : Bool) → length (replicate n v) ≡ n
length-replicate zero v = refl
length-replicate (suc n) v = ap suc (length-replicate n v)

-- Who votes after one vote is added.
pub get_or-set-true :
    (l : List Bool) (i s : ℕ)
    → get_or (set l i true) s false ≡ true
    → (s ≡ i) ⊎ (get_or l s false ≡ true)
get_or-set-true [] i s h = cc
get_or-set-true (x ∷ l) zero zero h = inl refl
get_or-set-true (x ∷ l) zero (suc s) h = inr h
get_or-set-true (x ∷ l) (suc i) zero h = inr h
get_or-set-true (x ∷ l) (suc i) (suc s) h = ground (arith, get_or-set-true l i s h)

pub get_or-replicate-false : (n s : ℕ) → get_or (replicate n false) s false ≡ false
get_or-replicate-false zero s = refl
get_or-replicate-false (suc n) zero = refl
get_or-replicate-false (suc n) (suc s) = get_or-replicate-false n s

pub count-set-true : (l : List Bool) (i : ℕ) → i < length l → 1 ≤ count_true (set l i true)
unfolding count_true
count-set-true [] i h = absurd (omega arith)
count-set-true (x ∷ l) zero h = omega arith
count-set-true (true ∷ l) (suc i) h = omega (arith, count-set-true l i (omega arith))
count-set-true (false ∷ l) (suc i) h = count-set-true l i (omega arith)
