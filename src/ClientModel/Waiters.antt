-- ===== src/ClientModel/Waiters.antt =====
-- Waiters take only what is theirs, in any order.
use doom_draft.Base.{
  ℕ, ◌≡◌, ◌≢◌, refl, sym, ◌∙◌, ap, subst, true, false, List, [], ◌∷◌, ◌++◌, Option, none, some,
  Bool-cases, inl, inr, arith,
}
use doom_draft.Msgs.{Response, response_serial}
use doom_draft.ClientModel.{for_other, queue_past, take_response}

-- No queued response has the serial.
abbrev pub NoneOf : ℕ → List Response → Type 0
NoneOf serial [] = Unit
NoneOf serial (m ∷ inq) = (response_serial m ≢ serial) × NoneOf serial inq

pub for_other-own :
    (serial : ℕ) (m : Response) → for_other serial m ≡ false → response_serial m ≡ serial
for_other-own serial m e = ground (arith, e)

for_other-Other :
    (serial : ℕ) (m : Response) → for_other serial m ≡ true → response_serial m ≢ serial
for_other-Other serial m e f = absurd (ground (arith, e, f))

past-some :
    (m : Response) (o : Option (Response × List Response)) (x : Response) (q : List Response)
    → queue_past m o ≡ some (x, q)
    → (r : List Response) × (o ≡ some (x, r)) × (q ≡ m ∷ r)
past-some m none x q e = absurd cc
past-some m (some (y, r)) x q e = (r, cc, cc)

take-own :
    (serial : ℕ) (x : Response) (inq : List Response)
    → for_other serial x ≡ false
    → take_response serial (x ∷ inq) ≡ some (x, inq)
unfolding take_response
take-own serial x inq o = rw o refl

take-other :
    (serial : ℕ) (x : Response) (inq : List Response)
    → for_other serial x ≡ true
    → take_response serial (x ∷ inq) ≡ queue_past x (take_response serial inq)
unfolding take_response
take-other serial x inq o = rw o refl

taken_own :
    (serial : ℕ) (x : Response) (inq : List Response) (m : Response) (rest : List Response)
    → for_other serial x ≡ false
    → take_response serial (x ∷ inq) ≡ some (m, rest)
    → (m ≡ x) × (rest ≡ inq)
taken_own serial x inq m rest o e = let f = sym (take-own serial x inq o) ∙ e in (cc, cc)

taken_later :
    (serial : ℕ) (x : Response) (inq : List Response) (m : Response) (rest : List Response)
    → for_other serial x ≡ true
    → take_response serial (x ∷ inq) ≡ some (m, rest)
    → (r : List Response) × (take_response serial inq ≡ some (m, r)) × (rest ≡ x ∷ r)
taken_later serial x inq m rest o e =
    past-some x (take_response serial inq) m rest (sym (take-other serial x inq o) ∙ e)

taken_nothing :
    (serial : ℕ) (m : Response) (rest : List Response) → take_response serial [] ≢ some (m, rest)
unfolding take_response
taken_nothing serial m rest e = cc

-- Taking a response splits the queue: what is taken is the oldest response with the serial, and
-- the others stay in their order.
pub take_response-NoneOf :
    (serial : ℕ) (inq : List Response) (m : Response) (rest : List Response)
    → take_response serial inq ≡ some (m, rest)
    → (front : List Response) × (back : List Response) × (inq ≡ front ++ m ∷ back)
      × (rest ≡ front ++ back)
      × (response_serial m ≡ serial)
      × NoneOf serial front
take_response-NoneOf serial [] m rest e = absurd (taken_nothing serial m rest e)
take_response-NoneOf serial (x ∷ inq) m rest e = elim (Bool-cases (for_other serial x)) [
  | inl o ↦
      let (r, f, g) = taken_later serial x inq m rest o e in
      let (front, back, i, j, s, n) = take_response-NoneOf serial inq m r f in
      (
        x ∷ front,
        back,
        ap (λ (l : List Response). x ∷ l) i,
        g ∙ ap (λ (l : List Response). x ∷ l) j,
        s,
        (for_other-Other serial x o, n),
      )
  | inr o ↦
      let (i, j) = taken_own serial x inq m rest o e in
      (
        [],
        inq,
        ap (λ (y : Response). y ∷ inq) (sym i),
        j,
        ap response_serial i ∙ for_other-own serial x o,
        tt,
      )
]

own_other : (s t : ℕ) (x : Response) → s ≢ t → for_other s x ≡ false → for_other t x ≡ true
own_other s t x d o = elim (Bool-cases (for_other t x)) [
  | inl e ↦ e
  | inr e ↦ absurd (d (sym (for_other-own s x o) ∙ for_other-own t x e))
]

-- Two waiters with different serials that take their responses one after the other take the same
-- responses, and leave the same queue, when they take them in the other order.
pub take_response_commute :
    (s t : ℕ) (inq : List Response) (m n : Response) (q r : List Response)
    → s ≢ t
    → take_response s inq ≡ some (m, q)
    → take_response t q ≡ some (n, r)
    → (p : List Response) × (take_response t inq ≡ some (n, p)) × (take_response s p ≡ some (m, r))
take_response_commute s t [] m n q r d e f = absurd (taken_nothing s m q e)
take_response_commute s t (x ∷ inq) m n q r d e f = elim (Bool-cases (for_other s x)) [
  | inr o ↦
      let (i, j) = taken_own s x inq m q o e in
      let g : take_response t inq ≡ some (n, r) =
        subst (λ (l : List Response). take_response t l ≡ some (n, r)) j f in
      (
        x ∷ r,
        take-other t x inq (own_other s t x d o) ∙ ap (queue_past x) g,
        take-own s x r o ∙ ap (λ (y : Response). some (y, r)) (sym i),
      )
  | inl o ↦
      let (q', g, h) = taken_later s x inq m q o e in
      let f' : take_response t (x ∷ q') ≡ some (n, r) =
        subst (λ (l : List Response). take_response t l ≡ some (n, r)) h f in
      elim (Bool-cases (for_other t x)) [
        | inr u ↦
            let (i, j) = taken_own t x q' n r u f' in
            (
              inq,
              take-own t x inq u ∙ ap (λ (y : Response). some (y, inq)) (sym i),
              g ∙ ap (λ (l : List Response). some (m, l)) (sym j),
            )
        | inl u ↦
            let (r', k, l) = taken_later t x q' n r u f' in
            let (p, a, b) = take_response_commute s t inq m n q' r' d g k in
            (
              x ∷ p,
              take-other t x inq u ∙ ap (queue_past x) a,
              take-other s x p o
                  ∙ ap (queue_past x) b
                  ∙ ap (λ (y : List Response). some (m, y)) (sym l),
            )
      ]
]
