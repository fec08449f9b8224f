-- ===== src/Paxos/Promises.antt =====
-- What every reachable cluster keeps: each replica's vote, and the promises that were sent.
use doom_draft.Base.{
  ℕ, ◌+◌, ◌≤◌, ◌<◌, ◌≡◌, refl, sym, ◌∙◌, ap, subst, Bool, List, [], ◌∷◌, ◌++◌, some, ◌⊎◌, inl, inr,
  word, arith, dec_lt,
}
use doom_draft.Paxos.State.{probe, prepare, propose, ack, Send, to_replica, to_client}
use doom_draft.Paxos.Ballot.{Ballot, ballot}
use doom_draft.Paxos.Moves.{
  Move, stay, step_down, vote, vote_newer, stand, stand_alone, count, elect, Casts,
}
use doom_draft.Paxos.Elected.{Heard, promise_of, BackedBy, Node}
use doom_draft.Paxos.Cluster.{Cluster, In}

-- Rounds only grow, and a promise stands for as long as its round does.
abbrev pub Continues : Ballot → Ballot → Type 0
Continues b b' =
    (b.index ≡ b'.index)
    × (b.nreplicas ≡ b'.nreplicas)
    × (b.round ≤ b'.round)
    × (b.round ≡ b'.round → (l : ℕ) → b.promised ≡ some l → b'.promised ≡ some l)

pub Move-Continues :
    (first : ℕ) (sent : List Send) (Hear : ℕ → ℕ → Type 0) (b b' : Ballot)
    → b.round + 1 < word
    → Move Hear b b'
    → Node first sent b
    → Continues b b'
Move-Continues first sent Hear b b' w (stay e) n =
    subst (Continues b) (sym e) (refl, refl, omega arith, λ f l p. p)
Move-Continues first sent Hear b b' w (step_down round h e) n =
    subst (Continues b) (sym e)
      (ground arith, ground arith, ground arith, λ f l p. ground (arith, f, p, h))
Move-Continues first sent Hear b b' w (vote l h e) n =
    subst (Continues b) (sym e) (refl, refl, omega arith, λ f k p. ground (arith, h, p))
Move-Continues first sent Hear b b' w (vote_newer round l h e) n =
    subst (Continues b) (sym e)
      (ground arith, ground arith, ground arith, λ f k p. absurd (ground (arith, f, h)))
Move-Continues first sent Hear b b' w (stand e) n =
    subst (Continues b) (sym e) (refl, refl, omega arith, λ f k p. absurd (omega (arith, f)))
Move-Continues first sent Hear b b' w (stand_alone q e) n =
    subst (Continues b) (sym e) (refl, refl, omega arith, λ f k p. absurd (omega (arith, f)))
Move-Continues first sent Hear b b' w (count s heard c e) n =
    subst (Continues b) (sym e) (refl, refl, omega arith, λ f k p. p)
Move-Continues first sent Hear b b' w (elect s heard c q e) n =
    subst (Continues b) (sym e) (refl, refl, omega arith, λ f k p. sym (n.own (λ g. cc (c, g))) ∙ p)

pub In-append : {A : Type 0} (a : A) (l k : List A) → In a (l ++ k) → In a l ⊎ In a k
In-append a [] k h = inr h
In-append a (x ∷ l) k (inl e) = inl (inl e)
In-append a (x ∷ l) k (inr h) = elim (In-append a l k h) [ inl g ↦ inl (inr g) | inr g ↦ inr g ]

pub append-In : {A : Type 0} (a : A) (l k : List A) → In a k → In a (l ++ k)
append-In a [] k h = h
append-In a (x ∷ l) k h = inr (append-In a l k h)

-- Where a promise that a replica hands to its channels comes from.
pub Casts-Heard :
    (b : Ballot) (l : List Send) (d s round : ℕ)
    → Casts b l
    → Heard l d s round
    → (round ≡ b.round) × (s ≡ b.index) × (b.promised ≡ some d)
Casts-Heard b [] d s round c h = absurd h
Casts-Heard b (to_client resp ∷ l) d s round c (inl e) = absurd (cc e)
Casts-Heard b (to_client resp ∷ l) d s round c (inr h) = Casts-Heard b l d s round c h
Casts-Heard b (to_replica k (probe m) ∷ l) d s round c (inl e) = absurd (cc e)
Casts-Heard b (to_replica k (probe m) ∷ l) d s round c (inr h) = Casts-Heard b l d s round c h
Casts-Heard b (to_replica k (prepare m) ∷ l) d s round (f, c) (inl e) =
    let (at, in_name, of) = f (cc e) in
    let to : d ≡ k = cc e in
    let same : round ≡ m.round = cc e in
    let by : s ≡ m.server = cc e in (same ∙ at, by ∙ in_name, of ∙ ap some (sym to))
Casts-Heard b (to_replica k (prepare m) ∷ l) d s round (f, c) (inr h) =
    Casts-Heard b l d s round c h
Casts-Heard b (to_replica k (propose m) ∷ l) d s round c (inl e) = absurd (cc e)
Casts-Heard b (to_replica k (propose m) ∷ l) d s round c (inr h) = Casts-Heard b l d s round c h
Casts-Heard b (to_replica k (ack m) ∷ l) d s round c (inl e) = absurd (cc e)
Casts-Heard b (to_replica k (ack m) ∷ l) d s round c (inr h) = Casts-Heard b l d s round c h

Backed-more :
    (sent more : List Send) (b : Ballot) (votes : List Bool)
    → BackedBy sent b votes
    → BackedBy (more ++ sent) b votes
Backed-more sent more b votes (l, h) = (
  l,
  λ s g. elim (h s g) [
    | inl e ↦ inl e
    | inr k ↦ inr (append-In (to_replica b.index (promise_of s b.round)) more sent k)
  ],
)

pub Node-more :
    (first : ℕ) (sent more : List Send) (b : Ballot)
    → Node first sent b
    → Node first (more ++ sent) b
Node-more first sent more b n = record {
  member = n.member;
  own = n.own;
  started = n.started;
  counted = λ c. Backed-more sent more b b.prepare_ok (n.counted c);
  elected = λ l. elim (n.elected l) [
    | inl e ↦ inl e
    | inr (votes, p, h, q) ↦ inr (votes, p, Backed-more sent more b votes h, q)
  ];
}

-- The replica has left the round, or still promises it to `d`.
abbrev pub Kept : Ballot → ℕ → ℕ → Type 0
Kept b round d = (round < b.round) ⊎ ((round ≡ b.round) × (b.promised ≡ some d))

pub Continues-Kept :
    (b b' : Ballot) (round d : ℕ) → Continues b b' → Kept b round d → Kept b' round d
Continues-Kept b b' round d (i, m, r, p) (inl h) = inl (omega arith)
Continues-Kept b b' round d (i, m, r, p) (inr (e, h)) = elim (dec_lt b.round b'.round) [
  | yes g ↦ inl (omega arith)
  | no g ↦ let same : b.round ≡ b'.round = omega arith in inr (e ∙ same, p same d h)
]

pub record Safe (n first : ℕ) (c : Cluster) : Type 0 where
  pub placed : (i : ℕ) → (c.replicas i).index ≡ i
  pub sized : (i : ℕ) → (c.replicas i).nreplicas ≡ n
  pub nodes : (i : ℕ) → i < n → Node first c.sent (ballot (c.replicas i))
  pub kept : (d s round : ℕ) → Heard c.sent d s round → Kept (ballot (c.replicas s)) round d
  pub once : (d d' s round : ℕ) → Heard c.sent d s round → Heard c.sent d' s round → d ≡ d'
