-- ===== src/Paxos/Safety.antt =====
-- At most one leader for each round: the invariant of the cluster, step by step.
use doom_draft.Base.{
  ℕ, ◌+◌, ◌≤◌, ◌<◌, ◌≡◌, refl, sym, ◌∙◌, subst, Bool, List, [], ◌++◌, some, inl, inr, if_both,
  if_cases, if◌then◌else◌, ◌==◌, ==_iff, word, arith,
}
use doom_draft.Paxos.State.{Replica, leader, Send, to_replica, new_replica}
use doom_draft.Paxos.Role.{initialize, become_leader}
use doom_draft.Paxos.Election.{count_true}
use doom_draft.Paxos.Run.{run_round}
use doom_draft.Paxos.Ballot.{ballot}
use doom_draft.Paxos.Moves.{Move, Effect, majority}
use doom_draft.Paxos.Votes.{common_voter}
use doom_draft.Paxos.Elected.{
  Heard, promise_of, Backed, BackedBy, Node, Move-Node, run_round-Effect,
}
use doom_draft.Paxos.Promises.{
  Continues, Move-Continues, In-append, Casts-Heard, Node-more, Kept, Continues-Kept, Safe,
}
use doom_draft.Paxos.Cluster.{Cluster, after, new_cluster, Step, turn, Reach, here, next}

-- A property of each replica, once one has moved.
moved :
    (P : ℕ → Replica → Type 0) (f : ℕ → Replica) (i : ℕ) (r : Replica)
    → P i r
    → ((j : ℕ) → P j (f j))
    → (j : ℕ) → P j (if j == i then r else f j)
moved P f i r h k j =
    if_cases (P j) (j == i) (λ e. subst (λ m. P m r) (sym ((==_iff j i).0 e)) h) (λ e. k j)

module _ (n first : ℕ) (c : Cluster) (i : ℕ) (r : Replica) (sends : List Send)
    (safe : Safe n first c) (member : i < n) (room : (c.replicas i).current_round + 1 < word)
    (effect : Effect (Heard c.sent i) (ballot (c.replicas i)) (r, sends)) where
  node : Node first c.sent (ballot (c.replicas i))
  node = safe.nodes i member

  goes_on : Continues (ballot (c.replicas i)) (ballot r)
  goes_on =
      Move-Continues first c.sent (Heard c.sent i) (ballot (c.replicas i)) (ballot r) room effect.0
        node

  after-Node : Node first c.sent (ballot r)
  after-Node =
      Move-Node first c.sent (ballot (c.replicas i)) (ballot r) room
        (subst (λ k. Move (Heard c.sent k) (ballot (c.replicas i)) (ballot r)) (sym (safe.placed i))
          effect.0)
        node

  placed_after : r.index ≡ i
  placed_after = sym goes_on.0 ∙ safe.placed i

  after-nodes :
      (j : ℕ) → j < n → Node first (sends ++ c.sent) (ballot ((after c i (r, sends)).replicas j))
  after-nodes =
      moved (λ j q. j < n → Node first (sends ++ c.sent) (ballot q)) c.replicas i r
        (λ h. Node-more first c.sent sends (ballot r) after-Node)
        (λ j h. Node-more first c.sent sends (ballot (c.replicas j)) (safe.nodes j h))

  -- A new promise is the vote that its sender now holds.
  new_promise :
      (d s round : ℕ)
      → Heard sends d s round
      → (s ≡ i) × (round ≡ r.current_round) × (r.promised_leader ≡ some d)
  new_promise d s round h =
      let (e, f, g) = Casts-Heard (ballot r) sends d s round effect.1 h in (f ∙ placed_after, e, g)

  old_promise :
      (d s round : ℕ)
      → Heard c.sent d s round
      → Kept (ballot ((after c i (r, sends)).replicas s)) round d
  old_promise d s round =
      moved (λ j q. Heard c.sent d j round → Kept (ballot q) round d) c.replicas i r
        (λ h.
          Continues-Kept (ballot (c.replicas i)) (ballot r) round d goes_on (safe.kept d i round h))
        (λ j h. safe.kept d j round h) s

  after-Kept :
      (d s round : ℕ)
      → Heard (sends ++ c.sent) d s round
      → Kept (ballot ((after c i (r, sends)).replicas s)) round d
  after-Kept d s round h = elim (In-append (to_replica d (promise_of s round)) sends c.sent h) [
    | inr g ↦ old_promise d s round g
    | inl g ↦
        let (e, f, k) = new_promise d s round g in
        subst (λ m. Kept (ballot ((after c i (r, sends)).replicas m)) round d) (sym e)
          (if_cases (λ q. Kept (ballot q) round d) (i == i) (λ _. inr (f, k))
            (λ no_match. absurd (ground arith)))
  ]

  old_new : (d d' s round : ℕ) → Heard c.sent d s round → Heard sends d' s round → d ≡ d'
  old_new d d' s round g g' =
      let (e, f, k) = new_promise d' s round g' in
      let old =
        Continues-Kept (ballot (c.replicas i)) (ballot r) round d goes_on
          (safe.kept d i round (subst (λ m. Heard c.sent d m round) e g)) in
      elim old [ inl lt ↦ absurd (omega (arith, f)) | inr (_, p) ↦ cc (p, k) ]

  after-once :
      (d d' s round : ℕ)
      → Heard (sends ++ c.sent) d s round
      → Heard (sends ++ c.sent) d' s round
      → d ≡ d'
  after-once d d' s round h h' =
      elim (In-append (to_replica d (promise_of s round)) sends c.sent h) [
        | inl g ↦ elim (In-append (to_replica d' (promise_of s round)) sends c.sent h') [
          | inl g' ↦
              let (e, f, k) = new_promise d s round g in
              let (e', f', k') = new_promise d' s round g' in cc (k, k')
          | inr g' ↦ sym (old_new d' d s round g' g)
        ]
        | inr g ↦ elim (In-append (to_replica d' (promise_of s round)) sends c.sent h') [
          | inl g' ↦ old_new d d' s round g g'
          | inr g' ↦ safe.once d d' s round g g'
        ]
      ]

  after-Safe : Safe n first (after c i (r, sends))
  after-Safe = record {
    placed = moved (λ j q. q.index ≡ j) c.replicas i r placed_after safe.placed;
    sized = moved (λ j q. q.nreplicas ≡ n) c.replicas i r (sym goes_on.1 ∙ safe.sized i) safe.sized;
    nodes = after-nodes;
    kept = after-Kept;
    once = after-once;
  }

Step-Safe : (n first : ℕ) (c c' : Cluster) → Step n c c' → Safe n first c → Safe n first c'
Step-Safe n first c c' (turn i now w member d room e) safe =
    let p = run_round now (c.replicas i) w in
    subst (Safe n first) (sym e) (
      after-Safe n first c i p.0 p.1 safe member room (run_round-Effect c i now (c.replicas i) w d))

new_replica-Node :
    (n first i : ℕ) (draws : ℕ → ℕ)
    → i < n
    → Node first [] (ballot (initialize (new_replica i n draws) first))
unfolding initialize new_replica become_leader
new_replica-Node n first i draws h =
    if_cases (λ r. Node first [] (ballot r)) (i == first)
      (λ e. record {
        member = h;
        own = λ _. refl;
        started = λ c. cc;
        counted = λ c. absurd (cc c);
        elected = λ _. inl (refl, (==_iff i first).0 e);
      })
      (λ e. record {
        member = h;
        own = λ f. absurd (f refl);
        started = λ c. cc;
        counted = λ c. absurd (cc c);
        elected = λ l. absurd (cc l);
      })

new_cluster-Safe : (n first : ℕ) (draws : ℕ → ℕ → ℕ) → Safe n first (new_cluster n first draws)
unfolding new_cluster initialize new_replica become_leader
new_cluster-Safe n first draws = record {
  placed = λ i. if_both (λ (r : Replica). r.index ≡ i) (i == first) refl refl;
  sized = λ i. if_both (λ (r : Replica). r.nreplicas ≡ n) (i == first) refl refl;
  nodes = λ i h. new_replica-Node n first i (draws i) h;
  kept = λ d s round h. absurd h;
  once = λ d d' s round h g. absurd h;
}

Reach-Safe : (n first : ℕ) (c c' : Cluster) → Safe n first c → Reach n c c' → Safe n first c'
Reach-Safe n first c c' safe here = safe
Reach-Safe n first c c' safe (next {d = d} reach step) =
    Step-Safe n first d c' step (Reach-Safe n first c d safe reach)

-- The two voters are the same replica, which has one vote in a round.
one_vote :
    (n first : ℕ) (c : Cluster) (i j s : ℕ)
    → Safe n first c
    → i < n
    → j < n
    → (c.replicas i).role ≡ leader
    → (c.replicas j).role ≡ leader
    → (c.replicas i).current_round ≡ (c.replicas j).current_round
    → Backed c.sent i (c.replicas i).current_round s
    → Backed c.sent j (c.replicas j).current_round s
    → i ≡ j
one_vote n first c i j s safe hi hj li lj same (inl e) (inl f) = sym e ∙ f
one_vote n first c i j s safe hi hj li lj same (inl e) (inr f) =
    let own = (safe.nodes i hi).own (λ g. cc (g, li)) in
    elim (safe.kept j i (c.replicas j).current_round
      (subst (λ m. Heard c.sent j m (c.replicas j).current_round) e f)) [
        | inl g ↦ absurd (omega (arith, g, same))
        | inr (g, p) ↦ sym (safe.placed i) ∙ cc (own, p)
      ]
one_vote n first c i j s safe hi hj li lj same (inr e) (inl f) =
    let own = (safe.nodes j hj).own (λ g. cc (g, lj)) in
    elim (safe.kept i j (c.replicas i).current_round
      (subst (λ m. Heard c.sent i m (c.replicas i).current_round) f e)) [
        | inl g ↦ absurd (omega (arith, g, same))
        | inr (g, p) ↦ cc (own, p, safe.placed j)
      ]
one_vote n first c i j s safe hi hj li lj same (inr e) (inr f) =
    safe.once i j s (c.replicas j).current_round (subst (λ m. Heard c.sent i s m) same e) f

module _ (n first : ℕ) (c : Cluster) (i j : ℕ) (safe : Safe n first c) (hi : i < n) (hj : j < n)
    (li : (c.replicas i).role ≡ leader) (lj : (c.replicas j).role ≡ leader)
    (same : (c.replicas i).current_round ≡ (c.replicas j).current_round) where
  majorities_meet :
      (v w : List Bool)
      → BackedBy c.sent (ballot (c.replicas i)) v
      → BackedBy c.sent (ballot (c.replicas j)) w
      → majority (ballot (c.replicas i)) ≤ count_true v
      → majority (ballot (c.replicas j)) ≤ count_true w
      → i ≡ j
  majorities_meet v w (a, b) (a', b') q q' =
      let si = safe.sized i in
      let sj = safe.sized j in
      let (s, x, y) =
        common_voter v w (a ∙ si ∙ sym (a' ∙ sj)) (omega (arith, a, a', si, sj, q, q')) in
      one_vote n first c i j s safe hi hj li lj same
        (subst (λ m. Backed c.sent m (c.replicas i).current_round s) (safe.placed i) (b s x))
        (subst (λ m. Backed c.sent m (c.replicas j).current_round s) (safe.placed j) (b' s y))

  Safe-unique : i ≡ j
  Safe-unique = elim ((safe.nodes i hi).elected li) [
    | inl (z, e) ↦ elim ((safe.nodes j hj).elected lj) [
      | inl (z', e') ↦ sym (safe.placed i) ∙ e ∙ sym e' ∙ safe.placed j
      | inr (w, p, h, q) ↦ absurd (omega (arith, z, p, same))
    ]
    | inr (v, p, h, q) ↦ elim ((safe.nodes j hj).elected lj) [
      | inl (z', e') ↦ absurd (omega (arith, z', p, same))
      | inr (w, p', h', q') ↦ majorities_meet v w h h' q q'
    ]
  ]

-- In every reachable cluster two replicas that lead the same round are the same replica: from the
-- initial cluster with any number of replicas, any initial leader and any election timeouts, by
-- rounds of the main loop in any order, in which any message sent before is delivered any number
-- of times or never, as long as no 64-bit round counter is exhausted.
pub one_leader_per_round :
    (n first : ℕ) (draws : ℕ → ℕ → ℕ) (c : Cluster) (i j : ℕ)
    → Reach n (new_cluster n first draws) c
    → i < n
    → j < n
    → (c.replicas i).role ≡ leader
    → (c.replicas j).role ≡ leader
    → (c.replicas i).current_round ≡ (c.replicas j).current_round
    → i ≡ j
one_leader_per_round n first draws c i j reach hi hj li lj same =
    let safe =
      Reach-Safe n first (new_cluster n first draws) c (new_cluster-Safe n first draws) reach in
    Safe-unique n first c i j safe hi hj li lj same
