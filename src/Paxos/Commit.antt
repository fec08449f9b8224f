-- ===== src/Paxos/Commit.antt =====
-- Which slot a leader commits.
use doom_draft.Base.{
  ℕ, zero, suc, ◌+◌, ◌≤◌, ◌<◌, ◌≡◌, ◌↔◌, refl, sym, ◌∙◌, Option, none, some, subst, ap, ◌⊎◌, inl,
  inr, if_cases, if◌then◌else◌, Bool, ◌||◌, get_or, leb, ltb, not, ◌==◌, arith, leb→le, dec_le,
}
use doom_draft.OrdMap.{find}
use doom_draft.Paxos.State.{
  slot_ord, LogEntry, Replica, slot_ord, leader, is_leader, quorum_size, has_quorum, last_log_index,
}
use doom_draft.Paxos.Log.{entry_round, round_at}
use doom_draft.Paxos.Leader.{count_matched, commit_loop, update_commit_index}

-- The replica `s` holds slot `k`, as far as the leader knows: it is the leader itself, or it is
-- known to match through `k`.
abbrev pub holds : Replica → ℕ → ℕ → Bool
holds r k s = s == r.index || leb k (get_or r.match_index s 0)

-- How many of the replicas below `n` hold slot `k`.
abbrev pub holders : Replica → ℕ → ℕ → ℕ
holders r k zero = 0
holders r k (suc s) = (if holds r k s then 1 else 0) + holders r k s

-- An entry of this round; a slot without an entry counts as one of round 0.
abbrev pub IsOfRound : ℕ → Option LogEntry → Type 0
IsOfRound round none = 0 ≡ round
IsOfRound round (some e) = e.round ≡ round

-- A slot that the leader may commit: an entry of its own round that more than half of the replicas
-- hold.
abbrev pub Decidable : Replica → ℕ → Type 0
Decidable r k =
    IsOfRound r.current_round (find k r.log)
    × (r.nreplicas < holders r k r.nreplicas + holders r k r.nreplicas)

of_round : (round : ℕ) (o : Option LogEntry) → (entry_round o ≡ round) ↔ IsOfRound round o
of_round round none = (λ h. h, λ h. h)
of_round round (some e) = (λ h. h, λ h. h)

-- Above what is trimmed, the round of a slot is that of its entry.
round_at-entry_round :
    (r : Replica) (k : ℕ) → r.trim_through < k → round_at r k ≡ entry_round (find k r.log)
unfolding round_at
round_at-entry_round r k h = ground arith

-- The peers that match, and the leader once it was passed, are the holders.
holders-count_matched :
    (r : Replica) (k n : ℕ) → holders r k n ≡ count_matched r k n + (if ltb r.index n then 1 else 0)
unfolding count_matched
holders-count_matched r k zero = ground arith
holders-count_matched r k (suc s) = ground (arith, holders-count_matched r k s)

holders_with_leader :
    (r : Replica) (k : ℕ)
    → r.index < r.nreplicas
    → holders r k r.nreplicas ≡ count_matched r k r.nreplicas + 1
holders_with_leader r k h = ground (arith, holders-count_matched r k r.nreplicas)

-- No slot of an interval may be committed.
abbrev pub NoneAbove : Replica → ℕ → ℕ → Type 0
NoneAbove r low high = (k : ℕ) → low < k → k ≤ high → ¬ Decidable r k

-- Either nothing can be committed, or the last slot that can be is.
abbrev pub Commits : Replica → ℕ → Replica → Type 0
Commits r high r' =
    ((r' ≡ r) × NoneAbove r r.commit_index high)
    ⊎ ((k : ℕ) × (r' ≡ record r { commit_index = k })
        × (r.commit_index < k)
        × (k ≤ high)
        × Decidable r k
        × NoneAbove r k high)

NoneAbove-suc :
    (r : Replica) (low idx : ℕ)
    → ¬ Decidable r (suc idx)
    → NoneAbove r low idx
    → NoneAbove r low (suc idx)
NoneAbove-suc r low idx h n k a b d = elim (dec_le k idx) [
  | yes c ↦ n k a c d
  | no c ↦ let e : k ≡ suc idx = omega arith in h (subst (Decidable r) e d)
]

Commits-suc :
    (r r' : Replica) (idx : ℕ) → ¬ Decidable r (suc idx) → Commits r idx r' → Commits r (suc idx) r'
Commits-suc r r' idx h (inl (e, n)) = inl (e, NoneAbove-suc r r.commit_index idx h n)
Commits-suc r r' idx h (inr (k, e, a, b, d, n)) =
    inr (k, e, a, omega arith, d, NoneAbove-suc r k idx h n)

commit_loop-Commits :
    (r : Replica) (idx : ℕ)
    → r.index < r.nreplicas
    → r.trim_through ≤ r.commit_index
    → Commits r idx (commit_loop r idx)
unfolding commit_loop
commit_loop-Commits r zero h t = inl (refl, λ k a b. absurd (omega arith))
commit_loop-Commits r (suc idx) h t =
    let held = holders_with_leader r (suc idx) h in
    let lower = commit_loop-Commits r idx h t in
    let own_round = of_round r.current_round (find (suc idx) r.log) in
    if_cases (Commits r (suc idx)) (not (ltb r.commit_index (suc idx)))
      (λ low. inl (refl, λ k a b. absurd (ground arith)))
      (λ above.
        let entry : round_at r (suc idx) ≡ entry_round (find (suc idx) r.log) =
          round_at-entry_round r (suc idx) (ground (arith, above, t)) in
        if_cases (Commits r (suc idx)) (not (round_at r (suc idx) == r.current_round))
          (λ old.
            Commits-suc r (commit_loop r idx) idx
              (λ d. absurd (ground (arith, old, entry ∙ own_round.1 d.0))) lower)
          (λ own.
            if_cases (Commits r (suc idx))
              (has_quorum r (1 + count_matched r (suc idx) r.nreplicas))
              (λ q. inr (
                suc idx,
                refl,
                ground arith,
                omega arith,
                (own_round.0 (sym entry ∙ ground (arith, own)), omega (arith, leb→le _ _ q, held)),
                λ k a b. absurd (omega arith),
              ))
              (λ few.
                Commits-suc r (commit_loop r idx) idx
                  (λ d.
                    let enough : quorum_size r ≤ 1 + count_matched r (suc idx) r.nreplicas =
                      omega (arith, d.1, held) in
                    absurd (ground (arith, few, enough)))
                  lower)))

-- `update_commit_index` of a leader that is one of its replicas, and has trimmed no more than it
-- committed, commits the last slot above its commit index whose entry carries its own round and
-- that more than half of the replicas hold, itself counted once; if there is none, it changes
-- nothing. A slot without an entry counts as one of round 0.
pub update_commit_index-Commits :
    (r : Replica)
    → r.role ≡ leader
    → r.index < r.nreplicas
    → r.trim_through ≤ r.commit_index
    → Commits r (last_log_index r) (update_commit_index r)
unfolding update_commit_index
update_commit_index-Commits r h i t =
    if_cases (Commits r (last_log_index r)) (is_leader r.role)
      (λ _. commit_loop-Commits r (last_log_index r) i t) (λ f. absurd (cc (ap is_leader h, f)))
