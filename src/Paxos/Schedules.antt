-- ===== src/Paxos/Schedules.antt =====
-- The longer fault schedules of pset4/pt-paxos.cc, as what they do to the links; waits are left
-- out, and what they draw at random is an input: groups, victims, and shuffled pairs with a coin.
use doom_draft.Base.{
  ℕ, zero, suc, ◌<◌, ◌≡◌, Bool, true, not, List, [], ◌∷◌, leb, if◌then◌else◌, if_cases, is_empty,
  arith,
}
use doom_draft.Paxos.Links.{
  Links, Healed, heal_all_links, fail_replica, recover_replica, set_links_of, set_partition_loss,
  set_replica_failure, set_replica_interconnectivity, set_replica_link_loss,
}

module _ {L : Type 0} (n : ℕ) (base cut : L) where
  -- The loops over pairs of `schedule_darias`.
  unfoldable pub set_pairs : List (ℕ × ℕ) → L → Links L → Links L
  unfolding set_replica_link_loss
  set_pairs [] loss l = l
  set_pairs ((src, dst) ∷ pairs) loss l =
      set_pairs pairs loss (set_replica_link_loss n base cut src dst loss l)

  -- The direction of each pair that is cut first.
  abbrev pub first_round : List ((ℕ × ℕ) × Bool) → List (ℕ × ℕ)
  first_round [] = []
  first_round (((a, b), flip) ∷ pairs) = (if flip then (a, b) else (b, a)) ∷ first_round pairs

  abbrev pub second_round : List ((ℕ × ℕ) × Bool) → List (ℕ × ℕ)
  second_round [] = []
  second_round (((a, b), flip) ∷ pairs) = (if flip then (b, a) else (a, b)) ∷ second_round pairs

  -- One direction of each pair is cut, then the other, and then both are restored.
  unfoldable pub schedule_darias : List ((ℕ × ℕ) × Bool) → Links L → Links L
  unfolding set_pairs
  schedule_darias pairs l =
      let first = first_round pairs in
      let second = second_round pairs in
      if leb n 1
      then l
      else set_pairs second base
          (set_pairs first base (set_pairs second cut (set_pairs first cut l)))

  unfoldable pub schedule_eric : ℕ → Links L → Links L
  unfolding set_replica_failure
  schedule_eric leader l = set_replica_failure n base cut leader cut l

  unfoldable pub schedule_eric_recover : ℕ → Links L → Links L
  unfolding set_replica_failure
  schedule_eric_recover leader l =
      set_replica_failure n base cut leader base (set_replica_failure n base cut leader cut l)

  unfoldable pub schedule_eric_split_brain : ℕ → Links L → Links L
  unfolding set_replica_interconnectivity
  schedule_eric_split_brain leader l =
      set_replica_interconnectivity n base cut leader base
        (set_replica_interconnectivity n base cut leader cut l)

  abbrev pub isolate : List ℕ → List ℕ → Links L → Links L
  isolate connected isolated l =
      if is_empty isolated then l else set_partition_loss n base cut connected isolated cut l

  -- The first loop of `schedule_unstable_mixed`.
  unfoldable pub flap : List ℕ → List ℕ → List ℕ → Links L → Links L
  unfolding fail_replica recover_replica set_partition_loss
  flap connected isolated [] l = l
  flap connected isolated (victim ∷ victims) l = flap connected isolated victims (
      isolate connected isolated
        (recover_replica n base cut victim (fail_replica n base cut victim l)))

  -- The second loop.
  unfoldable pub churn : List ℕ → Links L → Links L
  unfolding fail_replica recover_replica
  churn [] l = l
  churn (victim ∷ victims) l =
      churn victims (recover_replica n base cut victim (fail_replica n base cut victim l))

  -- The last loop, over the replicas below `s`.
  unfoldable pub recover_unavailable : ℕ → Links L → Links L
  unfolding recover_replica
  recover_unavailable zero l = l
  recover_unavailable (suc s) l =
      let l' = recover_unavailable s l in
      if not (l'.available s) then recover_replica n base cut s l' else l'

  unfoldable pub schedule_unstable_mixed : List ℕ → List ℕ → List ℕ → List ℕ → Links L → Links L
  unfolding flap churn heal_all_links recover_unavailable
  schedule_unstable_mixed connected isolated flapping churning l =
      if leb n 1
      then l
      else recover_unavailable n (
          heal_all_links n base cut (
            churn churning (
              heal_all_links n base cut
                (flap connected isolated flapping (isolate connected isolated l)))))

  heal-Healed : (l : Links L) → Healed n base cut (heal_all_links n base cut l)
  unfolding heal_all_links
  heal-Healed l = (λ s h. (ground arith, ground arith), λ s d h k. ground arith)

  recover-Healed :
      (rid : ℕ) (l : Links L)
      → Healed n base cut l
      → Healed n base cut (recover_replica n base cut rid l)
  unfolding recover_replica set_links_of
  recover-Healed rid l (a, b) = (
    λ s h. (ground (arith, (a s h).0), ground (arith, (a s h).1)),
    λ s d h k. ground (arith, b s d h k),
  )

  -- All links are healed, and the replicas below `s` are available.
  abbrev pub UpBelow : ℕ → Links L → Type 0
  UpBelow s l = Healed n base cut l × ((r : ℕ) → r < s → l.available r ≡ true)

  recover_one-UpBelow :
      (s : ℕ) (l : Links L)
      → UpBelow s l
      → UpBelow (suc s) (if not (l.available s) then recover_replica n base cut s l else l)
  unfolding recover_replica set_links_of
  recover_one-UpBelow s l (h, up) =
      if_cases (UpBelow (suc s)) (not (l.available s))
        (λ e. (recover-Healed s l h, λ r k. ground (arith, up r)))
        (λ e. (h, λ r k. ground (arith, up r, e)))

  recover_unavailable-UpBelow :
      (s : ℕ) (l : Links L) → Healed n base cut l → UpBelow s (recover_unavailable s l)
  unfolding recover_unavailable
  recover_unavailable-UpBelow zero l h = (h, λ r k. absurd (omega (arith, k)))
  recover_unavailable-UpBelow (suc s) l h =
      recover_one-UpBelow s (recover_unavailable s l) (recover_unavailable-UpBelow s l h)

  -- With two replicas or more, the unstable schedule ends with every link at the base loss and
  -- every replica available, whatever groups and victims are drawn.
  pub schedule_unstable_mixed-UpBelow :
      (connected isolated flapping churning : List ℕ) (l : Links L)
      → 1 < n
      → UpBelow n (schedule_unstable_mixed connected isolated flapping churning l)
  unfolding schedule_unstable_mixed
  schedule_unstable_mixed-UpBelow connected isolated flapping churning l m =
      if_cases (UpBelow n) (leb n 1) (λ e. absurd (ground (arith, e, m)))
        (λ e.
          let churned = churn churning (
            heal_all_links n base cut
              (flap connected isolated flapping (isolate connected isolated l))) in
          recover_unavailable-UpBelow n (heal_all_links n base cut churned) (heal-Healed churned))
