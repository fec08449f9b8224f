-- ===== src/Paxos/Links.antt =====
-- `pt_paxos_instance`'s switches for the losses of its links, the setters that the fault schedules
-- use, and the schedules that fail or cut off the initial leader. A loss is a value of any type:
-- `base` is `base_loss()` and `cut` is 1.0.
use doom_draft.Base.{
  ℕ, ◌<◌, ◌≡◌, Bool, true, false, ◌&&◌, ◌||◌, not, List, [], ◌∷◌, ◌==◌, ltb, leb, if◌then◌else◌,
  arith,
}

pub record Links {ℓ} (L : Type ℓ) : Type ℓ where
  pub requests : ℕ → L
  pub responses : ℕ → L
  pub between : ℕ → ℕ → L
  pub available : ℕ → Bool

module _ {L : Type 0} (n : ℕ) (base cut : L) where
  -- Every link of the `n` replicas.
  unfoldable pub heal_all_links : Links L → Links L
  heal_all_links l = record l {
    requests = λ s. if ltb s n then base else l.requests s;
    responses = λ s. if ltb s n then base else l.responses s;
    between = λ s d. if ltb s n && ltb d n then base else l.between s d;
  }

  -- What `fail_replica` and `recover_replica` share: the links from and to a replica, its own
  -- channel to itself too.
  unfoldable pub set_links_of : ℕ → L → Links L → Links L
  set_links_of rid loss l = record l {
    requests = λ s. if s == rid then loss else l.requests s;
    responses = λ s. if s == rid then loss else l.responses s;
    between = λ s d. if s == rid && ltb d n || d == rid && ltb s n then loss else l.between s d;
  }

  unfoldable pub fail_replica : ℕ → Links L → Links L
  unfolding set_links_of
  fail_replica rid l =
      set_links_of rid cut (record l { available = λ s. if s == rid then false else l.available s })

  unfoldable pub recover_replica : ℕ → Links L → Links L
  unfolding set_links_of
  recover_replica rid l =
      set_links_of rid base (record l { available = λ s. if s == rid then true else l.available s })

  -- `set_replica_interconnectivity`.
  unfoldable pub set_replica_interconnectivity : ℕ → L → Links L → Links L
  set_replica_interconnectivity replica loss l = record l {
    between = λ s d.
        if not (s == d) && (s == replica && ltb d n || d == replica && ltb s n)
        then loss
        else l.between s d;
  }

  unfoldable pub partition_one_against_rest : ℕ → Links L → Links L
  unfolding heal_all_links set_replica_interconnectivity
  partition_one_against_rest rid l = set_replica_interconnectivity rid cut (heal_all_links l)

  unfoldable pub set_replica_client_connectivity : ℕ → L → L → Links L → Links L
  set_replica_client_connectivity replica request_loss response_loss l = record l {
    requests = λ s. if s == replica then request_loss else l.requests s;
    responses = λ s. if s == replica then response_loss else l.responses s;
  }

  unfoldable pub set_replica_failure : ℕ → L → Links L → Links L
  unfolding set_replica_client_connectivity set_replica_interconnectivity
  set_replica_failure replica loss l =
      set_replica_interconnectivity replica loss
        (set_replica_client_connectivity replica loss loss l)

  unfoldable pub set_replica_link_loss : ℕ → ℕ → L → Links L → Links L
  set_replica_link_loss i j loss l =
      if i == j
      then l
      else record l { between = λ s d. if s == i && d == j then loss else l.between s d }

  abbrev pub set_both : ℕ → ℕ → L → Links L → Links L
  set_both i j loss l = record l {
    between = λ s d. if s == i && d == j || s == j && d == i then loss else l.between s d;
  }

  -- The two loops of `set_partition_loss`.
  unfoldable pub set_against : ℕ → List ℕ → L → Links L → Links L
  set_against i [] loss l = l
  set_against i (r ∷ right) loss l = set_against i right loss (set_both i r loss l)

  unfoldable pub set_partition_loss : List ℕ → List ℕ → L → Links L → Links L
  unfolding set_against
  set_partition_loss [] right loss l = l
  set_partition_loss (i ∷ left) right loss l =
      set_partition_loss left right loss (set_against i right loss l)

  -- What the schedules leave behind, their waits aside.
  unfoldable pub schedule_failover : ℕ → Links L → Links L
  unfolding fail_replica
  schedule_failover initial_leader l = fail_replica initial_leader l

  unfoldable pub schedule_recovery : ℕ → Links L → Links L
  unfolding fail_replica recover_replica
  schedule_recovery initial_leader l =
      recover_replica initial_leader (fail_replica initial_leader l)

  unfoldable pub schedule_split_brain : ℕ → Links L → Links L
  unfolding partition_one_against_rest heal_all_links
  schedule_split_brain initial_leader l =
      if leb n 1 then l else heal_all_links (partition_one_against_rest initial_leader l)

  -- Every link has the base loss.
  abbrev pub Healed : Links L → Type 0
  Healed l =
      ((s : ℕ) → s < n → (l.requests s ≡ base) × (l.responses s ≡ base))
      × ((s d : ℕ) → s < n → d < n → l.between s d ≡ base)

  -- Failing the initial leader and recovering it leaves every link with the base loss, from links
  -- that all have it.
  pub schedule_recovery-Healed :
      (leader : ℕ) (l : Links L) → Healed l → Healed (schedule_recovery leader l)
  unfolding schedule_recovery fail_replica recover_replica set_links_of
  schedule_recovery-Healed leader l (a, b) = (
    λ s h. (ground (arith, (a s h).0), ground (arith, (a s h).1)),
    λ s d h k. ground (arith, b s d h k),
  )

  -- With two replicas or more, the split brain is over at the end: every link has the base loss.
  pub schedule_split_brain-Healed :
      (leader : ℕ) (l : Links L) → 1 < n → Healed (schedule_split_brain leader l)
  unfolding schedule_split_brain heal_all_links
  schedule_split_brain-Healed leader l m =
      (λ s h. (ground arith, ground arith), λ s d h k. ground arith)

  -- `partition_one_against_rest` cuts the links between the replica and each other one, both ways,
  -- and gives every other link, those to clients included, the base loss.
  pub partition-cuts :
      (rid : ℕ) (l : Links L) (s d : ℕ)
      → s < n
      → d < n
      → let l' = partition_one_against_rest rid l in
        (l'.between s d ≡ (if not (s == d) && (s == rid || d == rid) then cut else base))
        × (l'.requests s ≡ base)
        × (l'.responses s ≡ base)
  unfolding partition_one_against_rest heal_all_links set_replica_interconnectivity
  partition-cuts rid l s d h k = (ground arith, ground arith, ground arith)
