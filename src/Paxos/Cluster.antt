-- ===== src/Paxos/Cluster.antt =====
-- `pt_paxos_instance`: the replicas, and every message that was ever handed to a channel. Channels
-- may lose, delay, repeat and reorder what they carry, so any message of the past may arrive; a
-- replica that fails only loses its links and keeps its state.
use doom_draft.Base.{ℕ, ◌+◌, ◌<◌, ◌≡◌, List, [], ◌∷◌, ◌++◌, ◌⊎◌, ◌==◌, if◌then◌else◌, word}
use doom_draft.Paxos.State.{Replica, Send, to_replica, new_replica}
use doom_draft.Paxos.Role.{initialize}
use doom_draft.Paxos.Run.{Wake, got_request, got_message, timed_out, run_round}

pub record Cluster : Type 0 where
  pub replicas : ℕ → Replica
  pub sent : List Send

abbrev pub In : {A : Type 0} → A → List A → Type 0
In a [] = ⊥
In a (x ∷ l) = (a ≡ x) ⊎ In a l

-- A message must have been sent to the replica; requests and timeouts come at any time.
abbrev pub Delivered : Cluster → ℕ → Wake → Type 0
Delivered c i (got_request req) = Unit
Delivered c i (got_message msg) = In (to_replica i msg) c.sent
Delivered c i timed_out = Unit

abbrev pub after : Cluster → ℕ → Replica × List Send → Cluster
after c i p = record { replicas = λ j. if j == i then p.0 else c.replicas j; sent = p.1 ++ c.sent }

-- `new_cluster n leader draws`: the constructor of the instance and `initialize` of each replica.
unfoldable pub new_cluster : ℕ → ℕ → (ℕ → ℕ → ℕ) → Cluster
new_cluster n leader draws = record {
  replicas = λ i. initialize (new_replica i n (draws i)) leader;
  sent = [];
}

-- One of the `n` replicas makes a round of its loop, before its 64-bit round counter is exhausted.
pub data Step (n : ℕ) (c c' : Cluster) : Type 0 where
  turn :
      (i now : ℕ) (w : Wake)
      → i < n
      → Delivered c i w
      → (c.replicas i).current_round + 1 < word
      → c' ≡ after c i (run_round now (c.replicas i) w)
      → Step n c c'

pub data Reach (n : ℕ) (c : Cluster) : Cluster → Type 0 where
  here : Reach n c c
  next : {d e : Cluster} → Reach n c d → Step n d e → Reach n c e
