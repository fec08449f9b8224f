-- ===== src/Paxos/State.antt =====
-- The state of `pt_paxos_replica`, its messages, and what a handler sends.
use Prim.Native.Nat.{compare, lt, eq}
use doom_draft.Base.{
  ℕ, suc, ◌+◌, ◌/◌, ◌≡◌, ◌↔◌, Bool, true, false, List, [], ◌++◌, Option, none, some, leb, replicate,
  sub64, arith,
}
use doom_draft.OrdMap.{Ord, flip, find}
use doom_draft.Msgs.{Request, Response}
use doom_draft.Db.{PancyDb, empty_db}

-- The order of the slots.
pub compare_iff : (a b : ℕ) → (compare a b ≡ eq) ↔ (a ≡ b)
compare_iff a b = ground arith

pub compare-flip : (a b : ℕ) → compare b a ≡ flip (compare a b)
compare-flip a b = ground arith

pub compare_trans : (a b c : ℕ) → compare a b ≡ lt → compare b c ≡ lt → compare a c ≡ lt
compare_trans a b c h k = ground arith

instance abbrev pub slot_ord : Ord ℕ
slot_ord = record {
  cmp = compare;
  cmp_iff = compare_iff;
  cmp_flip = compare-flip;
  cmp_trans = compare_trans;
}

pub record LogEntry : Type 0 where
  pub slot : ℕ
  pub round : ℕ
  pub req : Request

pub record ProbeMessage : Type 0 where
  pub round : ℕ
  pub leader : ℕ
  pub last_log_index : ℕ
  pub last_log_round : ℕ

pub record PrepareMessage : Type 0 where
  pub round : ℕ
  pub server : ℕ
  pub promised : Bool

pub record ProposeMessage : Type 0 where
  pub round : ℕ
  pub leader : ℕ
  pub prev_log_index : ℕ
  pub prev_log_round : ℕ
  pub decide_through : ℕ
  pub trim_through : ℕ
  pub entries : List LogEntry

pub record AckMessage : Type 0 where
  pub round : ℕ
  pub server : ℕ
  pub success : Bool
  pub match_index : ℕ
  pub next_index : ℕ

pub data PaxosMessage : Type 0 where
  probe : ProbeMessage → PaxosMessage
  prepare : PrepareMessage → PaxosMessage
  propose : ProposeMessage → PaxosMessage
  ack : AckMessage → PaxosMessage

pub data ReplicaRole : Type 0 where
  follower candidate leader : ReplicaRole

abbrev pub is_leader : ReplicaRole → Bool
is_leader leader = true
is_leader candidate = false
is_leader follower = false

abbrev pub is_candidate : ReplicaRole → Bool
is_candidate leader = false
is_candidate candidate = true
is_candidate follower = false

-- What a handler hands to its channels, in order.
pub data Send : Type 0 where
  to_replica : ℕ → PaxosMessage → Send
  to_client : Response → Send

-- `draws` are the election timeouts that `randomness_` has yet to give, in milliseconds; times are
-- milliseconds too. Ports and channels are not state of the model.
pub record Replica : Type 0 where
  pub index : ℕ
  pub nreplicas : ℕ
  pub leader_index : ℕ
  pub db : PancyDb
  pub draws : ℕ → ℕ
  pub role : ReplicaRole
  pub current_round : ℕ
  pub promised_leader : Option ℕ
  pub prepare_ok : List Bool
  pub log : List (ℕ × LogEntry)
  pub next_slot : ℕ
  pub commit_index : ℕ
  pub last_applied : ℕ
  pub trim_through : ℕ
  pub trim_round : ℕ
  pub match_index : List ℕ
  pub next_index : List ℕ
  pub response_cache : List (ℕ × Response)
  pub pending_clients : List (ℕ × ℕ)
  pub pending_client_requests : List Request
  pub pending_client_serials : List (ℕ × Unit {0})
  pub client_batch_deadline : Option ℕ
  pub election_timeout : ℕ

abbrev pub client_batch_window : ℕ
client_batch_window = 5

abbrev pub append_batch_size : ℕ
append_batch_size = 16

abbrev pub trim_retention : ℕ
trim_retention = 256

abbrev pub quorum_size : Replica → ℕ
quorum_size r = r.nreplicas / 2 + 1

abbrev pub has_quorum : Replica → ℕ → Bool
has_quorum r n = leb (quorum_size r) n

abbrev pub last_log_index : Replica → ℕ
last_log_index r = sub64 r.next_slot 1

abbrev pub contains {ℓ} : {V : Type ℓ} → ℕ → List (ℕ × V) → Bool
contains k m = elim (find k m) [ none ↦ false | some v ↦ true ]

-- `reset_election_timeout`: the next draw.
abbrev pub reset_election_timeout : Replica → Replica
reset_election_timeout r = record r { election_timeout = r.draws 0; draws = λ i. r.draws (suc i) }

-- The constructor.
unfoldable pub new_replica : ℕ → ℕ → (ℕ → ℕ) → Replica
new_replica index nreplicas draws = reset_election_timeout (record {
  index = index;
  nreplicas = nreplicas;
  leader_index = index;
  db = empty_db;
  draws = draws;
  role = follower;
  current_round = 0;
  promised_leader = none;
  prepare_ok = replicate nreplicas false;
  log = [];
  next_slot = 1;
  commit_index = 0;
  last_applied = 0;
  trim_through = 0;
  trim_round = 0;
  match_index = replicate nreplicas 0;
  next_index = replicate nreplicas 1;
  response_cache = [];
  pending_clients = [];
  pending_client_requests = [];
  pending_client_serials = [];
  client_batch_deadline = none;
  election_timeout = 250;
})

-- Two steps of a handler: the state goes on, and the sends stand in order.
infixl 5 ◌▷◌
abbrev pub ◌▷◌ : Replica × List Send → (Replica → Replica × List Send) → Replica × List Send
p ▷ f = let (r', sends) = f p.0 in (r', p.1 ++ sends)
