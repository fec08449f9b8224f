-- ===== src/Paxos/Moves.antt =====
-- Elections in the abstract: the moves that a ballot can make, and which promises a replica sends.
use doom_draft.Base.{
  ℕ, ◌+◌, ◌≤◌, ◌<◌, ◌/◌, ◌≡◌, true, false, List, [], ◌∷◌, none, some, ltb, set, replicate,
  if◌then◌else◌, add64,
}
use doom_draft.Paxos.State.{
  Replica, follower, candidate, leader, probe, prepare, propose, ack, Send, to_replica, to_client,
}
use doom_draft.Paxos.Election.{may_promise, count_true}
use doom_draft.Paxos.Ballot.{Ballot, ballot}
use doom_draft.Paxos.Quiet.{NoPrepare, Quiet}

abbrev pub as_follower : Ballot → Ballot
as_follower b = record b { role = follower; prepare_ok = replicate b.nreplicas false }

-- A follower of a round; a higher round ends any promise.
abbrev pub enter : Ballot → ℕ → Ballot
enter b round =
    as_follower (if ltb b.round round then record b { round = round; promised = none } else b)

abbrev pub stand_for : Ballot → Ballot
stand_for b = record b {
  role = candidate;
  round = add64 b.round 1;
  promised = some b.index;
  prepare_ok = set (replicate b.nreplicas false) b.index true;
}

abbrev pub win : Ballot → Ballot
win b = record b {
  role = leader;
  promised = some b.index;
  prepare_ok = replicate b.nreplicas false;
}

abbrev pub majority : Ballot → ℕ
majority b = b.nreplicas / 2 + 1

-- `Heard s round`: a promise of replica `s` for the round has arrived.
pub data Move (Heard : ℕ → ℕ → Type 0) (b b' : Ballot) : Type 0 where
  stay : b' ≡ b → Move Heard b b'
  step_down : (round : ℕ) → b.round ≤ round → b' ≡ enter b round → Move Heard b b'
  vote :
      (l : ℕ)
      → may_promise b.promised l ≡ true
      → b' ≡ record b { promised = some l }
      → Move Heard b b'
  vote_newer :
      (round l : ℕ)
      → b.round < round
      → b' ≡ record (enter b round) { promised = some l }
      → Move Heard b b'
  stand : b' ≡ stand_for b → Move Heard b b'
  stand_alone : majority b ≤ 1 → b' ≡ win (stand_for b) → Move Heard b b'
  count :
      (s : ℕ)
      → Heard s b.round
      → b.role ≡ candidate
      → b' ≡ record b { prepare_ok = set b.prepare_ok s true }
      → Move Heard b b'
  elect :
      (s : ℕ)
      → Heard s b.round
      → b.role ≡ candidate
      → majority b ≤ count_true (set b.prepare_ok s true)
      → b' ≡ win b
      → Move Heard b b'

-- Each promise that is sent is for the round of the sender, in its name, and to the replica that
-- the sender has promised.
abbrev pub Casts : Ballot → List Send → Type 0
Casts b [] = Unit
Casts b (to_client resp ∷ l) = Casts b l
Casts b (to_replica d (probe m) ∷ l) = Casts b l
Casts b (to_replica d (prepare m) ∷ l) =
    (m.promised ≡ true → (m.round ≡ b.round) × (m.server ≡ b.index) × (b.promised ≡ some d))
    × Casts b l
Casts b (to_replica d (propose m) ∷ l) = Casts b l
Casts b (to_replica d (ack m) ∷ l) = Casts b l

pub NoPrepare-Casts : (b : Ballot) (l : List Send) → NoPrepare l → Casts b l
NoPrepare-Casts b [] h = tt
NoPrepare-Casts b (to_client resp ∷ l) h = NoPrepare-Casts b l h
NoPrepare-Casts b (to_replica d (probe m) ∷ l) h = NoPrepare-Casts b l h
NoPrepare-Casts b (to_replica d (prepare m) ∷ l) h = absurd h
NoPrepare-Casts b (to_replica d (propose m) ∷ l) h = NoPrepare-Casts b l h
NoPrepare-Casts b (to_replica d (ack m) ∷ l) h = NoPrepare-Casts b l h

abbrev pub Effect : (ℕ → ℕ → Type 0) → Ballot → Replica × List Send → Type 0
Effect Heard b p = Move Heard b (ballot p.0) × Casts (ballot p.0) p.1

pub Quiet-Effect :
    (Heard : ℕ → ℕ → Type 0) (b : Ballot) (p : Replica × List Send) → Quiet b p → Effect Heard b p
Quiet-Effect Heard b p (e, n) = (stay e, NoPrepare-Casts (ballot p.0) p.1 n)
