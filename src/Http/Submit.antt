-- ===== src/Http/Submit.antt =====
-- pset4/http_server.cc: `submit_put`, which commits a value through the replicas.
pub mod Answered
pub mod Retry
use doom_draft.Base.{
  ℕ, zero, suc, ◌+◌, ◌*◌, ◌%◌, Bool, true, false, List, [], ◌∷◌, Option, none, some, if◌then◌else◌,
  word,
}
use doom_draft.Msgs.{Errc, ok, not_found, no_match, redirect, Modification, Response}
use doom_draft.ClientModel.{serial_step, as_put, receive_as}

pub record HttpClientModel : Type 0 where
  pub leader : ℕ
  pub next_serial_offset : ℕ

abbrev pub max_attempts : ℕ
max_attempts = 12

abbrev pub my_cid : ℕ
my_cid = 0

-- What a submission returns, the replicas it asked in their order, and the leader it sets, if it
-- does.
pub record Submission : Type 0 where
  pub version : ℕ
  pub asked : List ℕ
  pub leader : Option ℕ

-- What `attempt` gives for what arrives within its two seconds, if anything does, with the replica
-- that `receive_response` leaves.
abbrev pub attempted : ℕ → Option Response → Option Modification × ℕ
attempted replica none = (none, replica)
attempted replica (some m) = receive_as as_put replica m

abbrev pub is_errc_ok : Errc → Bool
is_errc_ok ok = true
is_errc_ok not_found = false
is_errc_ok no_match = false
is_errc_ok redirect = false

abbrev pub ask : ℕ → Submission → Submission
ask replica s = record s { asked = replica ∷ s.asked }

abbrev pub committed_by : Modification → ℕ → Submission
committed_by m replica = record { version = m.version; asked = []; leader = some replica }

-- What a try makes of its outcome: `again` says how the tries go on with a replica.
abbrev pub concluded : ℕ → (ℕ → Submission) → Option Modification × ℕ → Submission
concluded nreplicas again (none, replica) = again ((replica + 1) % nreplicas)
concluded nreplicas again (some m, replica) =
    let more = again replica in if is_errc_ok m.errcode then committed_by m replica else more

-- The tries that are left, from try number `tries`; `answer tries replica` is the response that
-- arrives in time at that try, when that replica was asked. All tries have one serial, so it may
-- come from a replica that an earlier try asked.
unfoldable pub try_put : ℕ → ℕ → ℕ → ℕ → (ℕ → ℕ → Option Response) → Submission
try_put nreplicas zero tries replica answer = record { version = 0; asked = []; leader = none }
try_put nreplicas (suc left) tries replica answer = ask replica (
    concluded nreplicas (λ (next : ℕ). try_put nreplicas left (tries + 1) next answer)
      (attempted replica (answer tries replica)))

abbrev pub next_serial : HttpClientModel → ℕ
next_serial c = (my_cid + (c.next_serial_offset + 1) * serial_step) % word

-- The leader is written only by a submission that succeeds.
abbrev pub leader_after : ℕ → Option ℕ → ℕ
leader_after leader none = leader
leader_after leader (some replica) = replica

unfoldable pub submit_put :
    ℕ → HttpClientModel → (ℕ → ℕ → Option Response) → Submission × HttpClientModel
unfolding try_put
submit_put nreplicas c answer =
    let s = try_put nreplicas max_attempts 0 c.leader answer in
    (
      s,
      record {
        leader = leader_after c.leader s.leader;
        next_serial_offset = (c.next_serial_offset + 1) % word;
      },
    )
