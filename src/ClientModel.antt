-- ===== src/ClientModel.antt =====
-- pset4/client_model.hh and client_model.cc: the queue of responses that the simulated clients
-- share.
pub mod Waiters
use doom_draft.Base.{
  ℕ, ◌%◌, Bool, true, false, not, ◌||◌, List, [], ◌∷◌, ◌++◌, Option, none, some, ◌==◌, ltb,
  if◌then◌else◌,
}
use doom_draft.Msgs.{
  Modification, Response, response_serial, redirection_response, get_response, put_response,
  cas_response, remove_response,
}

-- Serials keep the client in their low bits.
abbrev pub max_clients : ℕ
max_clients = 4096

abbrev pub serial_step : ℕ
serial_step = 4096

-- `serial & client_mask()`.
abbrev pub masked : ℕ → ℕ
masked serial = serial % max_clients

-- `std::get_if<put_response>` and its like.
abbrev pub as_put : Response → Option Modification
as_put (put_response m) = some m
as_put (redirection_response serial e r) = none
as_put (get_response r) = none
as_put (cas_response m) = none
as_put (remove_response m) = none

abbrev pub as_cas : Response → Option Modification
as_cas (cas_response m) = some m
as_cas (redirection_response serial e r) = none
as_cas (get_response r) = none
as_cas (put_response m) = none
as_cas (remove_response m) = none

abbrev pub as_remove : Response → Option Modification
as_remove (remove_response m) = some m
as_remove (redirection_response serial e r) = none
as_remove (get_response r) = none
as_remove (put_response m) = none
as_remove (cas_response m) = none

-- What a response with the awaited serial gives its waiter: the awaited kind of response, or
-- nothing; a redirection also sets the replica.
abbrev pub receive_as : (Response → Option Modification) → ℕ → Response → Option Modification × ℕ
receive_as pick replicaid (redirection_response serial e r) = (none, r)
receive_as pick replicaid (get_response g) = (pick (get_response g), replicaid)
receive_as pick replicaid (put_response m) = (pick (put_response m), replicaid)
receive_as pick replicaid (cas_response m) = (pick (cas_response m), replicaid)
receive_as pick replicaid (remove_response m) = (pick (remove_response m), replicaid)

-- The queued response is for another waiter.
abbrev pub for_other : ℕ → Response → Bool
for_other serial m =
    let in_serial = response_serial m in
    not (masked in_serial == masked serial) || not (in_serial == serial)

-- The response that the scan takes, and the queue without it.
abbrev pub queue_past :
    Response → Option (Response × List Response) → Option (Response × List Response)
queue_past m none = none
queue_past m (some (x, inq)) = some (x, m ∷ inq)

unfoldable pub take_response : ℕ → List Response → Option (Response × List Response)
take_response serial [] = none
take_response serial (m ∷ inq) =
    let later = queue_past m (take_response serial inq) in
    if for_other serial m then later else some (m, inq)

-- What `receive_response` returns, its replica and the queue.
pub record Received : Type 0 where
  pub result : Option Modification
  pub replicaid : ℕ
  pub inq : List Response

-- One scan of `receive_response`; with none it waits for a message and scans again.
unfoldable pub receive_response :
    (Response → Option Modification) → ℕ → ℕ → List Response → Option Received
unfolding take_response
receive_response pick replicaid serial inq = elim (take_response serial inq) [
  | none ↦ none
  | some (m, rest) ↦
      let (result, replica) = receive_as pick replicaid m in
      some (record { result = result; replicaid = replica; inq = rest })
]

-- One message in `receive_task`: it is queued if its client exists.
unfoldable pub receive_task : ℕ → Response → List Response → List Response
receive_task nclients msg inq =
    let client_id = masked (response_serial msg) in
    if not (ltb client_id nclients) then inq else inq ++ msg ∷ []
