-- ===== src/Lockseq/Client.antt =====
-- pset4/lockseq_model.cc: `client`, which locks a group, writes its sequence, clears what is left of
-- an older one and unlocks. Its random choices, and what arrives for each request, are inputs.
pub mod Phases
pub mod Run
use doom_draft.Base.{
  ℕ, zero, suc, ◌+◌, ◌%◌, Bool, true, false, ◌&&◌, ◌||◌, not, List, [], ◌∷◌, ◌++◌, Option, none,
  some, ◌==◌, ltb, if◌then◌else◌, word,
}
use doom_draft.OrdMap.{same_key}
use doom_draft.Keys.{bytes_ord}
use doom_draft.DocOps.{Bytes}
use doom_draft.Msgs.{
  Errc, ok, not_found, no_match, redirect, pos, any_version, Modification, Request, put_request,
  cas_request, remove_request,
}
use doom_draft.ClientModel.{serial_step}
use doom_draft.Lockseq.{make_client_key, make_lock_key, make_value_key, starts_with}

abbrev pub max_sequence_length : ℕ
max_sequence_length = 100

-- What the client waits for: the pause, or the answer to a request of a phase.
pub data Phase : Type 0 where
  idle locking writing clearing unlocking : Phase

-- `cstate` and the local variables of `client`; of the completion counters, which all clients
-- share, this client's part, as numbers without a bound.
pub record Client : Type 0 where
  pub leader : ℕ
  pub serial : ℕ
  pub gid : ℕ
  pub value : Bytes
  pub nvalues : ℕ
  pub lock_version : ℕ
  pub n : ℕ
  pub phase : Phase
  pub tries : ℕ
  pub lock_complete : ℕ
  pub write_complete : ℕ
  pub clear_complete : ℕ
  pub unlock_complete : ℕ

abbrev pub new_client : ℕ → ℕ → Client
new_client leader cid = record {
  leader = leader;
  serial = cid;
  gid = 0;
  value = [];
  nvalues = 0;
  lock_version = 0;
  n = 0;
  phase = idle;
  tries = 0;
  lock_complete = 0;
  write_complete = 0;
  clear_complete = 0;
  unlock_complete = 0;
}

abbrev pub client_prefix : ℕ → Bytes
client_prefix cid = make_client_key cid ++ b' ' ∷ []

-- A request is numbered anew.
abbrev pub renumber : Client → Client
renumber c = record c { serial = (c.serial + serial_step) % word; tries = 0 }

-- The pause is over; the group, the digits of the value and the length of the sequence are chosen.
unfoldable pub begin_sequence : ℕ → ℕ → Bytes → ℕ → Client → Client
begin_sequence cid gid digits nvalues c = renumber (record c {
  gid = gid;
  value = client_prefix cid ++ digits;
  nvalues = nvalues;
  lock_version = 0;
  phase = locking;
})

-- What a phase sends, to `leader`.
unfoldable pub client_request : Client → Option Request
client_request c = elim (c.phase) [
  | idle ↦ none
  | locking ↦ some (
      cas_request (record {
        serial = c.serial;
        key = make_lock_key c.gid;
        expected = [];
        desired = c.value;
        version_match = any_version;
      }))
  | writing ↦ some (
      put_request (record {
        serial = c.serial;
        key = make_value_key c.gid c.n;
        value = c.value;
        version_match = any_version;
      }))
  | clearing ↦ some (
      remove_request
        (record { serial = c.serial; key = make_value_key c.gid c.n; version_match = any_version }))
  | unlocking ↦ some (
      remove_request (record {
        serial = c.serial;
        key = make_lock_key c.gid;
        version_match = pos c.lock_version;
      }))
]

-- How an answer leaves the client: it goes on, or ends with an error code.
pub data Outcome : Type 0 where
  goes_on : Client → Outcome
  throws : Errc → Outcome

-- No answer in time: every third time another replica is taken for the leader.
abbrev pub again : Client → Client
again c = record c { tries = (c.tries + 1) % 4294967296 }

abbrev pub timed_out : ℕ → Client → Client
timed_out replica c = again (if c.tries % 3 == 2 then record c { leader = replica } else c)

-- Values are cleared: the lock is released next.
abbrev pub cleared : Client → Client
cleared c = renumber (record c { clear_complete = c.clear_complete + 1; phase = unlocking })

-- The head of the loop that clears.
abbrev pub clear_next : Client → Client
clear_next c =
    if ltb c.n max_sequence_length then renumber (record c { phase = clearing }) else cleared c

-- The head of the loop that writes.
abbrev pub write_next : Client → Client
write_next c =
    if not (c.n == c.nvalues)
    then renumber c
    else clear_next (record c { write_complete = c.write_complete + 1 })

-- The lock is held: the loop that writes starts.
abbrev pub locked : ℕ → Client → Client
locked version c = write_next (record c {
  lock_version = version;
  lock_complete = c.lock_complete + 1;
  n = 0;
  phase = writing;
})

abbrev pub held_by_other : ℕ → Client → Modification → Outcome
held_by_other cid c m =
    if same_key m.actual c.value && ltb 0 c.tries
    then goes_on (locked m.version c)
    else if not (starts_with m.actual (client_prefix cid))
    then throws no_match
    else goes_on (again c)

unfoldable pub lock_answered : ℕ → Client → Modification → Outcome
lock_answered cid c m = elim (m.errcode) [
  | ok ↦ goes_on (locked m.version c)
  | not_found ↦ throws not_found
  | no_match ↦ held_by_other cid c m
  | redirect ↦ throws redirect
]

abbrev pub is_code_ok : Errc → Bool
is_code_ok ok = true
is_code_ok not_found = false
is_code_ok no_match = false
is_code_ok redirect = false

unfoldable pub write_answered : Client → Modification → Outcome
write_answered c m =
    if not (is_code_ok m.errcode)
    then throws m.errcode
    else goes_on (write_next (record c { n = c.n + 1 }))

unfoldable pub clear_answered : Client → Modification → Outcome
clear_answered c m =
    let next = goes_on (clear_next (record c { n = c.n + 1 })) in
    elim (m.errcode) [
      | ok ↦ next
      | not_found ↦ if c.tries == 0 then goes_on (cleared c) else next
      | no_match ↦ throws no_match
      | redirect ↦ throws redirect
    ]

unfoldable pub unlock_answered : Client → Modification → Outcome
unlock_answered c m =
    if not (is_code_ok m.errcode) && c.tries == 0
    then throws m.errcode
    else goes_on (record c { unlock_complete = c.unlock_complete + 1; phase = idle })

unfoldable pub answered_in : Phase → ℕ → Client → Modification → Outcome
unfolding lock_answered write_answered clear_answered unlock_answered
answered_in idle cid c m = goes_on c
answered_in locking cid c m = lock_answered cid c m
answered_in writing cid c m = write_answered c m
answered_in clearing cid c m = clear_answered c m
answered_in unlocking cid c m = unlock_answered c m

-- One round of a phase: what `attempt` gives, the leader that `receive_response` leaves, and the
-- replica that is taken if there was no answer.
unfoldable pub client_round : ℕ → Client → ℕ → Option Modification × ℕ → Outcome
unfolding answered_in
client_round cid c replica (none, leader) =
    goes_on (timed_out replica (record c { leader = leader }))
client_round cid c replica (some m, leader) =
    answered_in c.phase cid (record c { leader = leader }) m
