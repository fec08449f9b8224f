-- ===== src/Paxos/Applied.antt =====
-- What applying committed entries does to the store: each request of the log once, in order.
use doom_draft.Base.{
  if◌then◌else◌, false, ℕ, zero, suc, ◌+◌, ◌-◌, ◌≤◌, ◌<◌, ◌≡◌, refl, ◌∙◌, ap, true, List, [], ◌∷◌,
  Option, none, some, Option-cases, inl, inr, if_cases, ltb, ◌==◌, ◌&&◌, add64, word, arith,
  add64_exact,
}
use mathlib.Core.Path.{ap₂}
use doom_draft.OrdMap.{find, emplace}
use doom_draft.Msgs.{Request, Response, message_serial}
use doom_draft.Db.{PancyDb, process_req}
use doom_draft.Paxos.State.{Replica, LogEntry, slot_ord, is_leader, Send}
use doom_draft.Paxos.Log.{trim_log_prefix}
use doom_draft.Paxos.Leader.{
  execute, answer, apply_entry, apply_next, apply_loop, apply_committed_entries,
}

-- The replicated state machine: the store, and the answer that each serial got.
abbrev pub Machine : Type 0
Machine = PancyDb × List (ℕ × Response)

abbrev pub machine : Replica → Machine
machine r = (r.db, r.response_cache)

-- A request changes the store unless its serial was answered before.
abbrev pub once : Machine → Request → Machine
once (db, answers) req = elim (find (message_serial req) answers) [
  | none ↦ ((process_req db req).0, emplace (message_serial req) (process_req db req).1 answers)
  | some resp ↦ (db, answers)
]

abbrev pub run_requests : Machine → List Request → Machine
run_requests m [] = m
run_requests m (req ∷ reqs) = run_requests (once m req) reqs

abbrev pub with_request : Option LogEntry → List Request → List Request
with_request none reqs = reqs
with_request (some e) reqs = e.req ∷ reqs

-- The requests that the log has in the `n` slots after `last`, in the order of the slots.
abbrev pub requests_after : List (ℕ × LogEntry) → ℕ → ℕ → List Request
requests_after log last zero = []
requests_after log last (suc n) =
    with_request (find (last + 1) log) (requests_after log (last + 1) n)

-- `r'` has committed and applied through a slot what `r` had in its log, and nothing else.
abbrev pub AppliedThrough : ℕ → Replica → Replica → Type 0
AppliedThrough slot r r' =
    (r'.commit_index ≡ slot)
    × (r'.last_applied ≡ slot)
    × (machine r'
        ≡ run_requests (machine r) (requests_after r.log r.last_applied (slot - r.last_applied)))

execute-once : (r : Replica) (req : Request) → machine (execute r req) ≡ once (machine r) req
unfolding execute
execute-once r req =
    let done = process_req r.db req in
    let after = emplace (message_serial req) done.1 r.response_cache in
    elim (find (message_serial req) r.response_cache)
      as (λ (o : Option Response).
        machine (
          if (elim o [ none ↦ false | some resp ↦ true ])
          then r
          else record r { db = done.0; response_cache = after })
        ≡ elim o [ none ↦ (done.0, after) | some resp ↦ machine r ]) [
          | none ↦ refl
          | some resp ↦ refl
        ]

answer-machine : (r : Replica) (serial : ℕ) → machine (answer r serial).0 ≡ machine r
unfolding answer
answer-machine r serial = elim (Option-cases (find serial r.pending_clients)) [
  | inl e ↦ rw (e, answer) refl
  | inr (slot, e) ↦
      rw (e, answer)
        (if_cases (λ (p : Replica × List Send). machine p.0 ≡ machine r)
          (is_leader r.role && slot == r.last_applied) (λ f. refl) (λ f. refl))
]

-- Applying an entry runs its request, and moves no index.
record Step (e : Option LogEntry) (r r' : Replica) : Type 0 where
  ran :
      (reqs : List Request)
      → run_requests (machine r') reqs ≡ run_requests (machine r) (with_request e reqs)
  log : r'.log ≡ r.log
  last : r'.last_applied ≡ r.last_applied
  commit : r'.commit_index ≡ r.commit_index

apply_entry-Step : (e : Option LogEntry) (r : Replica) → Step e r (apply_entry r e).0
unfolding apply_entry answer execute
apply_entry-Step none r = record { ran = λ reqs. refl; log = refl; last = refl; commit = refl }
apply_entry-Step (some e) r = record {
  ran = λ reqs.
      ap (λ (m : Machine). run_requests m reqs)
        (answer-machine (execute r e.req) (message_serial e.req) ∙ execute-once r e.req);
  log = ground arith;
  last = ground arith;
  commit = ground arith;
}

apply_loop-Applied :
    (fuel : ℕ) (r : Replica)
    → r.commit_index ≡ r.last_applied + fuel
    → r.commit_index < word
    → let r' = (apply_loop fuel r).0 in
      (r'.commit_index ≡ r.commit_index)
      × (r'.last_applied ≡ r.commit_index)
      × (machine r' ≡ run_requests (machine r) (requests_after r.log r.last_applied fuel))
unfolding apply_loop apply_next
apply_loop-Applied zero r h w = (refl, omega arith, refl)
apply_loop-Applied (suc fuel) r h w =
    let r1 = record r { last_applied = add64 r.last_applied 1 } in
    let e = find r1.last_applied r1.log in
    let r2 = (apply_entry r1 e).0 in
    let s = apply_entry-Step e r1 in
    let next : r1.last_applied ≡ r.last_applied + 1 = add64_exact r.last_applied 1 (omega arith) in
    let (c, d, m) =
      apply_loop-Applied fuel r2 (omega (arith, s.last, s.commit, next))
        (omega (arith, s.commit)) in
    let go : ltb r.last_applied r.commit_index ≡ true = ground arith in
    let runs : run_requests (machine r2) (requests_after r2.log r2.last_applied fuel)
        ≡ run_requests (machine r) (requests_after r.log r.last_applied (suc fuel)) =
      ap (λ (p : List (ℕ × LogEntry) × ℕ). run_requests (machine r2) (requests_after p.0 p.1 fuel))
        (ap₂ (λ (l : List (ℕ × LogEntry)) (k : ℕ). (l, k)) s.log (s.last ∙ next))
      ∙ s.ran (requests_after r.log (r.last_applied + 1) fuel)
      ∙ ap
          (λ (k : ℕ).
            run_requests (machine r)
              (with_request (find k r.log) (requests_after r.log (r.last_applied + 1) fuel)))
          next in
    rw go (c ∙ s.commit, d ∙ s.commit, m ∙ runs)

-- `apply_committed_entries` ends with every slot up to the commit index passed, from any state that
-- has applied no more than it has committed, and leaves the commit index; the store and the
-- answers are then those of the requests that the log has in these slots, run in the order of the
-- slots, where a request whose serial was answered is not run again, and a slot without an entry is
-- passed over.
pub apply_committed-Applied :
    (r : Replica)
    → r.last_applied ≤ r.commit_index
    → r.commit_index < word
    → AppliedThrough r.commit_index r (apply_committed_entries r).0
unfolding apply_committed_entries trim_log_prefix
apply_committed-Applied r h w =
    apply_loop-Applied (r.commit_index - r.last_applied) r (omega arith) w
