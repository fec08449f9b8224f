-- ===== src/Lockseq/Client/Run.antt =====
-- What a client reaches: `client` as a step relation over its choices and the answers it gets.
use doom_draft.Base.{ℕ, ◌%◌, ◌<◌, ◌≤◌, ◌≡◌, refl, subst, Option, none, some, ◌==◌, if_both, arith}
use doom_draft.Keys.{bytes_ord}
use doom_draft.DocOps.{Bytes}
use doom_draft.Msgs.{Modification}
use doom_draft.Lockseq.Client.{
  idle, Client, new_client, begin_sequence, goes_on, again, client_round,
}
use doom_draft.Lockseq.Client.Phases.{Phased, Goes, own_next, move-Counts, answered-Goes}

at_leader : (cid leader : ℕ) (c : Client) → Phased cid c → Phased cid (record c { leader = leader })
at_leader cid leader c p = record { own = p.own; counts = p.counts; within = p.within }

round-Goes :
    (cid replica : ℕ) (c : Client) (r : Option Modification × ℕ)
    → Phased cid c
    → Goes cid (client_round cid c replica r)
unfolding client_round
round-Goes cid replica c (none, leader) p =
    if_both (λ (d : Client). Phased cid (again d)) (c.tries % 3 == 2)
      (record { own = p.own; counts = p.counts; within = p.within })
      (record { own = p.own; counts = p.counts; within = p.within })
round-Goes cid replica c (some m, leader) p =
    answered-Goes cid (record c { leader = leader }) m c.phase refl (at_leader cid leader c p)

-- The states of a client: it starts, chooses a sequence of 1 to 100 values when its pause is over,
-- and takes what arrives for the request of its phase.
pub data Steps (cid : ℕ) : Client → Type 0 where
  starts : (leader : ℕ) → Steps cid (new_client leader cid)
  begins :
      {c : Client} (gid nvalues : ℕ) (digits : Bytes)
      → c.phase ≡ idle
      → 1 ≤ nvalues
      → nvalues ≤ 100
      → Steps cid c
      → Steps cid (begin_sequence cid gid digits nvalues c)
  rounds :
      {c c' : Client} (replica : ℕ) (r : Option Modification × ℕ)
      → client_round cid c replica r ≡ goes_on c'
      → Steps cid c
      → Steps cid c'

-- In every state of a client, whatever answers are lost or repeated, the low bits of its serial
-- are its id; an index it writes is below the length of its sequence, one it clears is not, and
-- both are below 100; and no phase was completed more often than the one before it, or less often
-- by more than the one in progress.
pub Steps-Phased : (cid : ℕ) (c : Client) → cid < 4096 → Steps cid c → Phased cid c
unfolding begin_sequence
Steps-Phased cid c h (starts leader) = record {
  own = omega (arith, h);
  counts = (refl, refl, refl);
  within = tt;
}
Steps-Phased cid c h (begins {c = d} gid nvalues digits e a b s) =
    let p = Steps-Phased cid d h s in
    record { own = own_next d.serial cid p.own; counts = move-Counts d e p.counts; within = (a, b) }
Steps-Phased cid c h (rounds {c = d} {c' = c'} replica r e s) =
    subst (Goes cid) e (round-Goes cid replica d r (Steps-Phased cid d h s))
