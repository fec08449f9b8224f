-- ===== src/Lockseq/Client/Phases.antt =====
-- The phases of a client follow each other, within the bounds of its sequence.
use doom_draft.Base.{
  ℕ, ◌+◌, ◌%◌, ◌<◌, ◌≤◌, ◌≡◌, refl, sym, subst, ◌&&◌, not, ◌==◌, ltb, if_cases, if_both, word,
  arith,
}
use doom_draft.OrdMap.{same_key}
use doom_draft.Keys.{bytes_ord}
use doom_draft.Msgs.{Errc, ok, not_found, no_match, redirect, Modification}
use doom_draft.Lockseq.{starts_with}
use doom_draft.Lockseq.Client.{
  max_sequence_length, Phase, idle, locking, writing, clearing, unlocking, Client, client_prefix,
  Outcome, goes_on, throws, locked, cleared, clear_next, write_next, lock_answered, is_code_ok,
  write_answered, clear_answered, unlock_answered, answered_in,
}

-- How far each phase was completed: no phase is ahead of the one before it, or behind it by more
-- than the one in progress.
abbrev pub Counts : Phase → ℕ → ℕ → ℕ → ℕ → Type 0
Counts idle l w c u = (w ≡ l) × (c ≡ l) × (u ≡ l)
Counts locking l w c u = (w ≡ l) × (c ≡ l) × (u ≡ l)
Counts writing l w c u = (l ≡ w + 1) × (c ≡ w) × (u ≡ w)
Counts clearing l w c u = (w ≡ l) × (l ≡ c + 1) × (u ≡ c)
Counts unlocking l w c u = (w ≡ l) × (c ≡ l) × (l ≡ u + 1)

-- The index that a phase is at.
abbrev pub Within : Phase → ℕ → ℕ → Type 0
Within idle n nvalues = Unit
Within locking n nvalues = (1 ≤ nvalues) × (nvalues ≤ 100)
Within writing n nvalues = (n < nvalues) × (nvalues ≤ 100)
Within clearing n nvalues = (nvalues ≤ n) × (n < 100)
Within unlocking n nvalues = Unit

pub record Phased (cid : ℕ) (c : Client) : Type 0 where
  pub own : c.serial % 4096 ≡ cid
  pub counts : Counts c.phase c.lock_complete c.write_complete c.clear_complete c.unlock_complete
  pub within : Within c.phase c.n c.nvalues

-- An outcome that goes on does so in order.
abbrev pub Goes : ℕ → Outcome → Type 0
Goes cid (goes_on c) = Phased cid c
Goes cid (throws e) = Unit

pub own_next : (s cid : ℕ) → s % 4096 ≡ cid → (s + 4096) % word % 4096 ≡ cid
own_next s cid h = omega (arith, h)

pub move-Counts :
    (c : Client) {x y : Phase}
    → x ≡ y
    → Counts x c.lock_complete c.write_complete c.clear_complete c.unlock_complete
    → Counts y c.lock_complete c.write_complete c.clear_complete c.unlock_complete
move-Counts c e k =
    subst
      (λ (x : Phase). Counts x c.lock_complete c.write_complete c.clear_complete c.unlock_complete)
      e k

move-Within : (c : Client) {x y : Phase} → x ≡ y → Within x c.n c.nvalues → Within y c.n c.nvalues
move-Within c e b = subst (λ (x : Phase). Within x c.n c.nvalues) e b

cleared-Phased :
    (cid : ℕ) (c : Client)
    → c.serial % 4096 ≡ cid
    → Counts clearing c.lock_complete c.write_complete c.clear_complete c.unlock_complete
    → Phased cid (cleared c)
cleared-Phased cid c o k = record {
  own = own_next c.serial cid o;
  counts = (k.0, omega (arith, k), omega (arith, k));
  within = tt;
}

clear_next-Phased :
    (cid : ℕ) (c : Client)
    → c.serial % 4096 ≡ cid
    → Counts clearing c.lock_complete c.write_complete c.clear_complete c.unlock_complete
    → c.nvalues ≤ c.n
    → Phased cid (clear_next c)
clear_next-Phased cid c o k b =
    if_cases (Phased cid) (ltb c.n max_sequence_length)
      (λ e. record { own = own_next c.serial cid o; counts = k; within = (b, ground (arith, e)) })
      (λ e. cleared-Phased cid c o k)

write_next-Phased :
    (cid : ℕ) (c : Client)
    → c.phase ≡ writing
    → c.serial % 4096 ≡ cid
    → Counts writing c.lock_complete c.write_complete c.clear_complete c.unlock_complete
    → c.n ≤ c.nvalues
    → c.nvalues ≤ 100
    → Phased cid (write_next c)
write_next-Phased cid c f o k b l =
    if_cases (Phased cid) (not (c.n == c.nvalues))
      (λ e. record {
        own = own_next c.serial cid o;
        counts = move-Counts c (sym f) k;
        within = move-Within c (sym f) (ground (arith, e, b), l);
      })
      (λ e.
        clear_next-Phased cid (record c { write_complete = c.write_complete + 1 }) o
          (omega (arith, k), omega (arith, k), omega (arith, k)) (ground (arith, e)))

locked-Phased :
    (cid version : ℕ) (c : Client)
    → c.phase ≡ locking
    → Phased cid c
    → Phased cid (locked version c)
locked-Phased cid version c e p =
    let k = move-Counts c e p.counts in
    let b = move-Within c e p.within in
    write_next-Phased cid
      (record c {
        lock_version = version;
        lock_complete = c.lock_complete + 1;
        n = 0;
        phase = writing;
      })
      refl p.own (omega (arith, k), omega (arith, k), omega (arith, k)) (omega (arith, b)) b.1

lock-Goes :
    (cid : ℕ) (c : Client) (m : Modification) (code : Errc)
    → m.errcode ≡ code
    → c.phase ≡ locking
    → Phased cid c
    → Goes cid (lock_answered cid c m)
unfolding lock_answered
lock-Goes cid c m ok q e p = rw (lock_answered, q) (locked-Phased cid m.version c e p)
lock-Goes cid c m not_found q e p = rw (lock_answered, q) tt
lock-Goes cid c m redirect q e p = rw (lock_answered, q) tt
lock-Goes cid c m no_match q e p =
    rw (lock_answered, q)
      (if_both (Goes cid) (same_key m.actual c.value && ltb 0 c.tries)
        (locked-Phased cid m.version c e p)
        (if_both (Goes cid) (not (starts_with m.actual (client_prefix cid))) tt
          (record { own = p.own; counts = p.counts; within = p.within })))

write-Goes :
    (cid : ℕ) (c : Client) (m : Modification)
    → c.phase ≡ writing
    → Phased cid c
    → Goes cid (write_answered c m)
unfolding write_answered
write-Goes cid c m e p =
    let b = move-Within c e p.within in
    if_both (Goes cid) (not (is_code_ok m.errcode)) tt (
      write_next-Phased cid (record c { n = c.n + 1 }) e p.own (move-Counts c e p.counts)
        (omega (arith, b)) b.1)

clear-Goes :
    (cid : ℕ) (c : Client) (m : Modification) (code : Errc)
    → m.errcode ≡ code
    → c.phase ≡ clearing
    → Phased cid c
    → Goes cid (clear_answered c m)
unfolding clear_answered
clear-Goes cid c m code q e p = by_code code q
  where
    k : Counts clearing c.lock_complete c.write_complete c.clear_complete c.unlock_complete
    k = move-Counts c e p.counts

    next : Phased cid (clear_next (record c { n = c.n + 1 }))
    next =
        let b = move-Within c e p.within in
        clear_next-Phased cid (record c { n = c.n + 1 }) p.own k (omega (arith, b))

    by_code : (x : Errc) → m.errcode ≡ x → Goes cid (clear_answered c m)
    by_code ok r = rw (clear_answered, r) next
    by_code not_found r =
        rw (clear_answered, r)
          (if_both (Goes cid) (c.tries == 0) (cleared-Phased cid c p.own k) next)
    by_code no_match r = rw (clear_answered, r) tt
    by_code redirect r = rw (clear_answered, r) tt

unlock-Goes :
    (cid : ℕ) (c : Client) (m : Modification)
    → c.phase ≡ unlocking
    → Phased cid c
    → Goes cid (unlock_answered c m)
unfolding unlock_answered
unlock-Goes cid c m e p =
    let k = move-Counts c e p.counts in
    if_both (Goes cid) (not (is_code_ok m.errcode) && c.tries == 0) tt
      (record { own = p.own; counts = (k.0, k.1, omega (arith, k)); within = tt })

pub answered-Goes :
    (cid : ℕ) (c : Client) (m : Modification) (x : Phase)
    → c.phase ≡ x
    → Phased cid c
    → Goes cid (answered_in x cid c m)
unfolding answered_in
answered-Goes cid c m idle e p = p
answered-Goes cid c m locking e p = lock-Goes cid c m m.errcode refl e p
answered-Goes cid c m writing e p = write-Goes cid c m e p
answered-Goes cid c m clearing e p = clear-Goes cid c m m.errcode refl e p
answered-Goes cid c m unlocking e p = unlock-Goes cid c m e p
