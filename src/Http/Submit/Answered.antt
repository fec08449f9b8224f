-- ===== src/Http/Submit/Answered.antt =====
-- The retries end, and what they return arrived in the last of them.
use doom_draft.Base.{
  ℕ, zero, suc, ◌+◌, ◌%◌, ◌≤◌, ◌≡◌, refl, sym, ◌∙◌, ap, true, Option, none, some, ◌⊎◌, inl, inr,
  length, get_elem?, arith, if_cases,
}
use doom_draft.Msgs.{
  Errc, ok, not_found, no_match, redirect, Modification, Response, redirection_response,
  get_response, put_response, cas_response, remove_response,
}
use doom_draft.Http.Submit.{
  HttpClientModel, max_attempts, Submission, attempted, is_errc_ok, ask, committed_by, concluded,
  try_put, submit_put, leader_after,
}

-- The last try, `tries` after the one numbered `from`, asked `replica`; an `ok` answer to the put
-- arrived in it, whose version is returned, and that replica is made the leader.
abbrev pub Answered : (ℕ → ℕ → Option Response) → ℕ → Submission → Type 0
Answered answer from s =
    (tries : ℕ) × (replica : ℕ) × (m : Modification) × (length s.asked ≡ suc tries)
    × (get_elem? s.asked tries ≡ some replica)
    × (answer (from + tries) replica ≡ some (put_response m))
    × (m.errcode ≡ ok)
    × (m.version ≡ s.version)
    × (s.leader ≡ some replica)

-- No try succeeded: nothing is returned, and no leader set.
abbrev pub Failed : Submission → Type 0
Failed s = (s.version ≡ 0) × (s.leader ≡ none)

is_errc_ok-ok : (e : Errc) → is_errc_ok e ≡ true → e ≡ ok
is_errc_ok-ok ok h = refl
is_errc_ok-ok not_found h = absurd cc
is_errc_ok-ok no_match h = absurd cc
is_errc_ok-ok redirect h = absurd cc

attempted-some :
    (replica : ℕ) (o : Option Response) (m : Modification) (r : ℕ)
    → attempted replica o ≡ (some m, r)
    → (o ≡ some (put_response m)) × (r ≡ replica)
attempted-some replica none m r e = absurd cc
attempted-some replica (some (redirection_response s c n)) m r e = absurd cc
attempted-some replica (some (get_response g)) m r e = absurd cc
attempted-some replica (some (put_response p)) m r e = (cc, cc)
attempted-some replica (some (cas_response p)) m r e = absurd cc
attempted-some replica (some (remove_response p)) m r e = absurd cc

concluded-cases :
    (P : Submission → Type 0) (n : ℕ) (again : ℕ → Submission) (o : Option Modification × ℕ)
    → ((r : ℕ) → P (again r))
    → ((m : Modification) (r : ℕ) → o ≡ (some m, r) → m.errcode ≡ ok → P (committed_by m r))
    → P (concluded n again o)
concluded-cases P n again (none, replica) h k = h ((replica + 1) % n)
concluded-cases P n again (some m, replica) h k =
    if_cases P (is_errc_ok m.errcode) (λ e. k m replica refl (is_errc_ok-ok m.errcode e))
      (λ e. h replica)

ask-Answered :
    (answer : ℕ → ℕ → Option Response) (from replica : ℕ) (s : Submission)
    → Answered answer (from + 1) s
    → Answered answer from (ask replica s)
ask-Answered answer from replica s (tries, r, m, l, a, e, k, v, h) =
    (suc tries, r, m, ap suc l, a, ap (λ (t : ℕ). answer t r) (omega arith) ∙ e, k, v, h)

try_put-Answered :
    (n left tries replica : ℕ) (answer : ℕ → ℕ → Option Response)
    → (let s = try_put n left tries replica answer in
        (length s.asked ≤ left) × (Failed s ⊎ Answered answer tries s))
unfolding try_put
try_put-Answered n zero tries replica answer = (omega arith, inl (refl, refl))
try_put-Answered n (suc left) tries replica answer =
    concluded-cases
      (λ (s : Submission).
        (length (ask replica s).asked ≤ suc left)
        × (Failed (ask replica s) ⊎ Answered answer tries (ask replica s)))
      n (λ (next : ℕ). try_put n left (tries + 1) next answer)
      (attempted replica (answer tries replica))
      (λ r.
        let (l, h) = try_put-Answered n left (tries + 1) r answer in
        (
          omega (arith, l),
          elim h [
            | inl f ↦ inl f
            | inr a ↦
                inr (ask-Answered answer tries replica (try_put n left (tries + 1) r answer) a)
          ],
        ))
      λ m r e k.
        let (a, b) = attempted-some replica (answer tries replica) m r e in
        (
          omega arith,
          inr (
            0,
            replica,
            m,
            refl,
            refl,
            ap (λ (t : ℕ). answer t replica) (omega arith) ∙ a,
            k,
            refl,
            ap (λ (x : ℕ). some x) b,
          ),
        )

-- A submission asks at most twelve replicas. Either it returns 0 and leaves the leader; or an `ok`
-- answer to the put arrived in its last try, it returns the version of that answer, and the leader
-- is from there on the replica that this try asked.
pub submit_put-Answered :
    (n : ℕ) (c : HttpClientModel) (answer : ℕ → ℕ → Option Response)
    → (let (s, c') = submit_put n c answer in
        (length s.asked ≤ 12)
        × (((s.version ≡ 0) × (c'.leader ≡ c.leader))
            ⊎ (Answered answer 0 s × (s.leader ≡ some c'.leader))))
unfolding submit_put
submit_put-Answered n c answer =
    let (l, h) = try_put-Answered n max_attempts 0 c.leader answer in
    (
      l,
      elim h [
        | inl (v, e) ↦ inl (v, ap (leader_after c.leader) e)
        | inr a ↦
            let (tries, replica, m, asked, last, arrived, code, version, e) = a in
            inr (a, e ∙ ap (λ (x : ℕ). some x) (sym (ap (leader_after c.leader) e)))
      ],
    )
