-- ===== src/Http/Submit/Retry.antt =====
-- The retries find the replica that answers, and miss the one that a redirection names.
use native.Mathlib.Nat.{mod-eq_of_lt, mod_self}
use doom_draft.Base.{
  ℕ, zero, suc, ◌+◌, ◌%◌, ◌≤◌, ◌<◌, ◌≡◌, ◌≢◌, refl, sym, ◌∙◌, ap, subst, List, [], ◌∷◌, Option,
  none, some, ◌⊎◌, inl, inr, ℕ_discrete, dec_le, ◌-◌, length, arith,
}
use doom_draft.Msgs.{Errc, ok, Modification, Response, redirection_response, put_response}
use doom_draft.Http.Submit.{
  HttpClientModel, max_attempts, Submission, attempted, ask, concluded, try_put, submit_put,
  leader_after,
}

-- Steps of one replica each that lead to the one that answers, around the ring.
abbrev Distance : ℕ → ℕ → ℕ → ℕ → Type 0
Distance n replica good d = (replica + d ≡ good) ⊎ (replica + d ≡ good + n)

start-Distance :
    (n replica good : ℕ) → replica < n → good < n → (d : ℕ) × Distance n replica good d × (d < n)
start-Distance n replica good r g = elim (dec_le replica good) [
  | yes e ↦ (good - replica, inl (omega arith), omega arith)
  | no e ↦ (good + n - replica, inr (omega arith), omega arith)
]

next-Distance :
    (n replica good d : ℕ)
    → replica < n
    → good < n
    → Distance n replica good (suc d)
    → replica ≢ good
    → ((replica + 1) % n < n) × Distance n ((replica + 1) % n) good d
next-Distance n replica good d h k p ne = elim (ℕ_discrete (replica + 1) n) [
  | yes e ↦
      let z : (replica + 1) % n ≡ 0 = ap (λ (x : ℕ). x % n) e ∙ mod_self n in
      rw z (omega arith, ground (arith, p))
  | no e ↦
      let z : (replica + 1) % n ≡ replica + 1 = mod-eq_of_lt (omega arith) in
      rw z (omega arith, ground (arith, p))
]

-- Every replica but one is silent, and that one answers every put it gets with `ok`.
abbrev pub OnlyOne : ℕ → ℕ → (ℕ → ℕ → Option Response) → Type 0
OnlyOne good version answer =
    ((t r : ℕ) → r ≢ good → answer t r ≡ none)
    × ((t : ℕ)
        → (m : Modification) × (answer t good ≡ some (put_response m))
          × (m.errcode ≡ ok)
          × (m.version ≡ version))

-- The submission went to the replica that answers, within so many tries.
abbrev Reached : ℕ → ℕ → ℕ → Submission → Type 0
Reached good version d s = (s.version ≡ version) × (s.leader ≡ some good) × (length s.asked ≤ d)

here-Reached :
    (n good version d t replica : ℕ) (again : ℕ → Submission) (answer : ℕ → ℕ → Option Response)
    → OnlyOne good version answer
    → replica ≡ good
    → Reached good version
        (suc d)
        (ask replica (concluded n again (attempted replica (answer t replica))))
here-Reached n good version d t replica again answer o e =
    let (m, a, k, v) = o.1 t in
    let a' : answer t replica ≡ some (put_response m) = ap (answer t) e ∙ a in
    rw (a', k) (v, ap (λ (x : ℕ). some x) e, omega arith)

silent-Reached :
    (n good version d t replica : ℕ) (again : ℕ → Submission) (answer : ℕ → ℕ → Option Response)
    → OnlyOne good version answer
    → replica ≢ good
    → Reached good version d (again ((replica + 1) % n))
    → Reached good version
        (suc d)
        (ask replica (concluded n again (attempted replica (answer t replica))))
silent-Reached n good version d t replica again answer o e h =
    rw (o.0 t replica e) (h.0, h.1, omega (arith, h))

try_put-Reached :
    (n good version left tries replica d : ℕ) (answer : ℕ → ℕ → Option Response)
    → OnlyOne good version answer
    → good < n
    → replica < n
    → Distance n replica good d
    → d < n
    → d < left
    → Reached good version (suc d) (try_put n left tries replica answer)
unfolding try_put
try_put-Reached n good version zero tries replica d answer o g r p b l = absurd (omega arith)
try_put-Reached n good version (suc left) tries replica zero answer o g r p b l =
    here-Reached n good version zero tries replica
      (λ (next : ℕ). try_put n left (tries + 1) next answer) answer o (ground (arith, p))
try_put-Reached n good version (suc left) tries replica (suc d) answer o g r p b l =
    elim (ℕ_discrete replica good) [
      | yes e ↦
          here-Reached n good version (suc d) tries replica
            (λ (next : ℕ). try_put n left (tries + 1) next answer) answer o e
      | no e ↦
          let (r', p') = next-Distance n replica good d r g p e in
          silent-Reached n good version (suc d) tries replica
            (λ (next : ℕ). try_put n left (tries + 1) next answer) answer o e
            (try_put-Reached n good version left (tries + 1) ((replica + 1) % n) d answer o g r' p'
              (omega arith) (omega arith))
    ]

-- With at most twelve replicas of which one answers every put with `ok` and the others are silent,
-- a submission that starts at any replica is answered: it returns the version of that replica's
-- answer after at most as many tries as there are replicas, and takes it for the leader.
pub submit_put-OnlyOne :
    (n good version : ℕ) (c : HttpClientModel) (answer : ℕ → ℕ → Option Response)
    → n ≤ 12
    → good < n
    → c.leader < n
    → OnlyOne good version answer
    → (let (s, c') = submit_put n c answer in
        (s.version ≡ version) × (c'.leader ≡ good) × (length s.asked ≤ n))
unfolding submit_put
submit_put-OnlyOne n good version c answer l g r o =
    let (d, p, b) = start-Distance n c.leader good r g in
    let h =
      try_put-Reached n good version max_attempts 0 c.leader d answer o g r p b
        (omega (arith, b, l)) in
    (h.0, ap (leader_after c.leader) h.1, omega (arith, h, b))

-- What replicas that know their leader do: they redirect, and the leader answers with `ok`.
abbrev pub AllRedirect : ℕ → (ℕ → ℕ → Option Response) → Type 0
AllRedirect good answer =
    (t r : ℕ)
    → r ≢ good
    → (serial : ℕ) × (e : Errc) × (answer t r ≡ some (redirection_response serial e good))

abbrev pub NeverIn : ℕ → List ℕ → Type 0
NeverIn x [] = Unit
NeverIn x (y ∷ l) = (y ≢ x) × NeverIn x l

astray :
    (n good left tries : ℕ) (answer : ℕ → ℕ → Option Response)
    → AllRedirect good answer
    → (good + 1) % n ≢ good
    → (let s = try_put n left tries ((good + 1) % n) answer in
        (s.version ≡ 0) × NeverIn good s.asked)
unfolding try_put
astray n good zero tries answer h k = (refl, tt)
astray n good (suc left) tries answer h k =
    let (serial, e, a) = h tries ((good + 1) % n) k in
    let later = astray n good left (tries + 1) answer h k in rw a (later.0, (k, later.1))

-- When every replica but one redirects to that one, a submission that starts just behind it in the
-- ring never asks it and returns 0, whatever it would answer: the redirection sets the replica,
-- and the retry moves on by one from there.
pub submit_put-AllRedirect :
    (n good : ℕ) (c : HttpClientModel) (answer : ℕ → ℕ → Option Response)
    → AllRedirect good answer
    → c.leader ≡ (good + 1) % n
    → (good + 1) % n ≢ good
    → (let s = (submit_put n c answer).0 in (s.version ≡ 0) × NeverIn good s.asked)
unfolding submit_put
submit_put-AllRedirect n good c answer h e k =
    subst
      (λ (l : ℕ).
        let s = try_put n max_attempts 0 l answer in (s.version ≡ 0) × NeverIn good s.asked)
      (sym e) (astray n good max_attempts 0 answer h k)
