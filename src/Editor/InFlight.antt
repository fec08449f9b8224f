-- ===== src/Editor/InFlight.antt =====
-- The operations that an editor waits for.
use doom_draft.Base.{
  ℕ, suc, ◌+◌, ◌<◌, ◌≡◌, refl, sym, ◌∙◌, ap, subst, List, [], ◌∷◌, ◌++◌, Option, none, some, ◌==◌,
  if_both, length, length-append, add64_exact, word, arith,
}
use doom_draft.DocOps.{DocOp}
use doom_draft.Msgs.{GetResponse}
use doom_draft.Editor.{
  EditorState, Best, choose_best, transform_all, pop_pending, next_of_peer, take_committed,
  sync_committed_ops, edit,
}

-- The numbers `first`, `first + 1` and so on, below `last`.
abbrev pub Run : ℕ → ℕ → List ℕ → Type 0
Run first last [] = first ≡ last
Run first last (q ∷ seqs) = (q ≡ first) × Run (suc first) last seqs

-- The queued operations carry consecutive numbers, the last one just below `next_seq`.
abbrev pub InFlight : EditorState → Type 0
InFlight es =
    (length es.pending ≡ length es.pending_seqs)
    × ((first : ℕ) × Run first es.next_seq es.pending_seqs)

length-transform_all :
    (pending : List DocOp) (op : DocOp) → length (transform_all pending op) ≡ length pending
length-transform_all [] op = refl
length-transform_all (p ∷ pending) op = ap suc (length-transform_all pending op)

pop-InFlight :
    (seq : ℕ) (es : EditorState) (pending : List DocOp) (seqs : List ℕ)
    → InFlight es
    → length pending ≡ length seqs
    → ((first : ℕ) × Run first es.next_seq seqs)
    → InFlight (pop_pending seq es pending seqs)
pop-InFlight seq es [] seqs h l r = h
pop-InFlight seq es (p ∷ pending) [] h l r = h
pop-InFlight seq es (p ∷ pending) (q ∷ seqs) h l (first, (e, r)) =
    if_both InFlight (q == seq) (omega (arith, l), (suc first, r)) h

take-InFlight :
    (cid : ℕ) (es : EditorState) (best : Best) → InFlight es → InFlight (take_committed cid es best)
unfolding take_committed
take-InFlight cid es best (l, r) =
    if_both (λ q. InFlight (next_of_peer q best.peer)) (best.peer == cid)
      (pop-InFlight best.seq es es.pending es.pending_seqs (l, r) l r)
      (length-transform_all es.pending best.op ∙ l, r)

-- Learning committed operations keeps the queued ones numbered consecutively up to the editor's
-- next number, whatever the replicas answer: an operation leaves only from the front.
pub sync-InFlight :
    (cid : ℕ) (es : EditorState) (rounds : List (List (Option GetResponse) × ℕ))
    → InFlight es
    → InFlight (sync_committed_ops cid es rounds)
unfolding sync_committed_ops
sync-InFlight cid es [] h = h
sync-InFlight cid es ((answers, leader) ∷ rounds) h =
    let led = record es { leader = leader } in
    elim (choose_best es 0 none answers)
      as (λ (b : Option Best). InFlight (elim b [
        | none ↦ led
        | some best ↦ sync_committed_ops cid (take_committed cid led best) rounds
      ])) [
        | none ↦ h
        | some best ↦
            sync-InFlight cid (take_committed cid led best) rounds (take-InFlight cid led best h)
      ]

Run-append :
    (first last : ℕ) (seqs : List ℕ)
    → Run first last seqs
    → Run first (last + 1) (seqs ++ last ∷ [])
Run-append first last [] h = (sym h, omega (arith, h))
Run-append first last (q ∷ seqs) (e, h) = (e, Run-append (suc first) last seqs h)

-- So does an edit, while the numbers last.
pub edit-InFlight :
    (es : EditorState) (op : DocOp) → es.next_seq + 1 < word → InFlight es → InFlight (edit es op)
unfolding edit
edit-InFlight es op w (l, (first, r)) = (
  length-append es.pending (op ∷ [])
      ∙ ap (λ n. n + 1) l
      ∙ sym (length-append es.pending_seqs (es.next_seq ∷ [])),
  (
    first,
    subst (λ n. Run first n (es.pending_seqs ++ es.next_seq ∷ []))
        (sym (add64_exact es.next_seq 1 w)) (Run-append first es.next_seq es.pending_seqs r),
  ),
)
