-- ===== src/Lockseq/Groups.antt =====
-- Where the check enters a group.
use mathlib.Core.Path.{ap₂}
use doom_draft.Base.{
  ℕ, ◌+◌, ◌<◌, ◌≡◌, ◌≢◌, refl, sym, ◌∙◌, ap, false, [], ◌∷◌, ◌++◌, Option, none, some, Option-cases,
  inl, inr, if_cases, ◌==◌, arith,
}
use doom_draft.DocOps.{Bytes}
use doom_draft.Decimal.{to_string}
use doom_draft.Http.Text.{strip_prefix, split_byte}
use doom_draft.Lockseq.{unsigned, parse_digits, starts_with, Checker, enter_group, in_group}
use doom_draft.Lockseq.Sequences.{prefix_of, split-prefix_of, parse-to_string, new_group-prefix_of}

strip_exact : (p s t : Bytes) → strip_prefix p s ≡ some t → s ≡ p ++ t
strip_exact [] s t h = cc h
strip_exact (c ∷ p) [] t h = absurd (cc h)
strip_exact (c ∷ p) (x ∷ s) t h =
    if_cases (λ (o : Option Bytes). o ≡ some t → x ∷ s ≡ c ∷ (p ++ t)) (c == x)
      (λ e k. ap₂ (λ (a : ℕ) (l : Bytes). a ∷ l) (ground (arith, e)) (strip_exact p s t k))
      (λ e k. absurd (cc k)) h

-- A key of one group does not start with the prefix of another.
starts_elsewhere :
    (gid other : ℕ) (s : Bytes)
    → gid + 1 < unsigned
    → other + 1 < unsigned
    → gid ≢ other
    → starts_with (prefix_of gid ++ s) (prefix_of other) ≡ false
starts_elsewhere gid other s h k n =
    elim (Option-cases (strip_prefix (prefix_of other) (prefix_of gid ++ s))) [
      | inl e ↦ rw (starts_with, e) refl
      | inr (t, e) ↦
          let same : some (b'g' ∷ to_string gid, s) ≡ some (b'g' ∷ to_string other, t) =
            sym (split-prefix_of gid s)
            ∙ ap (split_byte b'/') (strip_exact (prefix_of other) (prefix_of gid ++ s) t e)
            ∙ split-prefix_of other t in
          let digits : to_string gid ≡ to_string other = cc same in
          let number : some gid ≡ some other =
            sym (parse-to_string gid h) ∙ ap parse_digits digits ∙ parse-to_string other k in
          let own : gid ≡ other = cc number in absurd (n own)
    ]

-- The check stands before the first group, or in another one.
abbrev pub Before : Option ℕ → ℕ → Checker → Type 0
Before none gid c = c.last_group ≡ []
Before (some other) gid c =
    (c.last_group ≡ prefix_of other) × (other + 1 < unsigned) × (gid ≢ other)

-- The first cell of a group enters it.
pub enters :
    (o : Option ℕ) (gid : ℕ) (c : Checker) (s : Bytes)
    → gid + 1 < unsigned
    → Before o gid c
    → in_group (prefix_of gid ++ s) c ≡ some (enter_group (prefix_of gid))
unfolding in_group
enters none gid c s h b = rw (in_group, b, new_group-prefix_of gid s h) refl
enters (some other) gid c s h (b, k, n) =
    rw (in_group, b, starts_elsewhere gid other s h k n, new_group-prefix_of gid s h) refl
