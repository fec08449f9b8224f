-- ===== src/Lockseq/Rounds.antt =====
-- The rounds of the check of a store: a first key, a value, a gap and a held lock.
use doom_draft.Base.{
  ℕ, zero, suc, ◌+◌, ◌<◌, ◌≤◌, ◌≡◌, ◌≢◌, refl, sym, ◌∙◌, ap, true, false, ◌||◌, List, [], ◌∷◌, ◌++◌,
  Option, none, some, ◌==◌, ltb, is_empty, take, length, Bool-cases, inl, inr, codes, arith,
}
use doom_draft.OrdMap.{same_key}
use doom_draft.Keys.{bytes_ord}
use doom_draft.DocOps.{Bytes}
use doom_draft.Db.{Vv}
use doom_draft.Http.Handlers.Commit.{same_key-own}
use doom_draft.Lockseq.{
  unsigned, in_group, three_digits, make_value_key, make_lock_key, Checker, enter_group, check_lock,
  check_value, member_of, check_key, check_keys, ls_unlocked, ls_locked_start, ls_locked_rest,
}
use doom_draft.Lockseq.Keys.{value_index-three_digits}
use doom_draft.Lockseq.Groups.{Before, enters}
use doom_draft.Lockseq.Sequences.{
  prefix_of, stays_in, check_member-lock, make_value_key-prefix_of, make_lock_key-prefix_of, values,
  Expects, check_key-value, check_keys-Ran,
}

-- The first key, if there is one, is of the group.
unfoldable pub FirstIn : ℕ → List (Bytes × Vv) → Type 0
FirstIn gid [] = Unit
FirstIn gid ((key, v) ∷ m) = (s : Bytes) × (key ≡ prefix_of gid ++ s)

-- A step that gives a checker goes on with it.
pub check_keys-step :
    (key : Bytes) (v : Vv) (m : List (Bytes × Vv)) (c c' : Checker)
    → check_key key v.value c ≡ some c'
    → check_keys ((key, v) ∷ m) c ≡ check_keys m c'
unfolding check_keys
check_keys-step key v m c c' e = rw (check_keys, e) refl

pub check_keys-stop :
    (key : Bytes) (v : Vv) (m : List (Bytes × Vv)) (c : Checker)
    → check_key key v.value c ≡ none
    → check_keys ((key, v) ∷ m) c ≡ some key
unfolding check_keys
check_keys-stop key v m c e = rw (check_keys, e) refl

-- The first cell of a group is checked as if the check stood at its start.
pub check_keys-enters :
    (o : Option ℕ) (gid : ℕ) (c : Checker) (cells : List (Bytes × Vv))
    → gid + 1 < unsigned
    → Before o gid c
    → FirstIn gid cells
    → check_keys cells c ≡ check_keys cells (enter_group (prefix_of gid))
unfolding check_keys check_key FirstIn
check_keys-enters o gid c [] h b f = refl
check_keys-enters o gid c ((key, v) ∷ m) h b (s, e) =
    let first : (d : Checker)
        → in_group (prefix_of gid ++ s) d ≡ some (enter_group (prefix_of gid))
        → check_key key v.value d
          ≡ member_of (prefix_of gid ++ s) v.value (some (enter_group (prefix_of gid))) =
      λ d g.
        ap (λ (k : Bytes). check_key k v.value d) e
        ∙ ap (member_of (prefix_of gid ++ s) v.value) g in
    let same : check_key key v.value c ≡ check_key key v.value (enter_group (prefix_of gid)) =
      first c (enters o gid c s h b)
      ∙ sym (
          first (enter_group (prefix_of gid))
            (stays_in (prefix_of gid) s (enter_group (prefix_of gid)) refl refl)) in
    rw (check_keys, same) refl

-- A value that follows other values in a locked group.
other_value :
    (gid vid : ℕ) (value : Bytes) (c : Checker)
    → vid < 1000
    → is_empty value ≡ false
    → c.last_group ≡ prefix_of gid
    → c.expected_index ≡ vid
    → c.lock_state ≡ ls_locked_start
    → (c' : Checker) × (check_value (b'v' ∷ three_digits vid) value c ≡ some c')
      × Expects gid (suc vid) value c'
unfolding check_value
other_value gid vid value c h n g i l =
    let at : (vid == c.expected_index) ≡ true = ground (arith, i) in
    let own = same_key-own {K = Bytes} value in
    elim (Bool-cases (is_empty c.expected_value || same_key value c.expected_value)) [
      | inl e ↦ (
        record c { expected_value = value; expected_index = c.expected_index + 1 },
        rw (check_value, value_index-three_digits vid h, n, at, e) refl,
        record { group = g; index = omega (arith, i); takes = rw (n, own) refl },
      )
      | inr e ↦ (
        record c {
          expected_value = value;
          expected_index = c.expected_index + 1;
          lock_state = ls_locked_rest;
        },
        rw (check_value, value_index-three_digits vid h, n, at, e, l) refl,
        record { group = g; index = omega (arith, i); takes = rw (n, own) refl },
      )
    ]

-- A gap in a group that nobody has locked.
pub gap_value :
    (gid vid : ℕ) (value : Bytes) (c : Checker)
    → vid < 1000
    → is_empty value ≡ false
    → c.expected_index ≢ vid
    → c.lock_state ≡ ls_unlocked
    → check_value (b'v' ∷ three_digits vid) value c ≡ none
unfolding check_value
gap_value gid vid value c h n i l =
    let at : (vid == c.expected_index) ≡ false = ground (arith, i) in
    rw (check_value, value_index-three_digits vid h, n, at, l) refl

pub values-FirstIn :
    (gid : ℕ) (versions : ℕ → ℕ) (i m : ℕ) (value : Bytes) (rest : List (Bytes × Vv))
    → FirstIn gid rest
    → FirstIn gid (values gid versions i m value ++ rest)
unfolding FirstIn
values-FirstIn gid versions i zero value rest f = f
values-FirstIn gid versions i (suc m) value rest f =
    (b'v' ∷ three_digits i, make_value_key-prefix_of gid i)

-- What is left of the check behind a part of a group.
pub record Past (gid : ℕ) (c : Checker) (cells rest : List (Bytes × Vv)) : Type 0 where
  pub after : Checker
  pub group : after.last_group ≡ prefix_of gid
  pub left : check_keys (cells ++ rest) c ≡ check_keys rest after

-- Behind the new values of a locked group, the old ones.
pub old_values :
    (gid i m : ℕ) (versions : ℕ → ℕ) (value : Bytes) (c : Checker) (rest : List (Bytes × Vv))
    → is_empty value ≡ false
    → i + m ≤ 1000
    → c.last_group ≡ prefix_of gid
    → c.expected_index ≡ i
    → c.lock_state ≡ ls_locked_start
    → Past gid c (values gid versions i m value) rest
unfolding check_keys
old_values gid i zero versions value c rest n b g x l = record { after = c; group = g; left = refl }
old_values gid i (suc m) versions value c rest n b g x l =
    let (c', e, s) = other_value gid i value c (omega (arith, b)) n g x l in
    let r = check_keys-Ran gid (suc i) m versions value c' rest n (omega (arith, b)) s in
    record {
      after = r.after;
      group = r.stands.group;
      left =
          check_keys-step (make_value_key gid i) (record { value = value; version = versions i })
            (values gid versions (suc i) m value ++ rest) c c' (check_key-value gid i value c g ∙ e)
          ∙ r.left;
    }

pub filled_owner : (owner : Bytes) → 4 ≤ length owner → is_empty owner ≡ false
filled_owner [] l = absurd (omega (arith, l))
filled_owner (c ∷ owner) l = refl

abbrev pub locked_by : ℕ → Bytes → Checker
locked_by gid owner = record (enter_group (prefix_of gid)) {
  lock_state = ls_locked_start;
  expected_value = owner;
}

check_lock-locked :
    (gid : ℕ) (owner : Bytes)
    → 4 ≤ length owner
    → take 1 owner ≡ b'c' ∷ []
    → check_lock owner (enter_group (prefix_of gid)) ≡ some (locked_by gid owner)
unfolding check_lock
check_lock-locked gid owner l o =
    let long : ltb (length owner) 4 ≡ false = ground (arith, l) in
    rw (check_lock, filled_owner owner l, long, o, same_key-own {K = Bytes} (b'c' ∷ [])) refl

pub lock_taken :
    (gid : ℕ) (owner : Bytes)
    → 4 ≤ length owner
    → take 1 owner ≡ b'c' ∷ []
    → check_key (make_lock_key gid) owner (enter_group (prefix_of gid)) ≡ some (locked_by gid owner)
unfolding check_key
lock_taken gid owner l o =
    let g = prefix_of gid in
    ap (λ (k : Bytes). check_key k owner (enter_group g)) (make_lock_key-prefix_of gid)
    ∙ ap (member_of (g ++ codes "lock") owner) (stays_in g (codes "lock") (enter_group g) refl refl)
    ∙ check_member-lock g owner (enter_group g) refl
    ∙ check_lock-locked gid owner l o
