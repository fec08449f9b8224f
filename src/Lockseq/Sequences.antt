-- ===== src/Lockseq/Sequences.antt =====
-- The check accepts the sequences of a group.
use doom_draft.Base.{
  ℕ, zero, suc, ◌+◌, ◌<◌, ◌≤◌, ◌≡◌, refl, sym, ◌∙◌, ap, true, false, not, ◌||◌, List, [], ◌∷◌, ◌++◌,
  append_assoc, some, ◌==◌, ==_refl, ltb, is_empty, drop, length, length-append, codes, arith,
}
use doom_draft.OrdMap.{same_key}
use doom_draft.Keys.{bytes_ord, compare_bytes}
use doom_draft.Decimal.{to_string}
use doom_draft.DocOps.{Bytes}
use doom_draft.Db.{Vv}
use doom_draft.DocState.Keying.{Digits, to_string-Digits, drop_append, length-to_string_pos}
use doom_draft.Http.Text.{strip_prefix, split_byte}
use doom_draft.Http.Handlers.Commit.{same_key-own}
use doom_draft.Lockseq.{
  unsigned, three_digits, make_value_key, make_lock_key, parse_digits, new_group, group_number,
  starts_with, Checker, enter_group, in_group, check_lock, check_value, check_member, member_of,
  check_key, check_keys,
}
use doom_draft.Lockseq.Keys.{value_index-three_digits, digits_to_string, parse_nonempty}

-- What the keys of a group start with.
abbrev pub prefix_of : ℕ → Bytes
prefix_of gid = b'g' ∷ (to_string gid ++ b'/' ∷ [])

split-Digits : (s rest : Bytes) → Digits s → split_byte b'/' (s ++ b'/' ∷ rest) ≡ some (s, rest)
unfolding split_byte
split-Digits [] rest h = refl
split-Digits (c ∷ s) rest h = ground (arith, split-Digits s rest h.1)

strip-own : (p s : Bytes) → strip_prefix p (p ++ s) ≡ some s
strip-own [] s = refl
strip-own (c ∷ p) s = rw (==_refl c) (strip-own p s)

pub split-prefix_of :
    (gid : ℕ) (s : Bytes) → split_byte b'/' (prefix_of gid ++ s) ≡ some (b'g' ∷ to_string gid, s)
unfolding split_byte
split-prefix_of gid s =
    rw
      (
        append_assoc (to_string gid) (b'/' ∷ []) s,
        split-Digits (to_string gid) s (to_string-Digits gid),
      )
      refl

length-prefix_of : (gid : ℕ) (s : Bytes) → 2 < length (prefix_of gid ++ s)
length-prefix_of gid s =
    let l = length-append (to_string gid ++ b'/' ∷ []) s in
    let m = length-append (to_string gid) (b'/' ∷ []) in
    omega (arith, l, m, length-to_string_pos gid)

pub parse-to_string : (gid : ℕ) → gid + 1 < unsigned → parse_digits (to_string gid) ≡ some gid
parse-to_string gid h =
    parse_nonempty (to_string gid) (length-to_string_pos gid) ∙ digits_to_string gid h

-- The group of a key.
pub new_group-prefix_of :
    (gid : ℕ) (s : Bytes)
    → gid + 1 < unsigned
    → new_group (prefix_of gid ++ s) ≡ some (prefix_of gid)
unfolding new_group
new_group-prefix_of gid s h =
    let long : ltb (length (prefix_of gid ++ s)) 3 ≡ false =
      ground (arith, length-prefix_of gid s) in
    rw
      (
        new_group,
        group_number,
        long,
        same_key-own {K = Bytes} (b'g' ∷ []),
        split-prefix_of gid s,
        parse-to_string gid h,
      )
      refl

starts-own : (p s : Bytes) → starts_with (p ++ s) p ≡ true
starts-own p s = rw (starts_with, strip-own p s) refl

pub stays_in :
    (g s : Bytes) (c : Checker)
    → c.last_group ≡ g
    → is_empty g ≡ false
    → in_group (g ++ s) c ≡ some c
unfolding in_group
stays_in g s c e n =
    let same : (is_empty c.last_group || not (starts_with (g ++ s) c.last_group)) ≡ false =
      ap (λ (l : Bytes). is_empty l || not (starts_with (g ++ s) l)) e
      ∙ rw (n, starts-own g s) refl in
    rw (in_group, same) refl

-- Inside its group, a value key is checked by what follows the prefix.
check_member-value :
    (g s value : Bytes) (c : Checker)
    → c.last_group ≡ g
    → same_key s (codes "lock") ≡ false
    → check_member (g ++ s) value c ≡ check_value s value c
unfolding check_member
check_member-value g s value c e n =
    let rest : drop (length c.last_group) (g ++ s) ≡ s =
      ap (λ (l : Bytes). drop (length l) (g ++ s)) e ∙ drop_append g s in
    rw (check_member, rest, n) refl

pub check_member-lock :
    (g value : Bytes) (c : Checker)
    → c.last_group ≡ g
    → check_member (g ++ codes "lock") value c ≡ check_lock value c
unfolding check_member
check_member-lock g value c e =
    let rest : drop (length c.last_group) (g ++ codes "lock") ≡ codes "lock" =
      ap (λ (l : Bytes). drop (length l) (g ++ codes "lock")) e ∙ drop_append g (codes "lock") in
    rw (check_member, rest, same_key-own {K = Bytes} (codes "lock")) refl

pub make_value_key-prefix_of :
    (gid vid : ℕ) → make_value_key gid vid ≡ prefix_of gid ++ b'v' ∷ three_digits vid
unfolding make_value_key
make_value_key-prefix_of gid vid =
    ap (λ (l : Bytes). b'g' ∷ l) (sym (append_assoc (to_string gid) (b'/' ∷ []) _))

pub make_lock_key-prefix_of : (gid : ℕ) → make_lock_key gid ≡ prefix_of gid ++ codes "lock"
unfolding make_lock_key
make_lock_key-prefix_of gid =
    ap (λ (l : Bytes). b'g' ∷ l) (sym (append_assoc (to_string gid) (b'/' ∷ []) _))

no_lock : (s : Bytes) → same_key {K = Bytes} (b'v' ∷ s) (codes "lock") ≡ false
unfolding compare_bytes
no_lock s = refl

-- The next value of the sequence.
pub next_value : Bytes → Checker → Checker
next_value value c = record c { expected_value = value; expected_index = c.expected_index + 1 }

check_value-next :
    (vid : ℕ) (value : Bytes) (c : Checker)
    → vid < 1000
    → is_empty value ≡ false
    → c.expected_index ≡ vid
    → (is_empty c.expected_value || same_key value c.expected_value) ≡ true
    → check_value (b'v' ∷ three_digits vid) value c ≡ some (next_value value c)
unfolding check_value next_value
check_value-next vid value c h n i e =
    let at : (vid == c.expected_index) ≡ true = ground (arith, i) in
    rw (check_value, value_index-three_digits vid h, n, at, e) refl

-- The cells of values with consecutive indices; `versions` says which version each has.
abbrev pub values : ℕ → (ℕ → ℕ) → ℕ → ℕ → Bytes → List (Bytes × Vv)
values gid versions i zero value = []
values gid versions i (suc m) value =
    (make_value_key gid i, record { value = value; version = versions i })
    ∷ values gid versions (suc i) m value

-- The check stands in the group, at this index, and takes this value.
pub record Expects (gid i : ℕ) (value : Bytes) (c : Checker) : Type 0 where
  pub group : c.last_group ≡ prefix_of gid
  pub index : c.expected_index ≡ i
  pub takes : (is_empty c.expected_value || same_key value c.expected_value) ≡ true

pub check_key-value :
    (gid vid : ℕ) (value : Bytes) (c : Checker)
    → c.last_group ≡ prefix_of gid
    → check_key (make_value_key gid vid) value c ≡ check_value (b'v' ∷ three_digits vid) value c
unfolding check_key
check_key-value gid vid value c e =
    let suffix : Bytes = b'v' ∷ three_digits vid in
    let key = prefix_of gid ++ suffix in
    ap (λ (k : Bytes). check_key k value c) (make_value_key-prefix_of gid vid)
    ∙ ap (member_of key value) (stays_in (prefix_of gid) suffix c e refl)
    ∙ check_member-value (prefix_of gid) suffix value c e (no_lock _)

-- What is left of the check behind a run of values.
pub record Ran (gid i m : ℕ) (value : Bytes) (c : Checker) (cells rest : List (Bytes × Vv))
    : Type 0 where
  pub after : Checker
  pub stands : Expects gid (i + m) value after
  pub lock : after.lock_state ≡ c.lock_state
  pub left : check_keys (cells ++ rest) c ≡ check_keys rest after

pub check_keys-Ran :
    (gid i m : ℕ) (versions : ℕ → ℕ) (value : Bytes) (c : Checker) (rest : List (Bytes × Vv))
    → is_empty value ≡ false
    → i + m ≤ 1000
    → Expects gid i value c
    → Ran gid i m value c (values gid versions i m value) rest
unfolding check_keys next_value
check_keys-Ran gid i zero versions value c rest n b x = record {
  after = c;
  stands = record { group = x.group; index = omega (arith, x.index); takes = x.takes };
  lock = refl;
  left = refl;
}
check_keys-Ran gid i (suc m) versions value c rest n b x =
    let taken : check_key (make_value_key gid i) value c ≡ some (next_value value c) =
      check_key-value gid i value c x.group
      ∙ check_value-next i value c (omega (arith, b)) n x.index x.takes in
    let next : Expects gid (suc i) value (next_value value c) = record {
      group = x.group;
      index = omega (arith, x.index);
      takes = rw (n, same_key-own {K = Bytes} value) refl;
    } in
    let r =
      check_keys-Ran gid (suc i) m versions value (next_value value c) rest n (omega (arith, b))
        next in
    record {
      after = r.after;
      stands = record {
        group = r.stands.group;
        index = omega (arith, r.stands.index);
        takes = r.stands.takes;
      };
      lock = r.lock;
      left = rw (check_keys, taken) r.left;
    }

pub entered : (gid : ℕ) (value : Bytes) → Expects gid 0 value (enter_group (prefix_of gid))
entered gid value = record { group = refl; index = refl; takes = refl }
