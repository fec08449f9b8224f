-- ===== src/Lockseq.antt =====
-- pset4/lockseq_model.hh and lockseq_model.cc: the keys of the lock-and-sequence clients, and the
-- check of a store that they left.
pub mod Keys
pub mod Sequences
pub mod Groups
pub mod Rounds
pub mod Accepted
pub mod Client
use doom_draft.Base.{
  ℕ, ◌+◌, ◌-◌, ◌*◌, ◌%◌, ◌^◌, Bool, true, false, ◌||◌, not, List, [], ◌∷◌, ◌++◌, Option, none, some,
  ◌==◌, ltb, if◌then◌else◌, take, drop, is_empty, length, codes,
}
use doom_draft.OrdMap.{same_key}
use doom_draft.Keys.{bytes_ord}
use doom_draft.Decimal.{to_string}
use doom_draft.DocOps.{Bytes}
use doom_draft.Db.{Vv, PancyDb}
use doom_draft.Http.Text.{strip_prefix, split_byte}

-- `unsigned`.
abbrev pub unsigned : ℕ
unsigned = 2 ^ 32

-- `{:03}` of a number.
abbrev pub three_digits : ℕ → Bytes
three_digits n =
    let s = to_string n in if ltb n 10 then codes "00" ++ s else if ltb n 100 then b'0' ∷ s else s

unfoldable pub make_client_key : ℕ → Bytes
make_client_key cid = b'c' ∷ to_string cid

unfoldable pub make_group_key : ℕ → Bytes
make_group_key gid = b'g' ∷ to_string gid

unfoldable pub make_lock_key : ℕ → Bytes
make_lock_key gid = b'g' ∷ (to_string gid ++ codes "/lock")

unfoldable pub make_value_key : ℕ → ℕ → Bytes
make_value_key gid vid = b'g' ∷ (to_string gid ++ (codes "/v" ++ three_digits vid))

-- The loop of `parse_digits`; none is `unsigned(-1)`, which the digits can also make.
abbrev pub checked : ℕ → Option ℕ
checked v = if v == unsigned - 1 then none else some v

unfoldable pub digits_from : ℕ → Bytes → Option ℕ
digits_from v [] = checked v
digits_from v (ch ∷ s) =
    let vv = (v * 10 + ch - b'0') % unsigned in
    let more = digits_from vv s in
    if ltb ch b'0' || ltb b'9' ch then none else if ltb vv v then none else more

unfoldable pub parse_digits : Bytes → Option ℕ
unfolding digits_from
parse_digits [] = none
parse_digits (ch ∷ s) = digits_from 0 (ch ∷ s)

pub data LockState : Type 0 where
  ls_unlocked ls_locked_start ls_locked_rest : LockState

-- The local variables of `check`.
pub record Checker : Type 0 where
  pub last_group : Bytes
  pub expected_value : Bytes
  pub expected_index : ℕ
  pub lock_state : LockState

abbrev pub first_checker : Checker
first_checker = record {
  last_group = [];
  expected_value = [];
  expected_index = 0;
  lock_state = ls_unlocked;
}

abbrev pub starts_with : Bytes → Bytes → Bool
starts_with key prefix = elim (strip_prefix prefix key) [ none ↦ false | some s ↦ true ]

-- A group is entered: none if the key does not start with `g`, a number and a slash.
abbrev pub group_number : Bytes → Option (Bytes × Bytes) → Option Bytes
group_number key none = none
group_number key (some (digits, s)) = elim (parse_digits (drop 1 digits)) [
  | none ↦ none
  | some gid ↦ some (digits ++ b'/' ∷ [])
]

unfoldable pub new_group : Bytes → Option Bytes
unfolding split_byte parse_digits
new_group key =
    let group = group_number key (split_byte b'/' key) in
    if ltb (length key) 3 || not (same_key (take 1 key) (b'g' ∷ [])) then none else group

abbrev pub enter_group : Bytes → Checker
enter_group group = record {
  last_group = group;
  expected_value = [];
  expected_index = 0;
  lock_state = ls_unlocked;
}

unfoldable pub in_group : Bytes → Checker → Option Checker
unfolding new_group
in_group key c =
    let entered : Option Checker = elim (new_group key) [
      | none ↦ none
      | some group ↦ some (enter_group group)
    ] in
    if is_empty c.last_group || not (starts_with key c.last_group) then entered else some c

abbrev pub is_unlocked : LockState → Bool
is_unlocked ls_unlocked = true
is_unlocked ls_locked_start = false
is_unlocked ls_locked_rest = false

abbrev pub is_locked_start : LockState → Bool
is_locked_start ls_unlocked = false
is_locked_start ls_locked_start = true
is_locked_start ls_locked_rest = false

-- The lock key of a group; none is a failure at this key.
unfoldable pub check_lock : Bytes → Checker → Option Checker
check_lock value c =
    let locked = record c { lock_state = ls_locked_start; expected_value = value } in
    if not (c.expected_index == 0) || not (is_unlocked c.lock_state)
    then none
    else if is_empty value
    then some c
    else if ltb (length value) 4 || not (same_key (take 1 value) (b'c' ∷ []))
    then none
    else some locked

-- The index of a value key, behind the prefix of its group.
unfoldable pub value_index : Bytes → Option ℕ
unfolding parse_digits
value_index [] = none
value_index (ch ∷ s) =
    let index = parse_digits s in if not (length s == 3) || not (ch == b'v') then none else index

abbrev pub at_index : ℕ → Checker → Option Checker
at_index vindex c =
    if vindex == c.expected_index
    then some c
    else if not (is_locked_start c.lock_state) || ltb vindex c.expected_index
    then none
    else some
        (record c { lock_state = ls_locked_rest; expected_index = vindex; expected_value = [] })

abbrev pub with_value : Bytes → Checker → Option Checker
with_value value c =
    let next = record c { expected_value = value; expected_index = c.expected_index + 1 } in
    let rest = record next { lock_state = ls_locked_rest } in
    if is_empty c.expected_value || same_key value c.expected_value
    then some next
    else if not (is_locked_start c.lock_state)
    then none
    else some rest

abbrev pub and_value : Bytes → Option Checker → Option Checker
and_value value none = none
and_value value (some c) = with_value value c

abbrev pub indexed_value : Bytes → Checker → Option ℕ → Option Checker
indexed_value value c none = none
indexed_value value c (some vindex) =
    if is_empty value then none else and_value value (at_index vindex c)

unfoldable pub check_value : Bytes → Bytes → Checker → Option Checker
unfolding value_index
check_value suffix value c = indexed_value value c (value_index suffix)

-- A key inside its group.
unfoldable pub check_member : Bytes → Bytes → Checker → Option Checker
unfolding check_lock check_value
check_member key value c =
    let suffix = drop (length c.last_group) key in
    let lock = check_lock value c in
    let member = check_value suffix value c in
    if same_key suffix (codes "lock") then lock else member

abbrev pub member_of : Bytes → Bytes → Option Checker → Option Checker
member_of key value none = none
member_of key value (some c) = check_member key value c

-- One round of the loop of `check`; none returns the key.
unfoldable pub check_key : Bytes → Bytes → Checker → Option Checker
unfolding in_group check_member
check_key key value c = member_of key value (in_group key c)

unfoldable pub check_keys : List (Bytes × Vv) → Checker → Option Bytes
unfolding check_key
check_keys [] c = none
check_keys ((key, cell) ∷ m) c = elim (check_key key cell.value c) [
  | none ↦ some key
  | some c' ↦ check_keys m c'
]

unfoldable pub check : PancyDb → Option Bytes
unfolding check_keys
check db = check_keys db.db first_checker
