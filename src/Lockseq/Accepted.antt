-- ===== src/Lockseq/Accepted.antt =====
-- What the check of a store accepts of a group, and what it reports.
use doom_draft.Base.{
  ℕ, Option, ◌≢◌, ◌+◌, ◌<◌, ◌≤◌, ◌≡◌, false, List, [], ◌∷◌, ◌++◌, none, some, is_empty, take,
  length,
}
use doom_draft.Keys.{bytes_ord}
use doom_draft.DocOps.{Bytes}
use doom_draft.Db.{Vv}
use doom_draft.Lockseq.{unsigned, make_lock_key, Checker}
use doom_draft.Lockseq.Sequences.{prefix_of, values}

-- What clients leave of a group. `done`: the sequence of one that is finished with it. `holding`:
-- the lock of one that works on it, the first values it wrote, and older ones behind them.
pub data Left : Type 0 where
  done : (gid : ℕ) (versions : ℕ → ℕ) (m : ℕ) (value : Bytes) → Left
  holding : (gid : ℕ) (versions : ℕ → ℕ) (lock_version k m : ℕ) (owner old : Bytes) → Left

abbrev pub group_of : Left → ℕ
group_of (done gid versions m value) = gid
group_of (holding gid versions lock_version k m owner old) = gid

abbrev pub left_cells : Left → List (Bytes × Vv)
left_cells (done gid versions m value) = values gid versions 0 m value
left_cells (holding gid versions lock_version k m owner old) =
    (make_lock_key gid, record { value = owner; version = lock_version })
    ∷ (values gid versions 0 k owner ++ values gid versions k m old)

-- A sequence has one value at least and 1000 at most; a lock is held in the name of a client, with
-- a `c` in front and four bytes at least.
abbrev pub IsLeft : Left → Type 0
IsLeft (done gid versions m value) =
    (gid + 1 < unsigned) × (1 ≤ m) × (m ≤ 1000) × (is_empty value ≡ false)
IsLeft (holding gid versions lock_version k m owner old) =
    (gid + 1 < unsigned)
    × (k + m ≤ 1000)
    × (is_empty old ≡ false)
    × (4 ≤ length owner)
    × (take 1 owner ≡ b'c' ∷ [])

-- Another group than the one before, if there is one.
abbrev pub Differs : Option ℕ → ℕ → Type 0
Differs none gid = Unit
Differs (some other) gid = (other + 1 < unsigned) × (gid ≢ other)

abbrev pub AllLeft : Option ℕ → List Left → Type 0
AllLeft o [] = Unit
AllLeft o (l ∷ groups) = Differs o (group_of l) × IsLeft l × AllLeft (some (group_of l)) groups

abbrev pub all_cells : List Left → List (Bytes × Vv)
all_cells [] = []
all_cells (l ∷ groups) = left_cells l ++ all_cells groups

abbrev pub last_group_of : Option ℕ → List Left → Option ℕ
last_group_of o [] = o
last_group_of o (l ∷ groups) = last_group_of (some (group_of l)) groups

-- The check stands behind this group.
abbrev Stands : Option ℕ → Checker → Type 0
Stands none c = c.last_group ≡ []
Stands (some other) c = c.last_group ≡ prefix_of other
