-- ===== src/Db/Refinement.antt =====
-- The store as a partial function from keys to versioned values, and what a client may rely on.
use doom_draft.Base.{
  ℕ, ◌+◌, ◌≡◌, ◌≢◌, refl, sym, ap, ◌∙◌, true, false, [], ◌∷◌, Option, none, some, if◌then◌else◌,
  Bool-cases, Option-cases, ◌⊎◌, inl, inr, take, arith,
}
use doom_draft.OrdMap.{same_key, find, erase}
use doom_draft.OrdMap.Laws.{find-erase}
use doom_draft.Keys.{bytes_ord, compare_bytes_iff}
use doom_draft.DocOps.{Bytes}
use doom_draft.Msgs.{
  ℤ, pos, negsuc, mismatch, Errc, PutRequest, CasRequest, RemoveRequest, Modification,
}
use doom_draft.Db.{
  Vv, PancyDb, find_vvptr, mod_no_match, mod_ok, nonexistent_vv, do_remove, store, process_put,
  process_cas, process_remove,
}
use doom_draft.Db.Invariant.{Inv, store_lem}

-- The abstract view.
abbrev pub cell : PancyDb → Bytes → Option Vv
cell d k = find k d.db

-- What a key holds; an absent one holds the empty value under version 0.
abbrev pub value_or : Option Vv → Vv
value_or none = record { value = []; version = 0 }
value_or (some v) = v

abbrev pub held : PancyDb → Bytes → Vv
held d key = value_or (cell d key)

-- The requested version: a number, or any, which every negative number stands for.
abbrev pub Wants : ℤ → ℕ → Type 0
Wants (pos n) version = n ≡ version
Wants (negsuc n) version = Unit

-- The key has the new value under the next version, no other key and no remembered removal
-- changed, and the answer names the versions before and after.
abbrev pub Wrote : PancyDb → ℕ → Bytes → Bytes → PancyDb × Modification → Type 0
Wrote d serial key value (d', m) =
    (cell d' key ≡ some (record { value = value; version = d.next_version }))
    × ((j : Bytes) → j ≢ key → cell d' j ≡ cell d j)
    × (d'.next_version ≡ d.next_version + 1)
    × (d'.recent_removes ≡ d.recent_removes)
    × (m ≡ record {
      serial = serial;
      errcode = Errc.ok;
      actual = [];
      previous_version = (held d key).version;
      version = d.next_version;
    })

-- The whole store stays, and the answer is `no_match` with what is there.
abbrev pub Refused : PancyDb → ℕ → Vv → PancyDb × Modification → Type 0
Refused d serial there (d', m) =
    (d' ≡ d)
    × (m ≡ record {
      serial = serial;
      errcode = Errc.no_match;
      actual = there.value;
      previous_version = there.version;
      version = there.version;
    })

-- A conditional write.
abbrev pub Writes : PancyDb → Type 0 → ℕ → Bytes → Bytes → PancyDb × Modification → Type 0
Writes d Allowed serial key value p =
    (Allowed × Wrote d serial key value p) ⊎ ((¬ Allowed) × Refused d serial (held d key) p)

same_bytes : (a b : Bytes) → same_key a b ≡ true → a ≡ b
same_bytes a b h = ground (arith, compare_bytes_iff a b)

other_bytes : (a b : Bytes) → same_key a b ≡ false → a ≢ b
other_bytes a b h = ground (arith, compare_bytes_iff a b)

same_key_other : (a b : Bytes) → b ≢ a → same_key a b ≡ false
same_key_other a b h = elim (Bool-cases (same_key a b)) [
  | inl e ↦ absurd (h (sym (same_bytes a b e)))
  | inr e ↦ e
]

same_key_self : (a : Bytes) → same_key a a ≡ true
same_key_self a = ground (arith, compare_bytes_iff a a)

match-Wants : (want : ℤ) (version : ℕ) → mismatch want version ≡ false → Wants want version
match-Wants (pos n) version h = ground arith
match-Wants (negsuc n) version h = tt

mismatch-Wants : (want : ℤ) (version : ℕ) → mismatch want version ≡ true → ¬ Wants want version
mismatch-Wants (pos n) version h k = absurd (ground arith)
mismatch-Wants (negsuc n) version h k = absurd cc

held_lem : (d : PancyDb) (key : Bytes) → find_vvptr d key ≡ held d key
held_lem d key = elim (Option-cases (cell d key)) [ inl e ↦ rw e refl | inr (v, e) ↦ rw e refl ]

store-Wrote :
    (d : PancyDb) (serial : ℕ) (key value : Bytes)
    → Inv d
    → Wrote d serial key value (store d serial key value)
store-Wrote d serial key value inv =
    let (sorted, next, recent, cells, m) = store_lem d serial key value inv in
    (
      cells key ∙ rw (same_key_self key) refl,
      λ j n. cells j ∙ rw (same_key_other key j n) refl,
      next,
      recent,
      rw (m, held_lem d key) refl,
    )

-- In a well-formed store `process` of a put request writes exactly if the requested version is the
-- one that the key holds, or any; else the store stays as it is, and the answer is `no_match` with
-- what the key holds. An absent key holds the empty value under version 0.
pub process_put-Writes :
    (d : PancyDb) (r : PutRequest)
    → Inv d
    → Writes d
        (Wants r.version_match (held d r.key).version)
        r.serial
        r.key
        r.value
        (process_put d r)
unfolding process_put
process_put-Writes d r inv =
    let same = ap (λ (v : Vv). mismatch r.version_match v.version) (held_lem d r.key) in
    elim (Bool-cases (mismatch r.version_match (held d r.key).version)) [
      | inl e ↦ inr (
        mismatch-Wants _ _ e,
        rw (same ∙ e) (refl, ap (mod_no_match r.serial) (held_lem d r.key)),
      )
      | inr e ↦ inl (match-Wants _ _ e, rw (same ∙ e) (store-Wrote d r.serial r.key r.value inv))
    ]

-- In a well-formed store `process` of a cas request writes exactly if the key holds the expected
-- value and the requested version is the one it holds, or any; else the store stays as it is, and
-- the answer is `no_match` with what the key holds. An absent key holds the empty value under
-- version 0.
pub process_cas-Writes :
    (d : PancyDb) (r : CasRequest)
    → Inv d
    → Writes d
        ((r.expected ≡ (held d r.key).value) × Wants r.version_match (held d r.key).version)
        r.serial
        r.key
        r.desired
        (process_cas d r)
unfolding process_cas
process_cas-Writes d r inv =
    let h = held d r.key in
    let same = ap (λ (v : Vv). same_key r.expected v.value) (held_lem d r.key) in
    let match = ap (λ (v : Vv). mismatch r.version_match v.version) (held_lem d r.key) in
    elim (Bool-cases (same_key r.expected h.value)) [
      | inl e ↦ elim (Bool-cases (mismatch r.version_match h.version)) [
        | inl f ↦ inr (
          λ a. mismatch-Wants _ _ f a.1,
          rw (same ∙ e, match ∙ f) (refl, ap (mod_no_match r.serial) (held_lem d r.key)),
        )
        | inr f ↦ inl (
          (same_bytes r.expected h.value e, match-Wants _ _ f),
          rw (same ∙ e, match ∙ f) (store-Wrote d r.serial r.key r.desired inv),
        )
      ]
      | inr e ↦ inr (
        λ a. other_bytes r.expected h.value e a.0,
        rw (same ∙ e) (refl, ap (mod_no_match r.serial) (held_lem d r.key)),
      )
    ]

-- The key is gone, no other cell changed, the removal is the latest one remembered, and the answer
-- names the version that ended.
abbrev pub Removed : PancyDb → ℕ → Bytes → Vv → PancyDb × Modification → Type 0
Removed d serial key there (d', m) =
    (cell d' key ≡ none)
    × ((j : Bytes) → j ≢ key → cell d' j ≡ cell d j)
    × (d'.next_version ≡ d.next_version + 1)
    × (take 1 d'.recent_removes
        ≡ record { key = key; vv = there; remove_version = d.next_version } ∷ [])
    × (m ≡ record {
      serial = serial;
      errcode = Errc.ok;
      actual = [];
      previous_version = there.version;
      version = 0;
    })

-- What a conditional removal must do. Of an absent key: the store stays, and the answer is
-- `not_found`; of one with another version: it is refused. Otherwise it removes.
abbrev pub Removes : PancyDb → RemoveRequest → PancyDb × Modification → Type 0
Removes d r (d', m) =
    ((cell d r.key ≡ none)
      × (d' ≡ d)
      × (m ≡ record {
        serial = r.serial;
        errcode = Errc.not_found;
        actual = [];
        previous_version = 0;
        version = 0;
      }))
    ⊎ ((v : Vv) × (cell d r.key ≡ some v)
        × (¬ Wants r.version_match v.version)
        × Refused d r.serial v (d', m))
    ⊎ ((v : Vv) × (cell d r.key ≡ some v)
        × Wants r.version_match v.version
        × Removed d r.serial r.key v (d', m))

-- In a well-formed store `process` of a remove request removes the key, and remembers the removal,
-- exactly if it is there with the requested version, or any; else the store stays as it is, and the
-- answer is `not_found` for an absent key and `no_match`, with what is there, for another version.
pub process_remove-Removes :
    (d : PancyDb) (r : RemoveRequest) → Inv d → Removes d r (process_remove d r)
unfolding process_remove do_remove
process_remove-Removes d r inv = elim (Option-cases (cell d r.key)) [
  | inl e ↦ inl (e, rw (e, process_remove), rw (e, process_remove))
  | inr (v, e) ↦ elim (Bool-cases (mismatch r.version_match v.version)) [
    | inl f ↦ inr (inl (v, e, mismatch-Wants _ _ f, rw (e, process_remove, f) (refl, refl)))
    | inr f ↦ inr (inr (v, e, match-Wants _ _ f, rw (e, process_remove, f) (removed v)))
  ]
]
  where
    gone : (j : Bytes) → find j (erase r.key d.db) ≡ (if same_key r.key j then none else cell d j)
    gone j = find-erase j r.key d.db inv.sorted

    removed :
        (v : Vv)
        → Removed d r.serial r.key v (do_remove d r.key v, mod_ok r.serial v.version nonexistent_vv)
    removed v = (
      gone r.key ∙ rw (same_key_self r.key) refl,
      λ j n. gone j ∙ rw (same_key_other r.key j n) refl,
      refl,
      refl,
      refl,
    )
