-- ===== src/Db/Invariant.antt =====
-- What each operation of the store keeps: the order of the keys, and versions that grow.
use doom_draft.Base.{
  ℕ, zero, suc, ◌+◌, ◌≤◌, ◌<◌, ◌≡◌, refl, true, false, not, ◌||◌, List, [], ◌∷◌, some, ◌==◌,
  if◌then◌else◌, take, length, length-take, Bool-cases, Option-cases, inl, inr, arith,
}
use doom_draft.OrdMap.{same_key, find, Sorted}
use doom_draft.OrdMap.Laws.{
  find-emplace, find-assign, find-erase, emplace_present, emplace-Sorted, assign-Sorted,
  erase-Sorted,
}
use doom_draft.Keys.{bytes_ord, compare_bytes_iff}
use doom_draft.DocOps.{Bytes}
use doom_draft.Msgs.{
  PutRequest, CasRequest, RemoveRequest, mismatch, Request, get_request, put_request, cas_request,
  remove_request,
}
use doom_draft.Db.{
  Vv, RecentRemove, PancyDb, find_vvptr, do_remove, put, mod_ok, store, process_put, process_cas,
  process_remove, process_req, max_recent_removes, empty_db,
}

-- The recent removals, newest first, each with a version that the removal ended.
abbrev pub Recent : ℕ → List RecentRemove → Type 0
Recent n [] = Unit
Recent n (r ∷ rs) =
    (r.remove_version < n)
    × (0 < r.vv.version)
    × (r.vv.version < r.remove_version)
    × Recent r.remove_version rs

pub record Inv (d : PancyDb) : Type 0 where
  pub positive : 0 < d.next_version
  pub sorted : Sorted d.db
  pub versions :
      (k : Bytes) (v : Vv) → find k d.db ≡ some v → (0 < v.version) × (v.version < d.next_version)
  pub distinct :
      (j k : Bytes) (v w : Vv)
      → find j d.db ≡ some v
      → find k d.db ≡ some w
      → v.version ≡ w.version
      → j ≡ k
  pub recent : Recent d.next_version d.recent_removes
  pub capped : length d.recent_removes ≤ max_recent_removes

pub empty-Inv : Inv empty_db
unfolding find
empty-Inv = record {
  positive = omega arith;
  sorted = tt;
  versions = λ k v e. cc;
  distinct = λ j k v w e f g. cc;
  recent = tt;
  capped = omega arith;
}

Recent-mono : {m n : ℕ} (rs : List RecentRemove) → m ≤ n → Recent m rs → Recent n rs
Recent-mono [] h r = tt
Recent-mono (x ∷ rs) h r = (omega arith, r.1, r.2, r.3)

Recent-take : (c n : ℕ) (rs : List RecentRemove) → Recent n rs → Recent n (take c rs)
Recent-take zero n rs r = tt
Recent-take (suc c) n [] r = tt
Recent-take (suc c) n (x ∷ rs) r = (r.0, r.1, r.2, Recent-take c x.remove_version rs r.3)

pub same_key_iff : (j k : Bytes) → same_key j k ≡ true → j ≡ k
same_key_iff j k h = ground (arith, compare_bytes_iff j k)

-- A cell that is set to the next version, whatever else stays.
module _ (d d' : PancyDb) (key value : Bytes) (inv : Inv d) (sorted' : Sorted d'.db)
    (next' : d'.next_version ≡ d.next_version + 1) (recent' : d'.recent_removes ≡ d.recent_removes)
    (cells : (j : Bytes)
      → find j d'.db ≡ (
          if same_key key j
          then some (record { value = value; version = d.next_version })
          else find j d.db)) where
  fresh-Inv : Inv d'
  fresh-Inv = record {
    positive = omega arith;
    sorted = sorted';
    versions = λ k v e. elim (Bool-cases (same_key key k)) [
      | inl same ↦ ground (arith, cells k, inv.positive, next')
      | inr other ↦ ground (arith, cells k, inv.versions k v, next')
    ];
    distinct = λ j k v w e f g. ground (
      arith,
      cells j,
      cells k,
      same_key_iff key j,
      same_key_iff key k,
      inv.versions j v,
      inv.versions k w,
      inv.distinct j k v w,
    );
    recent = rw (recent', next') (Recent-mono d.recent_removes (omega arith) inv.recent);
    capped = rw recent' inv.capped;
  }

-- What `store` does to a store in order: one cell is set, and the answer tells both versions.
module _ (d : PancyDb) (serial : ℕ) (key value : Bytes) (inv : Inv d) where
  pub store_lem :
      let (d', m) = store d serial key value in
      Sorted d'.db
      × (d'.next_version ≡ d.next_version + 1)
      × (d'.recent_removes ≡ d.recent_removes)
      × ((j : Bytes)
          → find j d'.db ≡ (
              if same_key key j
              then some (record { value = value; version = d.next_version })
              else find j d.db))
      × (m
          ≡ mod_ok serial
              (find_vvptr d key).version
              (record { value = value; version = d.next_version }))
  unfolding store
  store_lem = elim (Option-cases (find key d.db)) [
    | inl e ↦ rw e (
      emplace-Sorted key _ d.db inv.sorted,
      refl,
      refl,
      λ j. ground (
        arith,
        find-emplace j key (record { value = value; version = d.next_version }) d.db inv.sorted,
        e,
      ),
      ground (
        arith,
        find-emplace key key (record { value = value; version = d.next_version }) d.db inv.sorted,
        e,
        compare_bytes_iff key key,
      ),
    )
    | inr (v, e) ↦
        let p : (v.version == 0) ≡ false = ground (arith, inv.versions key v e) in
        rw (e, p)
          (
            assign-Sorted key _ d.db inv.sorted,
            refl,
            refl,
            λ j. ground (
              arith,
              find-assign j key (record { value = value; version = d.next_version }) d.db,
              e,
            ),
            refl,
          )
  ]

pub store-Inv :
    (d : PancyDb) (serial : ℕ) (key value : Bytes) → Inv d → Inv (store d serial key value).0
store-Inv d serial key value inv =
    let (sorted, next, recent, cells, m) = store_lem d serial key value inv in
    fresh-Inv d _ key value inv sorted next recent cells

pub put_lem : (d : PancyDb) (key value : Bytes) → Inv d → put d key value ≡ (store d 0 key value).0
unfolding put store
put_lem d key value inv = elim (Option-cases (find key d.db)) [
  | inl e ↦ rw e
  | inr (v, e) ↦
      let p : (v.version == 0) ≡ false = ground (arith, inv.versions key v e) in
      rw (
        e,
        p,
        emplace_present key (record { value = value; version = d.next_version }) v d.db inv.sorted
            e,
      )
]

pub do_remove-Inv :
    (d : PancyDb) (key : Bytes) (v : Vv) → find key d.db ≡ some v → Inv d → Inv (do_remove d key v)
unfolding do_remove
do_remove-Inv d key v e inv = record {
  positive = omega arith;
  sorted = erase-Sorted key d.db inv.sorted;
  versions = λ k w f. ground (arith, find-erase k key d.db inv.sorted, inv.versions k w);
  distinct = λ j k w u f g. ground (
    arith,
    find-erase j key d.db inv.sorted,
    find-erase k key d.db inv.sorted,
    inv.distinct j k w u,
  );
  recent =
      let b = inv.versions key v e in
      (omega arith, b.0, b.1, Recent-take 99 d.next_version d.recent_removes inv.recent);
  capped = omega (arith, length-take 99 d.recent_removes);
}

process_put-Inv : (d : PancyDb) (r : PutRequest) → Inv d → Inv (process_put d r).0
unfolding process_put
process_put-Inv d r inv =
    elim (Bool-cases (mismatch r.version_match (find_vvptr d r.key).version)) [
      | inl e ↦ rw e inv
      | inr e ↦ rw e (store-Inv d r.serial r.key r.value inv)
    ]

process_cas-Inv : (d : PancyDb) (r : CasRequest) → Inv d → Inv (process_cas d r).0
unfolding process_cas
process_cas-Inv d r inv =
    elim (Bool-cases (
      not (same_key r.expected (find_vvptr d r.key).value)
      || mismatch r.version_match (find_vvptr d r.key).version)) [
        | inl e ↦ rw e inv
        | inr e ↦ rw e (store-Inv d r.serial r.key r.desired inv)
      ]

process_remove-Inv : (d : PancyDb) (r : RemoveRequest) → Inv d → Inv (process_remove d r).0
unfolding process_remove
process_remove-Inv d r inv = elim (Option-cases (find r.key d.db)) [
  | inl e ↦ rw (e, process_remove) inv
  | inr (v, e) ↦ elim (Bool-cases (mismatch r.version_match v.version)) [
    | inl f ↦ rw (e, process_remove, f) inv
    | inr f ↦ rw (e, process_remove, f) (do_remove-Inv d r.key v e inv)
  ]
]

pub put-Inv : (d : PancyDb) (key value : Bytes) → Inv d → Inv (put d key value)
put-Inv d key value inv = rw (put_lem d key value inv) (store-Inv d 0 key value inv)

-- Every operation of the store keeps its invariant: the keys stay in order, every version is
-- positive, below the next one and of one cell only, and at most 100 removals are remembered.
pub process_req-Inv : (d : PancyDb) (r : Request) → Inv d → Inv (process_req d r).0
unfolding process_req
process_req-Inv d (get_request r) inv = inv
process_req-Inv d (put_request r) inv = process_put-Inv d r inv
process_req-Inv d (cas_request r) inv = process_cas-Inv d r inv
process_req-Inv d (remove_request r) inv = process_remove-Inv d r inv
