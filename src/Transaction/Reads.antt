-- ===== src/Transaction/Reads.antt =====
-- What a transaction reads.
use mini_redis.Common.{
  ◌≡◌, ◌∙◌, inl, inr, refl, sym, ap, List, [], ◌∷◌, true, false, none, some, All, Option-cases,
  Bool-cases,
}
use mini_redis.Common.Keys.{Bytes, bytes_eq, bytes_eq_iff}
use mini_redis.Common.Maps.{find, assign, find-assign_same, find-assign_other}
use mini_redis.Engine.{EngineOps}
use mini_redis.Transaction.Context.{
  TranContext, Query, put, remove, get, get_kept, query_engine, value_of_query, checked,
  IsolationLevel-cases,
}

-- The operations of a transaction, each on the state that the engine has by then: other
-- transactions may change it in between.
pub data Action {ℓ} (E : Type ℓ) : Type ℓ where
  reads : Bytes → E → Action E
  writes : Bytes → Bytes → E → Action E
  erases : Bytes → E → Action E

-- The action is not a write of the key.
abbrev pub Leaves {ℓ} : {E : Type ℓ} → Bytes → Action E → Type 0
Leaves key (reads k e) = Unit
Leaves key (writes k value e) = bytes_eq k key ≡ false
Leaves key (erases k e) = bytes_eq k key ≡ false

-- The transaction has kept this answer for the key and has not written the key.
record HasAnswer (key : Bytes) (q : Query) (c : TranContext) : Type 0 where
  level : checked c.isolation_level ≡ true
  unwritten : find key c.temp_map ≡ none
  kept : find key c.read_map ≡ some q

module _ {ℓ} {E : Type ℓ} (ops : EngineOps E) where
  unfoldable pub act : TranContext → Action E → TranContext
  act c (reads key e) = (get ops c key e).0
  act c (writes key value e) = (put ops c key value e).0
  act c (erases key e) = (remove ops c key e).0

  unfoldable pub act_all : TranContext → List (Action E) → TranContext
  unfolding act
  act_all c [] = c
  act_all c (a ∷ actions) = act_all (act c a) actions

  get_kept-HasAnswer :
      (key k : Bytes) (q : Query) (c : TranContext) (e : E)
      → HasAnswer key q c
      → HasAnswer key q (get_kept ops c k e).0
  unfolding get_kept
  get_kept-HasAnswer key k q c e h = elim (Option-cases (find k c.read_map)) [
    | inr (q', s) ↦ rw (get_kept, s) h
    | inl s ↦
        rw (get_kept, s)
          (record {
            level = h.level;
            unwritten = h.unwritten;
            kept = elim (Bool-cases (bytes_eq k key)) [
              | inl same ↦ absurd (cc ((bytes_eq_iff k key).0 same, s, h.kept))
              | inr other ↦ find-assign_other k key _ c.read_map other ∙ h.kept
            ];
          })
  ]

  pub query_engine-checked :
      (c : TranContext) (key : Bytes) (e : E)
      → checked c.isolation_level ≡ true
      → query_engine ops c key e ≡ get_kept ops c key e
  unfolding query_engine checked
  query_engine-checked c key e h = elim (IsolationLevel-cases c.isolation_level) [
    | inl (inl l) ↦ absurd (cc (h, ap checked l))
    | inl (inr l) ↦ absurd (cc (h, ap checked l))
    | inr (inl l) ↦ rw l refl
    | inr (inr l) ↦ rw l refl
  ]

  -- A write at these levels changes the record of operations and the map of the writes.
  record IsDeferred (key value : Bytes) (c c' : TranContext) : Type 0 where
    level : c'.isolation_level ≡ c.isolation_level
    written : c'.temp_map ≡ assign key value c.temp_map
    kept : c'.read_map ≡ c.read_map

  put-IsDeferred :
      (c : TranContext) (key value : Bytes) (e : E)
      → checked c.isolation_level ≡ true
      → IsDeferred key value c (put ops c key value e).0
  unfolding put checked
  put-IsDeferred c key value e h = elim (IsolationLevel-cases c.isolation_level) [
    | inl (inl l) ↦ absurd (cc (h, ap checked l))
    | inl (inr l) ↦ absurd (cc (h, ap checked l))
    | inr (inl l) ↦ rw l (record { level = refl; written = refl; kept = refl })
    | inr (inr l) ↦ rw l (record { level = refl; written = refl; kept = refl })
  ]

  remove-IsDeferred :
      (c : TranContext) (key : Bytes) (e : E)
      → checked c.isolation_level ≡ true
      → IsDeferred key [] c (remove ops c key e).0
  unfolding remove checked
  remove-IsDeferred c key e h = elim (IsolationLevel-cases c.isolation_level) [
    | inl (inl l) ↦ absurd (cc (h, ap checked l))
    | inl (inr l) ↦ absurd (cc (h, ap checked l))
    | inr (inl l) ↦ rw l (record { level = refl; written = refl; kept = refl })
    | inr (inr l) ↦ rw l (record { level = refl; written = refl; kept = refl })
  ]

  IsDeferred-HasAnswer :
      (key k value : Bytes) (q : Query) (c c' : TranContext)
      → IsDeferred k value c c'
      → bytes_eq k key ≡ false
      → HasAnswer key q c
      → HasAnswer key q c'
  IsDeferred-HasAnswer key k value q c c' d u h = record {
    level = ap checked d.level ∙ h.level;
    unwritten = ap (find key) d.written ∙ find-assign_other k key value c.temp_map u ∙ h.unwritten;
    kept = ap (find key) d.kept ∙ h.kept;
  }

  act-HasAnswer :
      (key : Bytes) (q : Query) (c : TranContext) (a : Action E)
      → HasAnswer key q c
      → Leaves key a
      → HasAnswer key q (act c a)
  unfolding act get
  act-HasAnswer key q c (reads k e) h u = elim (Option-cases (find k c.temp_map)) [
    | inr (v, s) ↦ rw (act, get, s) h
    | inl s ↦
        rw (act, get, s, query_engine-checked c k e h.level) (get_kept-HasAnswer key k q c e h)
  ]
  act-HasAnswer key q c (writes k value e) h u =
      IsDeferred-HasAnswer key k value q c _ (put-IsDeferred c k value e h.level) u h
  act-HasAnswer key q c (erases k e) h u =
      IsDeferred-HasAnswer key k [] q c _ (remove-IsDeferred c k e h.level) u h

  act_all-HasAnswer :
      (key : Bytes) (q : Query) (c : TranContext) (actions : List (Action E))
      → HasAnswer key q c
      → All (Leaves key) actions
      → HasAnswer key q (act_all c actions)
  unfolding act_all
  act_all-HasAnswer key q c [] h u = h
  act_all-HasAnswer key q c (a ∷ actions) h (u, us) =
      act_all-HasAnswer key q (act c a) actions (act-HasAnswer key q c a h u) us

  get-HasAnswer :
      (key : Bytes) (q : Query) (c : TranContext) (e : E)
      → HasAnswer key q c
      → (get ops c key e).1 ≡ value_of_query q
  unfolding get get_kept
  get-HasAnswer key q c e h =
      rw (get, h.unwritten, query_engine-checked c key e h.level, get_kept, h.kept) refl

  get-first :
      (key : Bytes) (c : TranContext) (e : E)
      → checked c.isolation_level ≡ true
      → find key c.temp_map ≡ none
      → (q : Query) × ((get ops c key e).1 ≡ value_of_query q) × HasAnswer key q (get ops c key e).0
  unfolding get get_kept
  get-first key c e l n = elim (Option-cases (find key c.read_map)) [
    | inr (q, s) ↦ (
      q,
      rw (get, n, query_engine-checked c key e l, get_kept, s) refl,
      rw (get, n, query_engine-checked c key e l, get_kept, s)
          (record { level = l; unwritten = n; kept = s }),
    )
    | inl s ↦ (
      ops.get e key c.tranc_id,
      rw (get, n, query_engine-checked c key e l, get_kept, s) refl,
      rw (get, n, query_engine-checked c key e l, get_kept, s)
          (record { level = l; unwritten = n; kept = find-assign_same key _ c.read_map }),
    )
  ]

  -- At the levels repeatable read and serializable a key that the transaction does not write is
  -- answered as at its first get, whatever the transaction does to other keys and whatever states
  -- the engine takes in between.
  pub get-act_all_repeatable :
      (key : Bytes) (c : TranContext) (e e' : E) (actions : List (Action E))
      → checked c.isolation_level ≡ true
      → find key c.temp_map ≡ none
      → All (Leaves key) actions
      → (get ops (act_all (get ops c key e).0 actions) key e').1 ≡ (get ops c key e).1
  get-act_all_repeatable key c e e' actions l n u =
      let (q, m, h) = get-first key c e l n in
      get-HasAnswer key q (act_all (get ops c key e).0 actions) e'
        (act_all-HasAnswer key q (get ops c key e).0 actions h u)
      ∙ sym m
