-- ===== src/Transaction/Writes.antt =====
-- What a transaction has written, by its record of operations.
use mini_redis.Common.{
  ℕ, ◌≡◌, refl, ap, sym, ◌∙◌, inl, inr, List, [], ◌∷◌, ◌++◌, true, false, Option, none, some, arith,
  if◌then◌else◌, Bool-cases, Option-cases,
}
use mini_redis.Common.Keys.{Bytes, bytes_eq, bytes_eq_iff}
use mini_redis.Common.Maps.{find, assign, find-assign_same, find-assign_other}
use mini_redis.Wal.Record.{OperationType, Record, create_record, put_record, delete_record}
use mini_redis.Engine.{EngineOps}
use mini_redis.Transaction.Context.{
  IsolationLevel, TranContext, new_context, emplace, get, get_kept, query_engine, put-deferred,
  remove-deferred, is_deferred, IsolationLevel-cases, checked,
}
use mini_redis.Transaction.Reads.{Action, reads, writes, erases, act, act_all, query_engine-checked}

-- What one record leaves under a key: a deletion leaves the empty string.
unfoldable pub leaves : Bytes → Record → Option Bytes
leaves key r = elim r.operation_type [
  | OperationType.put ↦ if bytes_eq r.key key then some r.value else none
  | OperationType.delete ↦ if bytes_eq r.key key then some [] else none
  | _ ↦ none
]

unfoldable pub or_else {ℓ} : {A : Type ℓ} → Option A → Option A → Option A
or_else (some a) o = some a
or_else none o = o

-- The last record that leaves something under the key decides.
unfoldable pub last_write : Bytes → List Record → Option Bytes
last_write key [] = none
last_write key (r ∷ rs) = or_else (last_write key rs) (leaves key r)

last_write-append :
    (key : Bytes) (rs : List Record) (r : Record)
    → last_write key (rs ++ r ∷ []) ≡ or_else (leaves key r) (last_write key rs)
unfolding last_write or_else
last_write-append key [] r = ground arith
last_write-append key (s ∷ rs) r = ground (arith, last_write-append key rs r)

record Recorded (key : Bytes) (c : TranContext) : Type 0 where
  level : is_deferred c.isolation_level ≡ true
  agree : find key c.temp_map ≡ last_write key c.operations

assign-leaves :
    (key k value : Bytes) (c : TranContext) (r : Record)
    → ((bytes_eq k key ≡ true) → leaves key r ≡ some value)
    → ((bytes_eq k key ≡ false) → leaves key r ≡ none)
    → Recorded key c
    → Recorded key (record (emplace c r) { temp_map = assign k value c.temp_map })
unfolding emplace or_else
assign-leaves key k value c r left kept h = record {
  level = h.level;
  agree = elim (Bool-cases (bytes_eq k key)) [
    | inl e ↦
        ap (λ t. find t (assign k value c.temp_map)) (sym ((bytes_eq_iff k key).0 e))
        ∙ find-assign_same k value c.temp_map
        ∙ sym (
            last_write-append key c.operations r
            ∙ ap (λ t. or_else t (last_write key c.operations)) (left e))
    | inr e ↦
        find-assign_other k key value c.temp_map e
        ∙ h.agree
        ∙ sym (
            last_write-append key c.operations r
            ∙ ap (λ t. or_else t (last_write key c.operations)) (kept e))
  ];
}

module _ {ℓ} {E : Type ℓ} (ops : EngineOps E) where
  get_kept-Recorded :
      (key k : Bytes) (c : TranContext) (e : E)
      → Recorded key c
      → Recorded key (get_kept ops c k e).0
  unfolding get_kept
  get_kept-Recorded key k c e h = elim (Option-cases (find k c.read_map)) [
    | inr (q, s) ↦ rw (get_kept, s) h
    | inl s ↦ rw (get_kept, s) (record { level = h.level; agree = h.agree })
  ]

  query_engine-committed :
      (c : TranContext) (key : Bytes) (e : E)
      → c.isolation_level ≡ IsolationLevel.read_committed
      → query_engine ops c key e ≡ (c, ops.get e key c.tranc_id)
  unfolding query_engine
  query_engine-committed c key e l = rw l refl

  query_engine-Recorded :
      (key k : Bytes) (c : TranContext) (e : E)
      → Recorded key c
      → Recorded key (query_engine ops c k e).0
  unfolding is_deferred checked
  query_engine-Recorded key k c e h = elim (IsolationLevel-cases c.isolation_level) [
    | inl (inl l) ↦ absurd (cc (h.level, ap is_deferred l))
    | inl (inr l) ↦ rw (query_engine-committed c k e l) h
    | inr (inl l) ↦
        rw (query_engine-checked ops c k e (ap checked l)) (get_kept-Recorded key k c e h)
    | inr (inr l) ↦
        rw (query_engine-checked ops c k e (ap checked l)) (get_kept-Recorded key k c e h)
  ]

  act-Recorded :
      (key : Bytes) (c : TranContext) (a : Action E) → Recorded key c → Recorded key (act ops c a)
  unfolding act get leaves put_record delete_record
  act-Recorded key c (reads k e) h = elim (Option-cases (find k c.temp_map)) [
    | inr (v, s) ↦ rw (act, get, s) h
    | inl s ↦ rw (act, get, s) (query_engine-Recorded key k c e h)
  ]
  act-Recorded key c (writes k value e) h =
      rw (act, put-deferred ops c k value e h.level)
        (assign-leaves key k value c (put_record c.tranc_id k value) (λ s. rw s refl)
          (λ s. rw s refl) h)
  act-Recorded key c (erases k e) h =
      rw (act, remove-deferred ops c k e h.level)
        (assign-leaves key k [] c (delete_record c.tranc_id k) (λ s. rw s refl) (λ s. rw s refl) h)

  act_all-Recorded :
      (key : Bytes) (c : TranContext) (actions : List (Action E))
      → Recorded key c
      → Recorded key (act_all ops c actions)
  unfolding act_all
  act_all-Recorded key c [] h = h
  act_all-Recorded key c (a ∷ actions) h =
      act_all-Recorded key (act ops c a) actions (act-Recorded key c a h)

  -- At every level but read uncommitted: after any reads, writes and deletions of a new transaction
  -- the map that its commit applies holds for every key what the last of the operations recorded
  -- for the log leaves there.
  pub temp_map-last_write :
      (id : ℕ) (level : IsolationLevel) (actions : List (Action E)) (key : Bytes)
      → is_deferred level ≡ true
      → find key (act_all ops (new_context id level) actions).temp_map
        ≡ last_write key (act_all ops (new_context id level) actions).operations
  unfolding new_context last_write leaves or_else create_record find
  temp_map-last_write id level actions key h =
      (act_all-Recorded key (new_context id level) actions
        (record { level = h; agree = refl })).agree

  -- The transaction reads what it wrote last, at every level but read uncommitted, and where that
  -- was a deletion it reads the empty string, not the absence of a value.
  pub get-own_write :
      (id : ℕ) (level : IsolationLevel) (actions : List (Action E)) (key v : Bytes) (e : E)
      → is_deferred level ≡ true
      → last_write key (act_all ops (new_context id level) actions).operations ≡ some v
      → (get ops (act_all ops (new_context id level) actions) key e).1 ≡ some v
  unfolding get
  get-own_write id level actions key v e h w =
      rw (get, temp_map-last_write id level actions key h, w) refl
