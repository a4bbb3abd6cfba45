-- ===== src/Transaction/Context.antt =====
-- `TranContext`: the operations of one transaction.
use mini_redis.Common.{ℕ, ◌≡◌, ◌⊎◌, refl, ap, inl, inr, List, [], ◌∷◌, ◌++◌, Bool, true, false}
use mini_redis.Common.{Option, none, some, Outcome, ok, ◌>>=◌, ltb, leb, if◌then◌else◌}
use mini_redis.Common.Keys.{Bytes}
use mini_redis.Common.Maps.{StringMap, find, assign}
use mini_redis.Wal.Record.{Record, create_record, commit_record, put_record, delete_record}
use mini_redis.Engine.{EngineOps}
use mini_redis.Transaction.Manager.{
  TranManager, write_to_wal, update_max_finished_tranc_id, get_next_transaction_id,
}

pub data IsolationLevel : Type 0 where
  read_uncommitted read_committed repeatable_read serializable : IsolationLevel

-- What the engine answers to a get: the value and the transaction that wrote it.
abbrev pub Query : Type 0
Query = Option (Bytes × ℕ)

pub record TranContext : Type 0 where
  pub tranc_id : ℕ
  pub isolation_level : IsolationLevel
  pub operations : List Record
  pub temp_map : StringMap Bytes
  pub is_commited : Bool
  pub is_aborted : Bool
  pub read_map : StringMap Query
  pub rollback_map : StringMap Query

unfoldable pub new_context : ℕ → IsolationLevel → TranContext
new_context id level = record {
  tranc_id = id;
  isolation_level = level;
  operations = create_record id ∷ [];
  temp_map = [];
  is_commited = false;
  is_aborted = false;
  read_map = [];
  rollback_map = [];
}

-- The map of active transactions, from which nothing is erased, is left to the caller.
unfoldable pub new_tranc : TranManager → IsolationLevel → TranContext × TranManager
unfolding new_context get_next_transaction_id
new_tranc m level = let (id, m') = get_next_transaction_id m in (new_context id level, m')

-- operations.emplace_back(record)
unfoldable pub emplace : TranContext → Record → TranContext
emplace c r = record c { operations = c.operations ++ r ∷ [] }

unfoldable pub value_of_query : Query → Option Bytes
value_of_query none = none
value_of_query (some (value, id)) = some value

-- Whether an entry was written by a later transaction.
unfoldable pub is_newer : ℕ → Option ℕ → Bool
is_newer id none = false
is_newer id (some other) = ltb id other

unfoldable pub id_of_query : Query → Option ℕ
id_of_query none = none
id_of_query (some (value, id)) = some id

-- How `commit` ends: by its return value or by an exception.
pub data Ending : Type 0 where
  returned : Bool → Ending
  threw : Ending

-- The levels at which `commit` looks for conflicts.
unfoldable pub checked : IsolationLevel → Bool
checked read_uncommitted = false
checked read_committed = false
checked repeatable_read = true
checked serializable = true

-- The levels whose writes wait for the commit.
unfoldable pub is_deferred : IsolationLevel → Bool
is_deferred read_uncommitted = false
is_deferred read_committed = true
is_deferred repeatable_read = true
is_deferred serializable = true

pub IsolationLevel-cases :
    (l : IsolationLevel)
    → ((l ≡ read_uncommitted) ⊎ (l ≡ read_committed)) ⊎ ((l ≡ repeatable_read) ⊎ (l ≡ serializable))
IsolationLevel-cases read_uncommitted = inl (inl refl)
IsolationLevel-cases read_committed = inl (inr refl)
IsolationLevel-cases repeatable_read = inr (inl refl)
IsolationLevel-cases serializable = inr (inr refl)

module _ {ℓ} {E : Type ℓ} (ops : EngineOps E) where
  unfoldable pub put : TranContext → Bytes → Bytes → E → TranContext × E
  unfolding emplace
  put c key value e =
      let logged = emplace c (put_record c.tranc_id key value) in
      elim c.isolation_level [
        | read_uncommitted ↦ (
          record logged { rollback_map = assign key (ops.get e key 0) c.rollback_map },
          ops.put e key value c.tranc_id,
        )
        | _ ↦ (record logged { temp_map = assign key value c.temp_map }, e)
      ]

  unfoldable pub remove : TranContext → Bytes → E → TranContext × E
  unfolding emplace
  remove c key e =
      let logged = emplace c (delete_record c.tranc_id key) in
      elim c.isolation_level [
        | read_uncommitted ↦ (
          record logged { rollback_map = assign key (ops.get e key 0) c.rollback_map },
          ops.remove e key c.tranc_id,
        )
        | _ ↦ (record logged { temp_map = assign key [] c.temp_map }, e)
      ]

  -- The levels that read one state: the first answer for a key is kept.
  unfoldable pub get_kept : TranContext → Bytes → E → TranContext × Query
  get_kept c key e = elim (find key c.read_map) [
    | some query ↦ (c, query)
    | none ↦
        let query = ops.get e key c.tranc_id in
        (record c { read_map = assign key query c.read_map }, query)
  ]

  unfoldable pub query_engine : TranContext → Bytes → E → TranContext × Query
  unfolding get_kept
  query_engine c key e = elim c.isolation_level [
    | read_uncommitted ↦ (c, ops.get e key 0)
    | read_committed ↦ (c, ops.get e key c.tranc_id)
    | _ ↦ get_kept c key e
  ]

  unfoldable pub get : TranContext → Bytes → E → TranContext × Option Bytes
  unfolding query_engine value_of_query
  get c key e = elim (find key c.temp_map) [
    | some value ↦ (c, some value)
    | none ↦ let (c', query) = query_engine c key e in (c', value_of_query query)
  ]

  -- The loop over `temp_map` in `commit`: has a later transaction written one of the keys?
  unfoldable pub has_conflict : ℕ → ℕ → E → StringMap Bytes → Bool
  unfolding is_newer id_of_query
  has_conflict max_flushed id e [] = false
  has_conflict max_flushed id e ((k, v) ∷ m) =
      let rest = has_conflict max_flushed id e m in
      if is_newer id (ops.memtable_get e k)
      then true
      else if leb max_flushed id
      then rest
      else if is_newer id (id_of_query (ops.sst_get e k))
      then true
      else rest

  -- The loop that applies `temp_map` to the memory table.
  unfoldable pub apply : ℕ → E → StringMap Bytes → E
  apply id e [] = e
  apply id e ((k, v) ∷ m) = apply id (ops.memtable_put e k v id) m

  -- What a commit does to the engine: the writes of read uncommitted are there already.
  unfoldable pub apply_writes : Bool → TranContext → E → E
  unfolding apply
  apply_writes test_fail c e = elim c.isolation_level [
    | read_uncommitted ↦ e
    | _ ↦ if test_fail then e else apply c.tranc_id e c.temp_map
  ]

  -- The end of every commit that was not refused: the log first, then the memory table.
  unfoldable pub write_and_apply :
      Bool → Bool → TranContext → TranManager → E → Outcome (Ending × TranContext × TranManager × E)
  unfolding emplace apply_writes
  write_and_apply synced test_fail c m e = do
    let logged = emplace c (commit_record c.tranc_id)
    (success, m') ← write_to_wal synced m logged.operations
    if success
        then ok (
          returned true,
          record logged { is_commited = true },
          update_max_finished_tranc_id m' c.tranc_id,
          apply_writes test_fail c e,
        )
        else ok (threw, logged, m', e)

  unfoldable pub is_refused : TranContext → TranManager → E → Bool
  unfolding has_conflict checked
  is_refused c m e =
      if checked c.isolation_level
      then has_conflict m.max_flushed_tranc_id c.tranc_id e c.temp_map
      else false

  unfoldable pub commit :
      Bool → Bool → TranContext → TranManager → E → Outcome (Ending × TranContext × TranManager × E)
  unfolding is_refused write_and_apply
  commit synced test_fail c m e =
      if is_refused c m e
      then ok (returned false, record c { is_aborted = true }, m, e)
      else write_and_apply synced test_fail c m e

  -- The loop over `rollback_map` in `abort`.
  unfoldable pub roll_back : ℕ → E → StringMap Query → E
  roll_back id e [] = e
  roll_back id e ((k, some (value, old)) ∷ m) = roll_back id (ops.put e k value old) m
  roll_back id e ((k, none) ∷ m) = roll_back id (ops.remove e k id) m

  unfoldable pub abort : TranContext → E → TranContext × E
  unfolding roll_back
  abort c e =
      let e' : E = elim c.isolation_level [
        | read_uncommitted ↦ roll_back c.tranc_id e c.rollback_map
        | _ ↦ e
      ] in
      (record c { is_aborted = true }, e')

  pub put-deferred :
      (c : TranContext) (key value : Bytes) (e : E)
      → is_deferred c.isolation_level ≡ true
      → put c key value e ≡ (
        record (emplace c (put_record c.tranc_id key value)) {
          temp_map = assign key value c.temp_map;
        },
        e,
      )
  unfolding put is_deferred
  put-deferred c key value e h = elim (IsolationLevel-cases c.isolation_level) [
    | inl (inl l) ↦ absurd (cc (h, ap is_deferred l))
    | inl (inr l) ↦ rw l refl
    | inr (inl l) ↦ rw l refl
    | inr (inr l) ↦ rw l refl
  ]

  pub remove-deferred :
      (c : TranContext) (key : Bytes) (e : E)
      → is_deferred c.isolation_level ≡ true
      → remove c key e ≡ (
        record (emplace c (delete_record c.tranc_id key)) { temp_map = assign key [] c.temp_map },
        e,
      )
  unfolding remove is_deferred
  remove-deferred c key e h = elim (IsolationLevel-cases c.isolation_level) [
    | inl (inl l) ↦ absurd (cc (h, ap is_deferred l))
    | inl (inr l) ↦ rw l refl
    | inr (inl l) ↦ rw l refl
    | inr (inr l) ↦ rw l refl
  ]
