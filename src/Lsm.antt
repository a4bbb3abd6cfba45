-- ===== src/Lsm.antt =====
-- The store that a client opens (class `LSM` of src/lsm/engine.cpp), over the engine's interface.
pub mod Recovery
mod Examples
use mini_redis.Common.{ℕ, zero, suc, ◌+◌, ◌%◌, ◌^◌, List, [], ◌∷◌, ◌++◌, Bool, true, false}
use mini_redis.Common.{Option, none, some, Outcome, ok, unfinished, ltb, if◌then◌else◌, ◌>>=◌}
use mini_redis.Common.Keys.{Bytes}
use mini_redis.Wal.Record.{OperationType, Record}
use mini_redis.Wal.Log.{LogFile, TrancRecords}
use mini_redis.Engine.{EngineOps}
use mini_redis.Transaction.Manager.{
  TranManager, check_recover, init_new_wal, update_max_finished_tranc_id, get_next_transaction_id,
  update_max_flushed_tranc_id, write_tranc_id_file,
}
use mini_redis.Transaction.Context.{Query, IsolationLevel, TranContext, new_tranc, value_of_query}

module _ {ℓ} {E : Type ℓ} (ops : EngineOps E) where
  unfoldable pub replay_record : ℕ → E → Record → E
  replay_record id e r = elim r.operation_type [
    | OperationType.put ↦ ops.put e r.key r.value id
    | OperationType.delete ↦ ops.remove e r.key id
    | _ ↦ e
  ]

  unfoldable pub replay : ℕ → E → List Record → E
  unfolding replay_record
  replay id e [] = e
  replay id e (r ∷ rs) = replay id (replay_record id e r) rs

  -- The loop over the recovered transactions.
  unfoldable pub replay_all : TranManager → E → TrancRecords → TranManager × E
  unfolding replay
  replay_all m e [] = (m, e)
  replay_all m e ((id, rs) ∷ groups) =
      replay_all (update_max_finished_tranc_id m id) (replay id e rs) groups

  -- The constructor, on the files of the log directory and what the engine and the manager have
  -- loaded from theirs.
  unfoldable pub open_lsm : List LogFile → TranManager → E → Outcome (TranManager × E)
  unfolding replay_all
  open_lsm listing m e = do
    groups ← check_recover listing m
    let (m', e') = replay_all m e groups
    ok (init_new_wal m', e')

  unfoldable pub get : TranManager → E → Bytes → TranManager × Option Bytes
  get m e key = let (id, m') = get_next_transaction_id m in (m', value_of_query (ops.get e key id))

  unfoldable pub put : TranManager → E → Bytes → Bytes → TranManager × E
  put m e key value = let (id, m') = get_next_transaction_id m in (m', ops.put e key value id)

  unfoldable pub remove : TranManager → E → Bytes → TranManager × E
  remove m e key = let (id, m') = get_next_transaction_id m in (m', ops.remove e key id)

  unfoldable pub put_batch : TranManager → E → List (Bytes × Bytes) → TranManager × E
  put_batch m e kvs = let (id, m') = get_next_transaction_id m in (m', ops.put_batch e kvs id)

  unfoldable pub remove_batch : TranManager → E → List Bytes → TranManager × E
  remove_batch m e keys =
      let (id, m') = get_next_transaction_id m in (m', ops.remove_batch e keys id)

  -- The answer of `flush`, the greatest id that was written, is dropped here.
  unfoldable pub flush : E → E
  flush e = (ops.flush e).1

  -- while (engine->memtable.get_total_size() > 0)
  unfoldable pub flush_all : ℕ → TranManager → E → Outcome (TranManager × E)
  flush_all zero m e = unfinished
  flush_all (suc fuel) m e =
      let (max_tranc_id, e') = ops.flush e in
      let rest = flush_all fuel (update_max_flushed_tranc_id m max_tranc_id) e' in
      if ltb 0 (ops.total_size e) then rest else ok (m, e)

  -- The destructor.
  unfoldable pub close : ℕ → TranManager → E → Outcome (TranManager × E)
  unfolding flush_all
  close fuel m e = do (m, e) ← flush_all fuel m e; ok (write_tranc_id_file m, e)

  unfoldable pub begin_tran : TranManager → IsolationLevel → TranContext × TranManager
  begin_tran m level = new_tranc m level
