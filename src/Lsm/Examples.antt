-- ===== src/Lsm/Examples.antt =====
-- A store that is opened on a log with one transaction.
use mini_redis.Common.{Bool, true, false}
use mini_redis.SkipList.Table.{skip_list_ops, skip_list-TableLaws}
use mini_redis.MemTable.Engine.{InMemory, in_memory, nothing_written}
use mini_redis.Common.{ℕ, List, [], ◌∷◌}
use mini_redis.Wal.Record.{Record, put_record, delete_record}
use mini_redis.Wal.Log.{Wal, init}
use mini_redis.Engine.{EngineOps}
use mini_redis.Transaction.Manager.{TranManager, new_manager}

abbrev manager : TranManager
manager = new_manager (init 128 0 4096)

abbrev records : List Record
records = put_record 5 (97 ∷ []) (1 ∷ []) ∷ delete_record 5 (98 ∷ []) ∷ []

abbrev seed : ℕ → List Bool × List Bool
seed n = (true ∷ false ∷ [], true ∷ [])

abbrev engine : EngineOps (InMemory skip_list_ops skip_list-TableLaws seed 20)
engine = in_memory skip_list_ops skip_list-TableLaws seed 20

abbrev empty_engine : InMemory skip_list_ops skip_list-TableLaws seed 20
empty_engine = nothing_written skip_list_ops skip_list-TableLaws seed 20
