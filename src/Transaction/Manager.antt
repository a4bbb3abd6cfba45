-- ===== src/Transaction/Manager.antt =====
-- `TranManager`: the ids, the file that keeps them and the log. The atomics are plain numbers here,
-- and a loop of `compare_exchange_weak` is what it comes to when no other thread interferes.
use mini_redis.Common.{ℕ, ◌+◌, ◌%◌, ◌^◌, List, [], ◌∷◌, ◌++◌, Bool, true, false}
use mini_redis.Common.{Outcome, ok, throws, fault, unfinished, ◌>>=◌, ltb, if◌then◌else◌}
use mini_redis.Common.Keys.{Bytes}
use mini_redis.Common.Bytes.{le_bytes}
use mini_redis.Storage.{read_uint64}
use mini_redis.Wal.Record.{Record}
use mini_redis.Wal.Log.{Wal, TrancRecords, LogFile, init, log, recover}

pub record TranManager : Type 0 where
  pub next_transaction_id : ℕ
  pub max_flushed_tranc_id : ℕ
  pub max_finished_tranc_id : ℕ
  pub tranc_id_file : Bytes
  pub wal : Wal

-- `write(0, buf)` on a file: the bytes behind those written stay.
unfoldable pub write_front : Bytes → Bytes → Bytes
write_front [] file = file
write_front (x ∷ xs) [] = x ∷ xs
write_front (x ∷ xs) (y ∷ ys) = x ∷ write_front xs ys

unfoldable pub write_tranc_id_file : TranManager → TranManager
unfolding write_front
write_tranc_id_file m = record m {
  tranc_id_file =
      write_front
        (le_bytes 8 m.next_transaction_id
          ++ (le_bytes 8 m.max_flushed_tranc_id ++ le_bytes 8 m.max_finished_tranc_id))
        m.tranc_id_file;
}

unfoldable pub read_tranc_id_file : TranManager → Outcome TranManager
read_tranc_id_file m = do
  next ← read_uint64 m.tranc_id_file 0
  flushed ← read_uint64 m.tranc_id_file 8
  finished ← read_uint64 m.tranc_id_file 16
  ok (record m {
    next_transaction_id = next;
    max_flushed_tranc_id = flushed;
    max_finished_tranc_id = finished;
  })

-- The constructor, on no file and on the one that is there.
unfoldable pub new_manager : Wal → TranManager
new_manager w = record {
  next_transaction_id = 1;
  max_flushed_tranc_id = 0;
  max_finished_tranc_id = 0;
  tranc_id_file = [];
  wal = w;
}

unfoldable pub open_manager : Wal → Bytes → Outcome TranManager
unfolding new_manager read_tranc_id_file
open_manager w file = read_tranc_id_file (record (new_manager w) { tranc_id_file = file })

unfoldable pub raise : ℕ → ℕ → ℕ
raise expected tranc_id = if ltb expected tranc_id then tranc_id else expected

unfoldable pub update_max_finished_tranc_id : TranManager → ℕ → TranManager
unfolding raise
update_max_finished_tranc_id m id = record m {
  max_finished_tranc_id = raise m.max_finished_tranc_id id;
}

unfoldable pub update_max_flushed_tranc_id : TranManager → ℕ → TranManager
unfolding raise write_tranc_id_file
update_max_flushed_tranc_id m id =
    write_tranc_id_file (record m { max_flushed_tranc_id = raise m.max_flushed_tranc_id id })

-- fetch_add on a uint64_t
unfoldable pub get_next_transaction_id : TranManager → ℕ × TranManager
get_next_transaction_id m =
    (m.next_transaction_id, record m { next_transaction_id = (m.next_transaction_id + 1) % 2 ^ 64 })

-- `init_new_wal` deletes every log file and starts with `wal.0`.
unfoldable pub init_new_wal : TranManager → TranManager
init_new_wal m = record m { wal = init 128 m.max_finished_tranc_id 4096 }

unfoldable pub check_recover : List LogFile → TranManager → Outcome TrancRecords
check_recover listing m = recover listing m.max_flushed_tranc_id

-- The answer is false where `log` ends by an exception. One that `encode` throws is answered
-- without a new state of the log.
unfoldable pub write_to_wal : Bool → TranManager → List Record → Outcome (Bool × TranManager)
write_to_wal synced m records = answer (log synced m.wal records true)
  where
    answer : Outcome (Bool × Wal) → Outcome (Bool × TranManager)
    answer (ok (b, w)) = ok (b, record m { wal = w })
    answer throws = ok (false, m)
    answer fault = fault
    answer unfinished = unfinished
