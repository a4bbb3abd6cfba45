-- ===== src/Wal/Log/Examples.antt =====
-- Concrete logs.
use mini_redis.Common.{ℕ, ◌≡◌, refl, List, [], ◌∷◌, ◌++◌, ◌⊎◌, Bool, true, false, arith}
use mini_redis.Common.{ok, unfinished, ltb, if◌then◌else◌}
use mini_redis.Wal.Record.{OperationType, Record}
use mini_redis.Wal.Record.Layout.{IsStorable, layout}
use mini_redis.Wal.Log.{
  Wal, LogFile, TrancRecords, init, directory, recover, push_records, clean_files, scan_loop,
}
use mini_redis.Wal.Log.Replay.{log_all, records_logged, recover-log_all}
use mini_redis.Wal.Log.Groups.{records_of, of_tranc, records_of-recovered}
use mini_redis.Wal.Log.Cleaner.{clean_files-nothing, scan_loop-finished}

abbrev mark : ℕ → Record
mark id = record {
  tranc_id = id;
  operation_type = OperationType.commit;
  key = [];
  value = [];
  record_len = 11;
}

mark-IsStorable : IsStorable (mark 7)
mark-IsStorable = record { id_fits = omega arith; shape = (refl, refl, refl) }

-- A forced call, then one that stays in the buffer.
abbrev two_calls : List (List Record × Bool)
two_calls = (mark 7 ∷ [], true) ∷ (mark 7 ∷ mark 7 ∷ [], false) ∷ []

recover-log_all_example :
    (w : Wal) × (stored : List Record) × (groups : TrancRecords) × (log_all
        (init 128 0 4096)
        two_calls
      ≡ ok w)
    × (stored ++ w.log_buffer ≡ records_logged two_calls)
    × (recover (directory w) 0 ≡ ok groups)
    × ((t : ℕ) → records_of t groups ≡ (if ltb 0 t then of_tranc t stored else []))
recover-log_all_example =
    recover-log_all 128 0 4096 0 two_calls
      ((mark-IsStorable, tt), ((mark-IsStorable, (mark-IsStorable, tt)), tt))

records_of-recovered_example :
    records_of 7 (push_records 3 [] (mark 7 ∷ mark 9 ∷ []))
    ≡ (if ltb 3 7 then of_tranc 7 (mark 7 ∷ mark 9 ∷ []) else [])
records_of-recovered_example = records_of-recovered 7 3 (mark 7 ∷ mark 9 ∷ [])

abbrev two_files : List LogFile
two_files = (0, layout (mark 7) ++ []) ∷ (1, layout (mark 7) ++ []) ∷ []

clean_files-nothing_example :
    (clean_files 50 7 two_files ≡ ok []) ⊎ (clean_files 50 7 two_files ≡ unfinished)
clean_files-nothing_example =
    clean_files-nothing 50 7 (0, layout (mark 7) ++ []) ((1, layout (mark 7) ++ []) ∷ [])
      ((mark 7, [], mark-IsStorable, refl), ((mark 7, [], mark-IsStorable, refl), tt))

scan_loop-finished_example : scan_loop 50 7 (layout (mark 7) ++ []) 0 ≡ unfinished
scan_loop-finished_example = scan_loop-finished 50 7 (mark 7) [] mark-IsStorable (omega arith)
