-- ===== src/Transaction/Examples.antt =====
-- Concrete transactions, over the engine of versions and over that of a memory table of skip lists.
use mini_redis.Common.{none}
use mini_redis.Engine.{shown}
use mini_redis.MemTable.Engine.{in_memory-PutIsSeen}
use mini_redis.Transaction.Visible.{get-commit}
use mini_redis.Common.{Bool, ltb, if◌then◌else◌}
use mini_redis.Engine.{EngineOps}
use mini_redis.Wal.Log.Groups.{records_of, of_tranc}
use mini_redis.SkipList.Table.{skip_list_ops, skip_list-TableLaws}
use mini_redis.MemTable.Engine.{
  InMemory, in_memory, nothing_written, memtable_get-nothing, in_memory-KeepsLatest,
}
use mini_redis.Common.{
  ℕ, ◌≡◌, ◌≤◌, refl, ◌⊎◌, List, [], ◌∷◌, ◌++◌, true, false, some, arith, ok, All,
}
use mini_redis.Common.Keys.{Bytes, bytes_eq, compare_bytes}
use mini_redis.Common.Maps.{find}
use mini_redis.Wal.Record.{create_record, put_record, commit_record}
use mini_redis.Wal.Log.{TrancRecords, init, recover, directory}
use mini_redis.Wal.Log.Replay.{Logged}
use mini_redis.Wal.Log.Files.{init-Holds}
use mini_redis.Wal.Record.Layout.{IsStorable}
use mini_redis.Engine.Versions.{Versions, versions}
use mini_redis.Transaction.Manager.{
  TranManager, new_manager, open_manager, update_max_flushed_tranc_id,
}
use mini_redis.Transaction.Context.{
  IsolationLevel, TranContext, returned, new_context, emplace, get, put, commit, has_conflict,
  is_newer, id_of_query, checked, is_deferred, is_refused,
}
use mini_redis.Transaction.Ids.{open_manager-update_max_flushed_tranc_id}
use mini_redis.Transaction.Reads.{
  Action, reads, writes, erases, act, act_all, get-act_all_repeatable,
}
use mini_redis.Transaction.Writes.{last_write, leaves, or_else, temp_map-last_write, get-own_write}
use mini_redis.Transaction.Updating.{turns, stops, here, loads, retries, exchanges, Run-least_bound}
use mini_redis.Transaction.Commit.{commit-first_wins, commit-durable, with_writes}

abbrev manager : TranManager
manager = new_manager (init 128 0 4096)

abbrev key_a : Bytes
key_a = 97 ∷ []

abbrev two_versions : Versions
two_versions = (key_a, 2 ∷ [], 2) ∷ (key_a, 1 ∷ [], 1) ∷ []

abbrev some_actions : List (Action Versions)
some_actions = reads key_a [] ∷ writes (98 ∷ []) (5 ∷ []) [] ∷ erases (98 ∷ []) [] ∷ []

get-act_all_repeatable_example :
    (get versions
      (act_all versions
        (get versions (new_context 3 IsolationLevel.repeatable_read) key_a two_versions).0
        some_actions)
      key_a
      []).1
    ≡ (get versions (new_context 3 IsolationLevel.repeatable_read) key_a two_versions).1
get-act_all_repeatable_example =
    get-act_all_repeatable versions key_a (new_context 3 IsolationLevel.repeatable_read)
      two_versions [] some_actions (unfold checked new_context in refl)
      (unfold new_context find in refl)
      (tt, (unfold bytes_eq compare_bytes in refl, (unfold bytes_eq compare_bytes in refl, tt)))

temp_map-last_write_example :
    find
      (98 ∷ [])
      (act_all versions (new_context 3 IsolationLevel.serializable) some_actions).temp_map
    ≡ last_write
        (98 ∷ [])
        (act_all versions (new_context 3 IsolationLevel.serializable) some_actions).operations
temp_map-last_write_example =
    temp_map-last_write versions 3 IsolationLevel.serializable some_actions (98 ∷ [])
      (unfold is_deferred in refl)

get-own_write_example :
    (get versions
      (act_all versions
        (new_context 3 IsolationLevel.read_committed)
        (writes key_a (6 ∷ []) [] ∷ []))
      key_a
      two_versions).1
    ≡ some (6 ∷ [])
get-own_write_example =
    get-own_write versions 3 IsolationLevel.read_committed (writes key_a (6 ∷ []) [] ∷ []) key_a
      (6 ∷ []) two_versions (unfold is_deferred in refl)
      (unfold act_all act put new_context last_write leaves or_else put_record create_record
          bytes_eq compare_bytes emplace in
        refl)

open_manager-update_max_flushed_tranc_id_example :
    (m' : TranManager) × (open_manager
        (init 128 0 4096)
        (update_max_flushed_tranc_id manager 9).tranc_id_file
      ≡ ok m')
    × (manager.max_flushed_tranc_id ≤ m'.max_flushed_tranc_id)
    × (9 ≤ m'.max_flushed_tranc_id)
    × ((m'.max_flushed_tranc_id ≡ manager.max_flushed_tranc_id) ⊎ (m'.max_flushed_tranc_id ≡ 9))
    × (m'.max_finished_tranc_id ≡ manager.max_finished_tranc_id)
    × (m'.next_transaction_id ≡ manager.next_transaction_id)
open_manager-update_max_flushed_tranc_id_example =
    open_manager-update_max_flushed_tranc_id (init 128 0 4096) manager 9
      (unfold new_manager in
        (record { next = omega arith; flushed = omega arith; finished = omega arith }))
      (omega arith)

Run-least_bound_example :
    (1 ≤ 5) × All (λ id. id ≤ 5) (5 ∷ []) × ((b : ℕ) → 1 ≤ b → All (λ id. id ≤ b) (5 ∷ []) → 5 ≤ b)
Run-least_bound_example = Run-least_bound 1 5 (5 ∷ []) (
    turns _ _ _ _ _ _ (here _ _ _ _ _ _ (loads 1)) (
      turns _ _ _ _ _ _ (here _ _ _ _ _ _ (retries 1 1 (omega arith)))
        (turns _ _ _ _ _ _ (here _ _ _ _ _ _ (exchanges 1 (omega arith))) (stops _ _))))

-- A transaction that has written `a` and waits for its commit.
abbrev waiting : ℕ → TranContext
waiting id = record {
  tranc_id = id;
  isolation_level = IsolationLevel.repeatable_read;
  operations = create_record id ∷ put_record id key_a (7 ∷ []) ∷ [];
  temp_map = (key_a, 7 ∷ []) ∷ [];
  is_commited = false;
  is_aborted = false;
  read_map = [];
  rollback_map = [];
}

waiting-IsStorable : All IsStorable ((waiting 4).operations ++ commit_record 4 ∷ [])
waiting-IsStorable =
    unfold create_record put_record commit_record in
    (
      record { id_fits = omega arith; shape = (refl, refl, refl) },
      (
        record { id_fits = omega arith; shape = (refl, omega arith) },
        (record { id_fits = omega arith; shape = (refl, refl, refl) }, tt),
      ),
    )

manager-Logged : Logged [] manager.wal
manager-Logged = unfold new_manager init in ([], [], init-Holds 128 0 4096, refl)

abbrev seed : ℕ → List Bool × List Bool
seed n = (true ∷ false ∷ [], true ∷ [])

abbrev engine : EngineOps (InMemory skip_list_ops skip_list-TableLaws seed 20)
engine = in_memory skip_list_ops skip_list-TableLaws seed 20

abbrev empty_engine : InMemory skip_list_ops skip_list-TableLaws seed 20
empty_engine = nothing_written skip_list_ops skip_list-TableLaws seed 20

waiting-is_refused : is_refused engine (waiting 4) manager empty_engine ≡ false
unfolding is_refused has_conflict is_newer checked id_of_query new_manager in_memory
waiting-is_refused = rw (memtable_get-nothing skip_list_ops skip_list-TableLaws seed 20 97 []) refl

commit-durable_example :
    (c' : TranContext) × (m' : TranManager) × (commit engine true false
        (waiting 4)
        manager
        empty_engine
      ≡ ok (returned true, c', m', with_writes engine (waiting 4) empty_engine))
    × (c'.is_commited ≡ true)
    × (4 ≤ m'.max_finished_tranc_id)
    × (groups : TrancRecords) × (recover (directory m'.wal) 0 ≡ ok groups)
    × ((t : ℕ)
        → records_of t groups ≡ (
            if ltb 0 t
            then of_tranc t ([] ++ ((waiting 4).operations ++ commit_record 4 ∷ []))
            else []))
commit-durable_example =
    commit-durable engine [] (waiting 4) manager empty_engine 0 manager-Logged waiting-IsStorable
      waiting-is_refused

waiting-commit :
    (c' : TranContext) × (m' : TranManager) × (commit engine true false
        (waiting 4)
        manager
        empty_engine
      ≡ ok (returned true, c', m', with_writes engine (waiting 4) empty_engine))
waiting-commit =
    let (c', m', e, c1, c2, c3, c4, c5) =
      commit-durable engine [] (waiting 4) manager empty_engine 0 manager-Logged waiting-IsStorable
        waiting-is_refused in
    (c', m', e)

commit-first_wins_example :
    commit engine true false (waiting 3) manager (with_writes engine (waiting 4) empty_engine)
    ≡ ok (
      returned false,
      record (waiting 3) { is_aborted = true },
      manager,
      with_writes engine (waiting 4) empty_engine,
    )
commit-first_wins_example =
    commit-first_wins engine (waiting 3) (waiting 4) waiting-commit.0 manager waiting-commit.1
      manager empty_engine (with_writes engine (waiting 4) empty_engine) 97 [] (7 ∷ []) (7 ∷ [])
      true true false (in_memory-KeepsLatest skip_list_ops skip_list-TableLaws seed 20)
      (omega arith) (unfold checked in refl) (unfold is_deferred in refl)
      (unfold find bytes_eq compare_bytes in refl) (unfold find bytes_eq compare_bytes in refl)
      waiting-commit.2

get-commit_example :
    ((x : ℕ) (xs v : Bytes)
      → find (x ∷ xs) (waiting 4).temp_map ≡ some v
      → engine.get (with_writes engine (waiting 4) empty_engine) (x ∷ xs) 4 ≡ shown v 4)
    × ((x : ℕ) (xs : Bytes) (j : ℕ)
        → find (x ∷ xs) (waiting 4).temp_map ≡ none
        → engine.get (with_writes engine (waiting 4) empty_engine) (x ∷ xs) j
          ≡ engine.get empty_engine (x ∷ xs) j)
get-commit_example =
    get-commit engine (in_memory-PutIsSeen skip_list_ops skip_list-TableLaws seed 20) true
      (waiting 4) waiting-commit.0 manager waiting-commit.1 empty_engine
      (with_writes engine (waiting 4) empty_engine) (omega arith) (unfold is_deferred in refl)
      (unfold find in refl, tt) waiting-commit.2
