-- ===== src/MemTable/Examples.antt =====
-- A memory table of skip lists that freezes its table when it has more than 20 bytes.
use mini_redis.Common.{
  ℕ, ◌≡◌, ◌<◌, ◌⊎◌, ◌↔◌, refl, List, [], ◌∷◌, Bool, true, false, arith, some, ◌++◌,
}
use mini_redis.Common.{Option, Outcome, ok, ◌>>=◌, foldl}
use mini_redis.Common.Keys.{Bytes, bytes_eq}
use mini_redis.SkipList.{empty_list, get_size}
use mini_redis.SkipList.Table.{DrawnList, put_drawn, skip_list_ops, skip_list-TableLaws}
use mini_redis.MemTable.Table.{Entry, put_version}
use mini_redis.MemTable.{
  MemTable, new_mem_table, pop_oldest, put, get, get_batch, put_batch, remove_batch, clear,
  get_frozen_size, take_oldest, flush_last,
}
use mini_redis.MemTable.Reads.{
  read_tables, MemStands, get-read_tables, get_each, get_batch-get_each,
}
use mini_redis.MemTable.Writes.{
  put_versions, ReadsAs, put_batch-ReadsAs, get-put, remove_batch-put_batch,
}
use mini_redis.MemTable.Flush.{
  IsCounted, frozen_sizes, put_batch-IsCounted, take_oldest-IsCounted, clear-IsCounted,
}
use mini_redis.MemTable.Oldest.{Taken, flush_last-Taken}

abbrev seed : ℕ → List Bool × List Bool
seed n = (true ∷ false ∷ [], true ∷ [])

abbrev empty_table : MemTable DrawnList
empty_table = new_mem_table skip_list_ops seed

empty_table-MemStands : MemStands skip_list_ops skip_list-TableLaws empty_table [] []
unfolding new_mem_table
empty_table-MemStands = record {
  current_lem = skip_list-TableLaws.new_table_lem seed;
  frozen_lem = tt;
}

abbrev batch : List (Bytes × Bytes)
batch = (5 ∷ [], 50 ∷ []) ∷ (2 ∷ [], 20 ∷ []) ∷ (7 ∷ [], 70 ∷ []) ∷ []

-- The batch is of 30 bytes, so that the table is frozen.
after_batch :
    ReadsAs skip_list_ops skip_list-TableLaws
      (put_batch skip_list_ops seed 20 batch 1 empty_table)
      (put_versions batch 1 [])
      []
after_batch =
    put_batch-ReadsAs skip_list_ops skip_list-TableLaws seed 20 batch 1 empty_table [] []
      empty_table-MemStands

put_batch-ReadsAs_example :
    ReadsAs skip_list_ops skip_list-TableLaws
      (put_batch skip_list_ops seed 20 ((5 ∷ [], []) ∷ (9 ∷ [], 1 ∷ []) ∷ []) 2 after_batch.after)
      (put_versions ((5 ∷ [], []) ∷ (9 ∷ [], 1 ∷ []) ∷ []) 2 after_batch.current')
      after_batch.frozen'
put_batch-ReadsAs_example =
    put_batch-ReadsAs skip_list_ops skip_list-TableLaws seed 20
      ((5 ∷ [], []) ∷ (9 ∷ [], 1 ∷ []) ∷ []) 2 after_batch.after after_batch.current'
      after_batch.frozen' after_batch.stands

get-read_tables_example :
    get skip_list_ops (5 ∷ []) 1 after_batch.after
    ≡ ok (read_tables (5 ∷ []) 1 (after_batch.current' ∷ after_batch.frozen'))
get-read_tables_example =
    get-read_tables skip_list_ops skip_list-TableLaws after_batch.after after_batch.current'
      after_batch.frozen' 5 [] 1 after_batch.stands

get_batch-get_each_example :
    (get_batch skip_list_ops ((5 ∷ []) ∷ (6 ∷ []) ∷ []) 1 after_batch.after
      ≡ get_each skip_list_ops skip_list-TableLaws ((5 ∷ []) ∷ (6 ∷ []) ∷ []) 1 after_batch.after)
    × ((x : ℕ) (xs : Bytes) (before behind : List Bytes) (i : ℕ)
        → (5 ∷ []) ∷ (6 ∷ []) ∷ [] ≡ before ++ (x ∷ xs) ∷ behind
        → read_tables (x ∷ xs) 1 (after_batch.current' ∷ after_batch.frozen') ≡ some (x ∷ xs, [], i)
        → (front back : List (Bytes × Option (Bytes × ℕ))) × (get_batch skip_list_ops
              ((5 ∷ []) ∷ (6 ∷ []) ∷ [])
              1
              after_batch.after
            ≡ ok (front ++ (x ∷ xs, some ([], i)) ∷ back)))
get_batch-get_each_example =
    get_batch-get_each skip_list_ops skip_list-TableLaws after_batch.after after_batch.current'
      after_batch.frozen' ((5 ∷ []) ∷ (6 ∷ []) ∷ []) 1 after_batch.stands tt

get-put_example :
    (m' : MemTable DrawnList) × (put skip_list_ops seed 20 (5 ∷ []) (55 ∷ []) 2 after_batch.after
      ≡ ok m')
    × (get skip_list_ops (5 ∷ []) 2 m' ≡ ok (some (5 ∷ [], 55 ∷ [], 2)))
    × ((y : ℕ) (ys : Bytes) (j : ℕ)
        → (bytes_eq (5 ∷ []) (y ∷ ys) ≡ false) ⊎ ((0 < j) × (j < 2))
        → get skip_list_ops (y ∷ ys) j m' ≡ get skip_list_ops (y ∷ ys) j after_batch.after)
get-put_example =
    get-put skip_list_ops skip_list-TableLaws seed 20 after_batch.after after_batch.current'
      after_batch.frozen' 5 [] (55 ∷ []) 2 after_batch.stands (omega arith)

remove_batch-put_batch_example :
    remove_batch skip_list_ops seed 20 ((5 ∷ []) ∷ []) 3 after_batch.after
    ≡ put_batch skip_list_ops seed 20 ((5 ∷ [], []) ∷ []) 3 after_batch.after
remove_batch-put_batch_example =
    remove_batch-put_batch skip_list_ops skip_list-TableLaws seed 20 ((5 ∷ []) ∷ []) 3
      after_batch.after

empty_table-IsCounted : IsCounted skip_list_ops empty_table
unfolding new_mem_table frozen_sizes
empty_table-IsCounted = refl

put_batch-IsCounted_example : IsCounted skip_list_ops after_batch.after
put_batch-IsCounted_example =
    put_batch-IsCounted skip_list_ops seed 20 batch 1 empty_table after_batch.after
      after_batch.answer empty_table-IsCounted

clear-IsCounted_example :
    IsCounted skip_list_ops (clear skip_list_ops after_batch.after)
    ↔ (get_frozen_size skip_list_ops after_batch.after ≡ 0)
clear-IsCounted_example = clear-IsCounted skip_list_ops after_batch.after

abbrev wide : DrawnList
wide = record { list = record (empty_list 16) { size_bytes = 30 }; draws = seed }

abbrev one_frozen : MemTable DrawnList
one_frozen = record {
  current_table = record { list = empty_list 16; draws = seed };
  frozen_tables = wide ∷ [];
  frozen_bytes = 30;
}

take_oldest-IsCounted_example :
    IsCounted skip_list_ops (pop_oldest skip_list_ops one_frozen wide []).0
unfolding pop_oldest take_oldest get_size frozen_sizes
take_oldest-IsCounted_example =
    take_oldest-IsCounted skip_list_ops seed one_frozen
      (pop_oldest skip_list_ops one_frozen wide []) (omega arith) refl refl

-- A table with one entry, which is frozen.
one_entry :
    (t : DrawnList) × (put_drawn (5 ∷ []) (50 ∷ []) 1 (skip_list_ops.new_table seed) ≡ ok t)
    × skip_list-TableLaws.Stands t (put_version (5 ∷ [], 50 ∷ [], 1) [])
one_entry =
    skip_list-TableLaws.put_lem (skip_list_ops.new_table seed) [] (5 ∷ []) (50 ∷ []) 1
      (skip_list-TableLaws.new_table_lem seed)

abbrev to_write : MemTable DrawnList
to_write = record {
  current_table = skip_list_ops.new_table seed;
  frozen_tables = one_entry.0 ∷ [];
  frozen_bytes = 10;
}

to_write-MemStands :
    MemStands skip_list_ops skip_list-TableLaws to_write []
      (put_version (5 ∷ [], 50 ∷ [], 1) [] ∷ [])
to_write-MemStands = record {
  current_lem = skip_list-TableLaws.new_table_lem seed;
  frozen_lem = (one_entry.2, tt);
}

abbrev add_entry : List Entry → Bytes → Bytes → ℕ → List Entry
add_entry entries key value id = entries ++ (key, value, id) ∷ []

abbrev build_entries : List Entry → ℕ → Bytes → Outcome (List Entry)
build_entries entries sst_id path = ok entries

flush_last-Taken_example :
    (k : Taken skip_list_ops skip_list-TableLaws seed to_write []
      (put_version (5 ∷ [], 50 ∷ [], 1) [] ∷ []))
    × (flush_last skip_list_ops add_entry build_entries seed [] [] 1 to_write ≡ (
      build_entries (foldl (λ b (key, value, id). add_entry b key value id) [] k.oldest) 1 []
          >>= λ sst. ok (some sst),
      k.after,
    ))
flush_last-Taken_example =
    flush_last-Taken skip_list_ops skip_list-TableLaws add_entry build_entries seed [] [] 1 to_write
      [] (put_version (5 ∷ [], 50 ∷ [], 1) [] ∷ []) to_write-MemStands (λ e. absurd (cc))
