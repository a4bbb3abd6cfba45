-- ===== src/MemTable.antt =====
-- The memory table (src/memtable/memtable.cpp, include/memtable/memtable.h): the table that is
-- written to and the frozen ones, the newest first. Each operation runs under the locks it takes;
-- `limit` is the configured `LsmPerMemSizeLimit`, and `seed` what a new table draws from.
pub mod Table
pub mod Reads
pub mod Writes
pub mod Flush
pub mod Oldest
pub mod Latest
pub mod Engine
mod Examples
use mini_redis.Common.{
  ℕ, zero, suc, ◌+◌, ◌-◌, ◌%◌, ◌^◌, List, [], ◌∷◌, ◌++◌, Bool, true, false, ◌&&◌, ◌||◌, not, map,
}
use mini_redis.Common.{Option, none, some, Outcome, ok, ◌>>=◌, pop_back, ltb, ◌==◌, if◌then◌else◌}
use mini_redis.Common.Keys.{Bytes}
use mini_redis.MemTable.Table.{Entry, TableOps}

pub record MemTable {ℓ} (T : Type ℓ) : Type ℓ where
  pub current_table : T
  pub frozen_tables : List T
  pub frozen_bytes : ℕ

-- `is_valid` of an iterator: at an entry, whose key is not empty.
unfoldable pub is_valid : Option Entry → Bool
is_valid none = false
is_valid (some ([], value, id)) = false
is_valid (some (x ∷ key, value, id)) = true

-- The answer of the first search, or else that of the second.
unfoldable pub or_else : Option Entry → Outcome (Option Entry) → Outcome (Option Entry)
unfolding is_valid
or_else result other = if is_valid result then ok result else other

-- The value and the transaction, as `get_batch` answers them.
unfoldable pub found : Option Entry → Option (Bytes × ℕ)
found none = none
found (some (key, value, id)) = some (value, id)

unfoldable pub has_value : Option (Bytes × ℕ) → Bool
has_value none = false
has_value (some x) = true

-- Whether `get_batch` is done with the current table.
unfoldable pub all_found : List (Bytes × Option (Bytes × ℕ)) → Bool
unfolding has_value
all_found [] = true
all_found ((key, value) ∷ results) = has_value value && all_found results

module _ {ℓ κ} {D : Type κ} {T : Type ℓ} (ops : TableOps D T) where
  unfoldable pub new_mem_table : D → MemTable T
  new_mem_table seed = record {
    current_table = ops.new_table seed;
    frozen_tables = [];
    frozen_bytes = 0;
  }

  unfoldable pub frozen_cur_table : D → MemTable T → MemTable T
  frozen_cur_table seed m = record {
    current_table = ops.new_table seed;
    frozen_tables = m.current_table ∷ m.frozen_tables;
    frozen_bytes = (m.frozen_bytes + ops.get_size m.current_table) % 2 ^ 64;
  }

  -- What the writing operations do at their end.
  unfoldable pub freeze_full : D → ℕ → MemTable T → MemTable T
  unfolding frozen_cur_table
  freeze_full seed limit m =
      if ltb limit (ops.get_size m.current_table) then frozen_cur_table seed m else m

  unfoldable pub put_ : Bytes → Bytes → ℕ → MemTable T → Outcome (MemTable T)
  put_ key value tranc_id m = do
    t ← ops.put key value tranc_id m.current_table
    ok (record m { current_table = t })

  unfoldable pub put : D → ℕ → Bytes → Bytes → ℕ → MemTable T → Outcome (MemTable T)
  unfolding put_ freeze_full
  put seed limit key value tranc_id m = do
    m ← put_ key value tranc_id m
    ok (freeze_full seed limit m)

  unfoldable pub put_all : List (Bytes × Bytes) → ℕ → MemTable T → Outcome (MemTable T)
  unfolding put_
  put_all [] tranc_id m = ok m
  put_all ((k, v) ∷ kvs) tranc_id m = do m ← put_ k v tranc_id m; put_all kvs tranc_id m

  unfoldable pub put_batch : D → ℕ → List (Bytes × Bytes) → ℕ → MemTable T → Outcome (MemTable T)
  unfolding put_all freeze_full
  put_batch seed limit kvs tranc_id m = do m ← put_all kvs tranc_id m; ok (freeze_full seed limit m)

  -- A removal puts the empty value.
  unfoldable pub remove_ : Bytes → ℕ → MemTable T → Outcome (MemTable T)
  remove_ key tranc_id m = do
    t ← ops.put key [] tranc_id m.current_table
    ok (record m { current_table = t })

  unfoldable pub remove : D → ℕ → Bytes → ℕ → MemTable T → Outcome (MemTable T)
  unfolding remove_ freeze_full
  remove seed limit key tranc_id m = do m ← remove_ key tranc_id m; ok (freeze_full seed limit m)

  unfoldable pub remove_all : List Bytes → ℕ → MemTable T → Outcome (MemTable T)
  unfolding remove_
  remove_all [] tranc_id m = ok m
  remove_all (key ∷ keys) tranc_id m = do m ← remove_ key tranc_id m; remove_all keys tranc_id m

  unfoldable pub remove_batch : D → ℕ → List Bytes → ℕ → MemTable T → Outcome (MemTable T)
  unfolding remove_all freeze_full
  remove_batch seed limit keys tranc_id m = do
    m ← remove_all keys tranc_id m
    ok (freeze_full seed limit m)

  unfoldable pub cur_get_ : Bytes → ℕ → MemTable T → Outcome (Option Entry)
  unfolding or_else
  cur_get_ key tranc_id m = do
    result ← ops.get key tranc_id m.current_table
    or_else result (ok none)

  unfoldable pub frozen_get_from : Bytes → ℕ → List T → Outcome (Option Entry)
  unfolding or_else
  frozen_get_from key tranc_id [] = ok none
  frozen_get_from key tranc_id (t ∷ ts) = do
    result ← ops.get key tranc_id t
    or_else result (frozen_get_from key tranc_id ts)

  unfoldable pub frozen_get_ : Bytes → ℕ → MemTable T → Outcome (Option Entry)
  unfolding frozen_get_from
  frozen_get_ key tranc_id m = frozen_get_from key tranc_id m.frozen_tables

  -- `get`, and `get_` without the locks.
  unfoldable pub get : Bytes → ℕ → MemTable T → Outcome (Option Entry)
  unfolding cur_get_ frozen_get_ or_else
  get key tranc_id m = do
    cur_res ← cur_get_ key tranc_id m
    let frozen_res = frozen_get_ key tranc_id m >>= λ result. or_else result (ok none)
    or_else cur_res frozen_res

  unfoldable pub cur_results :
      List Bytes → ℕ → MemTable T → Outcome (List (Bytes × Option (Bytes × ℕ)))
  unfolding cur_get_ found
  cur_results [] tranc_id m = ok []
  cur_results (key ∷ keys) tranc_id m = do
    cur_res ← cur_get_ key tranc_id m
    results ← cur_results keys tranc_id m
    ok ((key, if is_valid cur_res then found cur_res else none) ∷ results)

  unfoldable pub frozen_results :
      List (Bytes × Option (Bytes × ℕ))
      → ℕ
      → MemTable T
      → Outcome (List (Bytes × Option (Bytes × ℕ)))
  unfolding frozen_get_ found
  frozen_results [] tranc_id m = ok []
  frozen_results ((key, some x) ∷ results) tranc_id m = do
    rest ← frozen_results results tranc_id m
    ok ((key, some x) ∷ rest)
  frozen_results ((key, none) ∷ results) tranc_id m = do
    result ← frozen_get_ key tranc_id m
    rest ← frozen_results results tranc_id m
    ok ((key, if is_valid result then found result else none) ∷ rest)

  -- The last loops set to `nullopt` what is `nullopt`.
  unfoldable pub get_batch :
      List Bytes → ℕ → MemTable T → Outcome (List (Bytes × Option (Bytes × ℕ)))
  unfolding cur_results frozen_results all_found
  get_batch keys tranc_id m = do
    results ← cur_results keys tranc_id m
    if all_found results then ok results else frozen_results results tranc_id m

  -- `frozen_bytes` stays.
  unfoldable pub clear : MemTable T → MemTable T
  clear m = record m { current_table = ops.clear m.current_table; frozen_tables = [] }

  unfoldable pub get_cur_size : MemTable T → ℕ
  get_cur_size m = ops.get_size m.current_table

  unfoldable pub get_frozen_size : MemTable T → ℕ
  get_frozen_size m = m.frozen_bytes

  unfoldable pub get_total_size : MemTable T → ℕ
  unfolding get_cur_size get_frozen_size
  get_total_size m = (get_frozen_size m + get_cur_size m) % 2 ^ 64

  -- The oldest table leaves the list.
  unfoldable pub pop_oldest : MemTable T → T → List T → MemTable T × T
  pop_oldest m t ts =
      let (rest, table) = pop_back t ts in
      (
        record m {
          frozen_tables = rest;
          frozen_bytes = (m.frozen_bytes + 2 ^ 64 - ops.get_size table) % 2 ^ 64;
        },
        table,
      )

  -- The table that `flush_last` writes, if there is one: the oldest, or else the current one.
  unfoldable pub take_oldest : D → MemTable T → Option (MemTable T × T)
  unfolding pop_oldest frozen_cur_table
  take_oldest seed m = elim m.frozen_tables [
    | [] ↦
        if ops.get_size m.current_table == 0
        then none
        else some (pop_oldest (frozen_cur_table seed m) m.current_table [])
    | t ∷ ts ↦ some (pop_oldest m t ts)
  ]

  -- `B` is the builder of sorted tables, `S` the table that it builds under an id and a path.
  module _ {α β} {B : Type α} {S : Type β} (add : B → Bytes → Bytes → ℕ → B)
      (build : B → ℕ → Bytes → Outcome S) where
    unfoldable pub add_all : B → List Entry → B
    add_all builder [] = builder
    add_all builder ((k, v, t) ∷ entries) = add_all (add builder k v t) entries

    -- Where `build` throws, the table is taken all the same.
    unfoldable pub flush_last : D → B → Bytes → ℕ → MemTable T → Outcome (Option S) × MemTable T
    unfolding take_oldest add_all
    flush_last seed builder sst_path sst_id m = elim (take_oldest seed m) [
      | none ↦ (ok none, m)
      | some (m', table) ↦ (
        do
          flush_data ← ops.flush table
          sst ← build (add_all builder flush_data) sst_id sst_path
          ok (some sst),
        m',
      )
    ]
