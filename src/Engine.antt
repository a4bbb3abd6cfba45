-- ===== src/Engine.antt =====
-- What transactions call of the engine (src/lsm/engine.cpp, src/memtable/memtable.cpp).
pub mod Versions
use mini_redis.Common.{ℕ, List, Option, none, some, [], ◌∷◌}
use mini_redis.Common.Keys.{Bytes}

-- `E` is the engine's state, `total_size` the size of its memory table, and `flush` answers the
-- greatest id of the table that it wrote. A get answers the value and the transaction that wrote it; the memory
-- table's `get_(key, 0)` is asked only for that transaction, so it answers no value.
pub record EngineOps {ℓ} (E : Type ℓ) : Type ℓ where
  pub get : E → Bytes → ℕ → Option (Bytes × ℕ)
  pub put : E → Bytes → Bytes → ℕ → E
  pub remove : E → Bytes → ℕ → E
  pub memtable_get : E → Bytes → Option ℕ
  pub memtable_put : E → Bytes → Bytes → ℕ → E
  pub sst_get : E → Bytes → Option (Bytes × ℕ)
  pub put_batch : E → List (Bytes × Bytes) → ℕ → E
  pub remove_batch : E → List Bytes → ℕ → E
  pub total_size : E → ℕ
  pub flush : E → ℕ × E

-- What a get answers for the value it finds: the empty one marks a deletion.
unfoldable pub shown : Bytes → ℕ → Option (Bytes × ℕ)
shown [] id = none
shown (x ∷ xs) id = some (x ∷ xs, id)
