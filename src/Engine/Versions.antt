-- ===== src/Engine/Versions.antt =====
-- A reference engine that keeps every version of a key in a list, the last put first.
use mini_redis.Common.{map, ◌++◌, ℕ, List, [], ◌∷◌, ◌||◌}
use mini_redis.Common.{Option, none, some, ltb, leb, ◌==◌, if◌then◌else◌}
use mini_redis.Common.Keys.{Bytes, bytes_eq}
use mini_redis.Engine.{EngineOps, shown}

abbrev pub Versions : Type 0
Versions = List (Bytes × Bytes × ℕ)

-- The first version of the key that the transaction sees.
unfoldable pub lookup : Versions → Bytes → ℕ → Option (Bytes × ℕ)
unfolding shown
lookup [] key id = none
lookup ((k, v, i) ∷ e) key id =
    let rest = lookup e key id in
    if bytes_eq k key then (if (id == 0) || leb i id then shown v i else rest) else rest

unfoldable pub greater_of : ℕ → Option ℕ → ℕ
greater_of i none = i
greater_of i (some j) = if ltb i j then j else i

-- The latest transaction that wrote the key.
unfoldable pub latest : Versions → Bytes → Option ℕ
unfolding greater_of
latest [] key = none
latest ((k, v, i) ∷ e) key =
    let rest = latest e key in if bytes_eq k key then some (greater_of i rest) else rest

abbrev pub versions : EngineOps Versions
versions = record {
  get = lookup;
  put = λ e key value id. (key, value, id) ∷ e;
  remove = λ e key id. (key, [], id) ∷ e;
  memtable_get = latest;
  memtable_put = λ e key value id. (key, value, id) ∷ e;
  sst_get = λ e key. none;
  put_batch = λ e kvs id. map (λ (key, value). (key, value, id)) kvs ++ e;
  remove_batch = λ e keys id. map (λ key. (key, [], id)) keys ++ e;
  total_size = λ e. 0;
  flush = λ e. (0, e);
}
