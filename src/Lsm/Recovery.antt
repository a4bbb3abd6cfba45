-- ===== src/Lsm/Recovery.antt =====
-- What a restart brings back.
use mini_redis.Common.{ℕ, ◌≤◌, ◌≡◌, [], ◌∷◌, false, Option, none, some}
use mini_redis.Wal.Log.{Wal}
use mini_redis.Common.Keys.{Bytes, bytes_eq}
use mini_redis.Wal.Record.{Record}
use mini_redis.Wal.Log.{TrancRecords}
use mini_redis.Engine.{EngineOps, shown}
use mini_redis.Transaction.Context.{Query}
use mini_redis.Transaction.Writes.{last_write}

-- What the recovered transactions leave under a key, each by its last record on the key.
unfoldable pub after : Bytes → Query → ℕ → Option Bytes → Query
unfolding shown
after key q id none = q
after key q id (some v) = shown v id

unfoldable pub after_all : Bytes → Query → TrancRecords → Query
unfolding after
after_all key q [] = q
after_all key q ((id, rs) ∷ groups) = after_all key (after key q id (last_write key rs)) groups

-- The order of a map by its keys, none of them below `n`.
abbrev pub IsAscending : ℕ → TrancRecords → Type 0
IsAscending n [] = Unit {0}
IsAscending n ((id, rs) ∷ groups) = (n ≤ id) × IsAscending id groups

module _ {ℓ} {E : Type ℓ} (ops : EngineOps E) where
  -- A put or a removal by the latest transaction so far decides what a key that is not empty is
  -- answered.
  pub record LatestDecides (upto : E → ℕ → Type 0) : Type ℓ where
    pub upto_later : (e : E) (m n : ℕ) → upto e m → m ≤ n → upto e n
    pub upto_put : (e : E) (key v : Bytes) (id : ℕ) → upto e id → upto (ops.put e key v id) id
    pub upto_remove : (e : E) (key : Bytes) (id : ℕ) → upto e id → upto (ops.remove e key id) id
    pub get_put_same :
        (e : E) (x : ℕ) (xs v : Bytes) (id : ℕ)
        → upto e id
        → ops.get (ops.put e (x ∷ xs) v id) (x ∷ xs) 0 ≡ shown v id
    pub get_put_other :
        (e : E) (k : Bytes) (x : ℕ) (xs v : Bytes) (id : ℕ)
        → bytes_eq k (x ∷ xs) ≡ false
        → ops.get (ops.put e k v id) (x ∷ xs) 0 ≡ ops.get e (x ∷ xs) 0
    pub get_remove_same :
        (e : E) (x : ℕ) (xs : Bytes) (id : ℕ)
        → upto e id
        → ops.get (ops.remove e (x ∷ xs) id) (x ∷ xs) 0 ≡ none
    pub get_remove_other :
        (e : E) (k : Bytes) (x : ℕ) (xs : Bytes) (id : ℕ)
        → bytes_eq k (x ∷ xs) ≡ false
        → ops.get (ops.remove e k id) (x ∷ xs) 0 ≡ ops.get e (x ∷ xs) 0
