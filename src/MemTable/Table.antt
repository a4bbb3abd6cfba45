-- ===== src/MemTable/Table.antt =====
-- What the memory table asks of a table (`SkipList` of include/skiplist/skiplist.h), and the sorted
-- list of entries that a table stands for.
use mini_redis.Common.{ℕ, ◌<◌, ◌≡◌, ◌⊎◌, refl, List, [], ◌∷◌, true, false, ◌&&◌, ◌||◌, arith}
use mini_redis.Common.{Option, none, some, Outcome, ok, ltb, leb, ◌==◌, if◌then◌else◌}
use mini_redis.Common.Keys.{Bytes, bytes_eq, bytes_lt, bytes_eq_iff, bytes_eq_refl}

-- The key, the value and the transaction of a version.
abbrev pub Entry : Type 0
Entry = Bytes × Bytes × ℕ

-- `D` is what the random draws of a new table come from.
pub record TableOps {ℓ κ} (D : Type κ) (T : Type ℓ) : Type (ℓ ⊔ κ) where
  pub new_table : D → T
  pub put : Bytes → Bytes → ℕ → T → Outcome T
  pub get : Bytes → ℕ → T → Outcome (Option Entry)
  pub get_size : T → ℕ
  pub flush : T → Outcome (List Entry)
  pub clear : T → T

-- The entry at its place: before what follows it in the order, in place of the one of its id.
unfoldable pub put_version : Entry → List Entry → List Entry
put_version (key, value, id) [] = (key, value, id) ∷ []
put_version (key, value, id) ((k, v, i) ∷ entries) =
    let rest = (k, v, i) ∷ put_version (key, value, id) entries in
    if (if bytes_eq k key then ltb id i else bytes_lt k key)
    then rest
    else if bytes_eq k key && (i == id)
    then (key, value, id) ∷ entries
    else (key, value, id) ∷ (k, v, i) ∷ entries

-- The first version of the key that the transaction sees; 0 sees all.
unfoldable pub first_visible : Bytes → ℕ → List Entry → Option Entry
first_visible key id [] = none
first_visible key id ((k, v, i) ∷ entries) =
    let rest = first_visible key id entries in
    if bytes_eq k key && ((id == 0) || leb i id) then some (k, v, i) else rest

-- A table stands for a list of entries.
pub record TableLaws {ℓ κ} {D : Type κ} {T : Type ℓ} (ops : TableOps D T) : Type (1 ⊔ ℓ ⊔ κ) where
  pub Stands : T → List Entry → Type 0
  pub new_table_lem : (seed : D) → Stands (ops.new_table seed) []
  pub put_lem :
      (t : T) (entries : List Entry) (key value : Bytes) (id : ℕ)
      → Stands t entries
      → (t' : T) × (ops.put key value id t ≡ ok t')
        × Stands t' (put_version (key, value, id) entries)
  pub get_lem :
      (t : T) (entries : List Entry) (key : Bytes) (id : ℕ)
      → Stands t entries
      → ops.get key id t ≡ ok (first_visible key id entries)
  pub flush_lem : (t : T) (entries : List Entry) → Stands t entries → ops.flush t ≡ ok entries
  pub clear_lem : (t : T) (entries : List Entry) → Stands t entries → Stands (ops.clear t) []

-- A transaction sees what it put.
pub first_visible-put_version :
    (key value : Bytes) (id : ℕ) (entries : List Entry)
    → 0 < id
    → first_visible key id (put_version (key, value, id) entries) ≡ some (key, value, id)
unfolding first_visible put_version
first_visible-put_version key value id [] l =
    let sees : leb id id ≡ true = ground arith in
    let some_id : (id == 0) ≡ false = ground arith in rw (bytes_eq_refl key, some_id, sees) refl
first_visible-put_version key value id ((k, v, i) ∷ entries) l =
    let ih = first_visible-put_version key value id entries l in
    let sees : leb id id ≡ true = ground arith in
    let some_id : (id == 0) ≡ false = ground arith in let here = bytes_eq_refl key in ground arith

-- Other keys, and transactions from before, see what they saw.
pub first_visible-put_other :
    (key value k : Bytes) (id j : ℕ) (entries : List Entry)
    → (bytes_eq key k ≡ false) ⊎ ((0 < j) × (j < id))
    → first_visible k j (put_version (key, value, id) entries) ≡ first_visible k j entries
unfolding first_visible put_version
first_visible-put_other key value k id j [] h = ground arith
first_visible-put_other key value k id j ((l, v, i) ∷ entries) h =
    let ih = first_visible-put_other key value k id j entries h in
    let same = bytes_eq_iff l key in ground arith
