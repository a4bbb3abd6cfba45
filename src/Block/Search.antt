-- ===== src/Block/Search.antt =====
-- The search by key and transaction in a block, and the block iterator's skipping
-- (src/block/block.cpp, src/block/block_iterator.cpp).
-- Where the source has `int right`, which can become -1, the model has `right + 1`; -1 as a result is
-- `none`. The loops take as many rounds as there are entries, at most.
use mini_redis.Common.{ℕ, zero, suc, ◌+◌, ◌-◌, ◌/◌}
use mini_redis.Common.{
  Outcome, ok, unfinished, ◌>>=◌, Option, none, some, ltb, leb, ◌==◌, if◌then◌else◌, length,
  Ordering,
}
use mini_redis.Common.Keys.{Bytes}
use mini_redis.Block.{
  Block, offset_at, get_key_at, get_value_at, get_tranc_id_at, compare_key_at, is_same_key,
}

-- `get_tranc_id_at(offsets[idx])`
unfoldable pub tranc_id_of : Block → ℕ → Outcome ℕ
tranc_id_of b idx = do offset ← offset_at b idx; get_tranc_id_at b offset

-- while (prev_idx > 0 && is_same_key(prev_idx - 1, target_key)), up to an entry that is not visible
unfoldable pub newest_visible : Block → Bytes → ℕ → ℕ → Outcome ℕ
newest_visible b target tranc_id zero = ok 0
newest_visible b target tranc_id (suc prev_idx) = do
  same ← is_same_key b prev_idx target
  let rest = newest_visible b target tranc_id prev_idx
  if same
      then (do
        new_tranc_id ← tranc_id_of b prev_idx
        if ltb tranc_id new_tranc_id then ok (suc prev_idx) else rest)
      else ok (suc prev_idx)

-- The same loop with no transaction: to the first entry of the key.
unfoldable pub first_of_key : Block → Bytes → ℕ → Outcome ℕ
first_of_key b target zero = ok 0
first_of_key b target (suc prev_idx) = do
  same ← is_same_key b prev_idx target
  let rest = first_of_key b target prev_idx
  if same then rest else ok (suc prev_idx)

-- while (next_idx < offsets.size() && is_same_key(next_idx, target_key)), to a visible entry
unfoldable pub next_visible : ℕ → Block → Bytes → ℕ → ℕ → Outcome (Option ℕ)
next_visible zero b target tranc_id next_idx = unfinished
next_visible (suc fuel) b target tranc_id next_idx =
    if ltb next_idx (length b.offsets)
    then (do
      same ← is_same_key b next_idx target
      if same
          then (do
            new_tranc_id ← tranc_id_of b next_idx
            let rest = next_visible fuel b target tranc_id (next_idx + 1)
            if leb new_tranc_id tranc_id then ok (some next_idx) else rest)
          else ok none)
    else ok none

unfoldable pub adjust_with : Block → Bytes → ℕ → ℕ → Outcome (Option ℕ)
unfolding newest_visible first_of_key next_visible
adjust_with b target idx tranc_id =
    if tranc_id == 0 then (do found ← first_of_key b target idx; ok (some found)) else do
      cur_tranc_id ← tranc_id_of b idx
      if leb cur_tranc_id tranc_id
          then (do found ← newest_visible b target tranc_id idx; ok (some found))
          else next_visible (suc (length b.offsets)) b target tranc_id (idx + 1)

unfoldable pub adjust_idx_by_tranc_id : Block → ℕ → ℕ → Outcome (Option ℕ)
unfolding adjust_with
adjust_idx_by_tranc_id b idx tranc_id = if leb (length b.offsets) idx then ok none else do
  offset ← offset_at b idx
  target ← get_key_at b offset
  adjust_with b target idx tranc_id

-- while (left <= right)
unfoldable pub search_loop : ℕ → Block → Bytes → ℕ → ℕ → ℕ → Outcome (Option ℕ)
search_loop zero b key tranc_id left right_end = unfinished
search_loop (suc fuel) b key tranc_id left right_end =
    if ltb left right_end
    then (do
      let mid = left + (right_end - 1 - left) / 2
      mid_offset ← offset_at b mid
      cmp ← compare_key_at b mid_offset key
      elim cmp [
        | Ordering.eq ↦ adjust_idx_by_tranc_id b mid tranc_id
        | Ordering.lt ↦ search_loop fuel b key tranc_id (mid + 1) right_end
        | Ordering.gt ↦ search_loop fuel b key tranc_id left mid
      ])
    else ok none

unfoldable pub get_idx_binary : Block → Bytes → ℕ → Outcome (Option ℕ)
get_idx_binary b key tranc_id =
    if length b.offsets == 0
    then ok none
    else search_loop (suc (length b.offsets)) b key tranc_id 0 (length b.offsets)

unfoldable pub value_of : Block → Option ℕ → Outcome (Option Bytes)
value_of b none = ok none
value_of b (some idx) = do offset ← offset_at b idx; value ← get_value_at b offset; ok (some value)

unfoldable pub get_value_binary : Block → Bytes → ℕ → Outcome (Option Bytes)
unfolding value_of
get_value_binary b key tranc_id = do idx ← get_idx_binary b key tranc_id; value_of b idx
