-- ===== src/Block.antt =====
-- A data block: entries one behind the other, their offsets, and the search in them
-- (src/block/block.cpp, include/block/block.h).
pub mod Codec
pub mod Entries
pub mod Access
pub mod Search
pub mod Ordered
pub mod Scan
pub mod Adjust
pub mod Visible
mod Examples
use mini_redis.Common.{
  ℕ, zero, suc, ◌+◌, ◌-◌, ◌*◌, ◌/◌, ◌%◌, ◌^◌, List, [], ◌∷◌, ◌++◌, map, Bool, true, false, ◌&&◌,
  ◌||◌, not,
}
use mini_redis.Common.{
  Outcome, ok, throws, fault, unfinished, ◌>>=◌, Option, none, some, ltb, leb, ◌==◌, if◌then◌else◌,
}
use mini_redis.Common.{length, get_elem?, take, drop, replicate, Ordering}
use mini_redis.Common.Keys.{Bytes, compare_bytes, bytes_eq}
use mini_redis.Common.Bytes.{le_bytes, read_bytes, read_le, write_bytes}

pub record Block : Type 0 where
  pub bytes : Bytes
  pub offsets : List ℕ
  pub capacity : ℕ

pub record Entry : Type 0 where
  pub key : Bytes
  pub value : Bytes
  pub tranc_id : ℕ

unfoldable pub empty_block : ℕ → Block
empty_block capacity = record { bytes = []; offsets = []; capacity = capacity }

unfoldable pub size : Block → ℕ
size b = length b.offsets

unfoldable pub cur_size : Block → ℕ
cur_size b = length b.bytes + length b.offsets * 2 + 2

unfoldable pub is_empty : Block → Bool
is_empty b = length b.offsets == 0

-- The test in `add_entry`: the entry does not fit, and the block is not empty.
pub is_full : Block → Bytes → Bytes → Bool
unfolding cur_size is_empty
is_full b key value =
    ltb b.capacity (cur_size b + length key + length value + 3 * 2 + 8) && not (is_empty b)

-- The bytes of one entry: `data.resize(old + entry_size)`, then the five `memcpy`s into the new part.
-- The lengths are cast to uint16_t, and only so many bytes of the key and the value are copied.
pub write_entry : Bytes → Bytes → Bytes → ℕ → Outcome Bytes
write_entry bytes key value tranc_id = do
  let old_size = length bytes
  let key_len = length key % 2 ^ 16
  let value_len = length value % 2 ^ 16
  let grown = bytes ++ replicate (2 + length key + 2 + length value + 8) 0
  buf ← write_bytes grown old_size (le_bytes 2 key_len)
  buf ← write_bytes buf (old_size + 2) (take key_len key)
  buf ← write_bytes buf (old_size + 2 + key_len) (le_bytes 2 value_len)
  buf ← write_bytes buf (old_size + 2 + key_len + 2) (take value_len value)
  write_bytes buf (old_size + 2 + key_len + 2 + value_len) (le_bytes 8 tranc_id)

-- `offsets.push_back(old_size)` casts to uint16_t.
pub add_entry : Block → Bytes → Bytes → ℕ → Bool → Outcome (Bool × Block)
unfolding is_full
add_entry b key value tranc_id force_write =
    if not force_write && is_full b key value then ok (false, b) else do
      bytes ← write_entry b.bytes key value tranc_id
      ok (true, record b { bytes = bytes; offsets = b.offsets ++ (length b.bytes % 2 ^ 16) ∷ [] })

-- data.data() + offset
pub at_offset : Bytes → ℕ → Outcome Bytes
at_offset bytes offset = if ltb (length bytes) offset then fault else ok (drop offset bytes)

pub read_string : Bytes → Outcome (Bytes × Bytes)
read_string rest = do (len, rest) ← read_le 2 rest; read_bytes len rest

pub get_key_at : Block → ℕ → Outcome Bytes
unfolding at_offset read_string
get_key_at b offset = do rest ← at_offset b.bytes offset; (key, rest) ← read_string rest; ok key

-- The key is skipped by its length: only the two length fields are read before the value.
pub skip_string : Bytes → Outcome Bytes
unfolding at_offset
skip_string rest = do (len, rest) ← read_le 2 rest; at_offset rest len

pub get_value_at : Block → ℕ → Outcome Bytes
unfolding at_offset skip_string read_string
get_value_at b offset = do
  rest ← at_offset b.bytes offset
  rest ← skip_string rest
  (value, rest) ← read_string rest
  ok value

-- The result type of this function is uint16_t, so the upper 48 bits of the id are cut off.
pub get_tranc_id_at : Block → ℕ → Outcome ℕ
unfolding at_offset skip_string
get_tranc_id_at b offset = do
  rest ← at_offset b.bytes offset
  rest ← skip_string rest
  rest ← skip_string rest
  (tranc_id, rest) ← read_le 8 rest
  ok (tranc_id % 2 ^ 16)

pub get_entry_at : Block → ℕ → Outcome Entry
unfolding get_key_at get_value_at get_tranc_id_at
get_entry_at b offset = do
  key ← get_key_at b offset
  value ← get_value_at b offset
  tranc_id ← get_tranc_id_at b offset
  ok (record { key = key; value = value; tranc_id = tranc_id })

pub compare_key_at : Block → ℕ → Bytes → Outcome Ordering
unfolding get_key_at
compare_key_at b offset target = do key ← get_key_at b offset; ok (compare_bytes key target)

-- `offsets[idx]`
pub offset_at : Block → ℕ → Outcome ℕ
offset_at b idx = elim (get_elem? b.offsets idx) [ none ↦ fault | some offset ↦ ok offset ]

-- The test lets `idx == offsets.size()` through.
pub get_offset_at : Block → ℕ → Outcome ℕ
unfolding offset_at
get_offset_at b idx = if ltb (length b.offsets) idx then throws else offset_at b idx

pub get_first_key : Block → Outcome Bytes
unfolding read_string
get_first_key b =
    if (length b.bytes == 0) || (length b.offsets == 0)
    then ok []
    else do (key, rest) ← read_string b.bytes; ok key

pub is_same_key : Block → ℕ → Bytes → Outcome Bool
unfolding offset_at get_key_at
is_same_key b idx target_key =
    if leb (length b.offsets) idx
    then ok false
    else do offset ← offset_at b idx; key ← get_key_at b offset; ok (bytes_eq key target_key)
