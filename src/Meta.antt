-- ===== src/Meta.antt =====
-- The metadata of the blocks in a table (src/block/blockmeta.cpp, include/block/blockmeta.h).
-- `std::hash` on the bytes is a parameter; the vector to encode into is empty, as its caller has it.
pub mod RoundTrip
mod Examples
use mini_redis.Common.{
  ℕ, zero, suc, ◌+◌, ◌-◌, ◌%◌, ◌^◌, List, [], ◌∷◌, ◌++◌, Bool, true, false, not,
}
use mini_redis.Common.{
  Outcome, ok, throws, fault, ◌>>=◌, ltb, ◌==◌, if◌then◌else◌, length, replicate, take, drop,
}
use mini_redis.Common.Keys.{Bytes}
use mini_redis.Common.Bytes.{le_bytes, write_bytes, read_le, read_bytes}

pub record BlockMeta : Type 0 where
  pub offset : ℕ
  pub first_key : Bytes
  pub last_key : Bytes

unfoldable pub entry_size : BlockMeta → ℕ
entry_size meta = 4 + 2 + length meta.first_key + 2 + length meta.last_key

unfoldable pub total_size : List BlockMeta → ℕ
unfolding entry_size
total_size [] = 0
total_size (meta ∷ metas) = entry_size meta + total_size metas

-- A key with its length: both are cut off at the 16 bits of the length.
unfoldable pub write_key : Bytes → ℕ → Bytes → Outcome (Bytes × ℕ)
write_key buf ptr key = do
  let key_len = length key % 2 ^ 16
  buf ← write_bytes buf ptr (le_bytes 2 key_len)
  buf ← write_bytes buf (ptr + 2) (take key_len key)
  ok (buf, ptr + 2 + key_len)

unfoldable pub write_meta : Bytes → ℕ → BlockMeta → Outcome (Bytes × ℕ)
unfolding write_key
write_meta buf ptr meta = do
  buf ← write_bytes buf ptr (le_bytes 4 meta.offset)
  (buf, ptr) ← write_key buf (ptr + 4) meta.first_key
  write_key buf ptr meta.last_key

unfoldable pub write_metas : Bytes → ℕ → List BlockMeta → Outcome (Bytes × ℕ)
unfolding write_meta
write_metas buf ptr [] = ok (buf, ptr)
write_metas buf ptr (meta ∷ metas) = do
  (buf, ptr) ← write_meta buf ptr meta
  write_metas buf ptr metas

unfoldable pub read_key : Bytes → Outcome (Bytes × Bytes)
read_key rest = do (key_len, rest) ← read_le 2 rest; read_bytes key_len rest

unfoldable pub read_meta : Bytes → Outcome (BlockMeta × Bytes)
unfolding read_key
read_meta rest = do
  (offset, rest) ← read_le 4 rest
  (first_key, rest) ← read_key rest
  (last_key, rest) ← read_key rest
  ok (record { offset = offset; first_key = first_key; last_key = last_key }, rest)

unfoldable pub read_metas : ℕ → Bytes → Outcome (List BlockMeta × Bytes)
unfolding read_meta
read_metas zero rest = ok ([], rest)
read_metas (suc n) rest = do
  (meta, rest) ← read_meta rest
  (metas, rest) ← read_metas n rest
  ok (meta ∷ metas, rest)

module _ (hash : Bytes → ℕ) where
  -- The hash is taken of all between the number of entries and the end of the last one.
  unfoldable pub encode_meta_to_slice : List BlockMeta → Outcome Bytes
  unfolding write_metas total_size
  encode_meta_to_slice metas = do
    let metadata = replicate (4 + total_size metas + 4) 0
    metadata ← write_bytes metadata 0 (le_bytes 4 (length metas))
    (metadata, ptr) ← write_metas metadata 4 metas
    write_bytes metadata ptr (le_bytes 4 (hash (take (ptr - 4) (drop 4 metadata)) % 2 ^ 32))

  unfoldable pub decode_meta_from_slice : Bytes → Outcome (List BlockMeta)
  unfolding read_metas
  decode_meta_from_slice metadata = if ltb (length metadata) 8 then throws else do
    (num_entries, start) ← read_le 4 metadata
    (metas, rest) ← read_metas num_entries start
    (stored_hash, behind) ← read_le 4 rest
    let computed_hash = hash (take (length start - length rest) start) % 2 ^ 32
    if stored_hash == computed_hash then ok metas else throws
