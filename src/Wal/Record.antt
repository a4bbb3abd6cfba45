-- ===== src/Wal/Record.antt =====
-- Log records and their byte format (src/wal/record.cpp, include/wal/record.h).
-- A buffer is a list of bytes, and the decoder's `pos` is the part of the buffer not read yet.
pub mod Layout
pub mod RoundTrip
pub mod Faults
mod Examples
use mini_redis.Common.{ℕ, zero, suc, ◌+◌, ◌%◌, ◌^◌, ◌<◌, ◌≡◌, List, [], ◌∷◌, ◌++◌}
use mini_redis.Common.{
  Outcome, ok, throws, unfinished, ◌>>=◌, ltb, if◌then◌else◌, length, replicate,
}
use mini_redis.Common.Keys.{Bytes}
use mini_redis.Common.Bytes.{le_bytes, read_bytes, read_le, write_bytes}

-- enum class OperationType; `static_cast` from a byte can also give a value with no enumerator.
pub data OperationType : Type 0 where
  create commit rollback put delete : OperationType
  other : ℕ → OperationType

-- static_cast<uint8_t>(operation_type_)
unfoldable pub type_byte : OperationType → ℕ
type_byte create = 0
type_byte commit = 1
type_byte rollback = 2
type_byte put = 3
type_byte delete = 4
type_byte (other n) = (n + 5) % 256

-- static_cast<OperationType>(op_type)
unfoldable pub operation_of_byte : ℕ → OperationType
operation_of_byte zero = create
operation_of_byte (suc zero) = commit
operation_of_byte (suc (suc zero)) = rollback
operation_of_byte (suc (suc (suc zero))) = put
operation_of_byte (suc (suc (suc (suc zero)))) = delete
operation_of_byte (suc (suc (suc (suc (suc n))))) = other n

pub record Record : Type 0 where
  pub tranc_id : ℕ
  pub operation_type : OperationType
  pub key : Bytes
  pub value : Bytes
  pub record_len : ℕ

-- sizeof(uint16_t) + sizeof(uint64_t) + sizeof(uint8_t)
abbrev pub header_len : ℕ
header_len = 11

marker : ℕ → OperationType → Record
marker tranc_id op = record {
  tranc_id = tranc_id;
  operation_type = op;
  key = [];
  value = [];
  record_len = header_len;
}

unfoldable pub create_record : ℕ → Record
unfolding marker
create_record tranc_id = marker tranc_id create

unfoldable pub commit_record : ℕ → Record
unfolding marker
commit_record tranc_id = marker tranc_id commit

unfoldable pub rollback_record : ℕ → Record
unfolding marker
rollback_record tranc_id = marker tranc_id rollback

-- `record_len_` is a uint16_t.
unfoldable pub put_record : ℕ → Bytes → Bytes → Record
put_record tranc_id key value = record {
  tranc_id = tranc_id;
  operation_type = put;
  key = key;
  value = value;
  record_len = (header_len + 2 + length key + 2 + length value) % 2 ^ 16;
}

unfoldable pub delete_record : ℕ → Bytes → Record
delete_record tranc_id key = record {
  tranc_id = tranc_id;
  operation_type = delete;
  key = key;
  value = [];
  record_len = (header_len + 2 + length key) % 2 ^ 16;
}

-- memcpy of the key's length and of the key, at `key_offset`
write_key : Record → Bytes → Outcome Bytes
write_key r buf = do
  buf ← write_bytes buf header_len (le_bytes 2 (length r.key))
  write_bytes buf (header_len + 2) r.key

write_payload : OperationType → Record → Bytes → Outcome Bytes
unfolding write_key
write_payload put r buf = do
  buf ← write_key r buf
  let value_offset = header_len + 2 + length r.key
  buf ← write_bytes buf value_offset (le_bytes 2 (length r.value))
  write_bytes buf (value_offset + 2) r.value
write_payload delete r buf = write_key r buf
write_payload _ r buf = ok buf

pub encode : Record → Outcome Bytes
encode r = do
  buf ← write_bytes (replicate r.record_len 0) 0 (le_bytes 2 r.record_len)
  buf ← write_bytes buf 2 (le_bytes 8 r.tranc_id)
  buf ← write_bytes buf 10 (le_bytes 1 (type_byte r.operation_type))
  write_payload r.operation_type r buf

-- The length and the bytes of a key or a value.
read_field : Bytes → Outcome (Bytes × Bytes)
read_field rest = do (len, rest) ← read_le 2 rest; read_bytes len rest

read_payload : OperationType → Bytes → Outcome (Bytes × Bytes × Bytes)
unfolding read_field
read_payload put rest = do
  (key, rest) ← read_field rest
  (value, rest) ← read_field rest
  ok (key, value, rest)
read_payload delete rest = do (key, rest) ← read_field rest; ok (key, [], rest)
read_payload _ rest = ok ([], [], rest)

-- One round of the loop in `Record::decode`; `size` is `data.size()`.
pub decode_one : ℕ → Bytes → Outcome (Record × Bytes)
decode_one size rest = do
  (record_len, rest) ← read_le 2 rest
  if ltb size record_len then throws else do
    (tranc_id, rest) ← read_le 8 rest
    (op_type, rest) ← read_le 1 rest
    let op = operation_of_byte op_type
    (key, value, rest) ← read_payload op rest
    ok (
      record {
        tranc_id = tranc_id;
        operation_type = op;
        key = key;
        value = value;
        record_len = record_len;
      },
      rest,
    )

-- while (pos < data.size()); each round that returns takes 11 bytes at least.
pub decode_loop : ℕ → ℕ → Bytes → Outcome (List Record)
decode_loop fuel size [] = ok []
decode_loop zero size (b ∷ rest) = unfinished
decode_loop (suc fuel) size (b ∷ rest) = do
  (r, rest) ← decode_one size (b ∷ rest)
  records ← decode_loop fuel size rest
  ok (r ∷ records)

pub decode : Bytes → Outcome (List Record)
decode bytes =
    if ltb (length bytes) header_len then ok [] else decode_loop (length bytes) (length bytes) bytes
