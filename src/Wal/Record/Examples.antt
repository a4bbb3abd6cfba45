-- ===== src/Wal/Record/Examples.antt =====
-- Concrete records through the encoder and the decoder.
use mini_redis.Common.{ℕ, ◌≡◌, ◌≢◌, refl, [], ◌∷◌, ◌++◌, arith}
use mini_redis.Common.{
  ok, throws, fault, unfinished, ltb, if◌then◌else◌, replicate, length-replicate,
}
use mini_redis.Common.Keys.{Bytes}
use mini_redis.Common.Bytes.{le_bytes}
use mini_redis.Wal.Record.{OperationType, Record, encode, decode, put_record}
use mini_redis.Wal.Record.Layout.{IsStorable, layout}
use mini_redis.Wal.Record.RoundTrip.{encode_all, decode-encode_all}
use mini_redis.Wal.Record.Faults.{decode-ne-unfinished, decode-torn, encode-put_record_fault}

abbrev small_put : Record
small_put = record {
  tranc_id = 7;
  operation_type = OperationType.put;
  key = b'k' ∷ [];
  value = b'v' ∷ b'w' ∷ [];
  record_len = 18;
}

small_put-built : put_record 7 (b'k' ∷ []) (b'v' ∷ b'w' ∷ []) ≡ small_put
unfolding put_record
small_put-built = refl

small_put-IsStorable : IsStorable small_put
small_put-IsStorable = record { id_fits = omega arith; shape = omega arith }

abbrev begin_mark : Record
begin_mark = record {
  tranc_id = 7;
  operation_type = OperationType.create;
  key = [];
  value = [];
  record_len = 11;
}

begin_mark-IsStorable : IsStorable begin_mark
begin_mark-IsStorable = record { id_fits = omega arith; shape = (refl, refl, refl) }

decode-encode_all_example :
    (bytes : Bytes) × (encode_all (begin_mark ∷ small_put ∷ []) ≡ ok bytes)
    × (decode bytes ≡ ok (begin_mark ∷ small_put ∷ []))
decode-encode_all_example =
    decode-encode_all (begin_mark ∷ small_put ∷ [])
      (begin_mark-IsStorable, (small_put-IsStorable, tt))

decode-ne-unfinished_example : decode (replicate 12 255) ≢ unfinished
decode-ne-unfinished_example = decode-ne-unfinished (replicate 12 255)

decode-torn_example :
    decode (layout small_put ++ le_bytes 2 18) ≡ (if ltb 20 18 then throws else fault)
decode-torn_example = decode-torn small_put 18 small_put-IsStorable (omega arith)

-- A value of 65521 bytes under an empty key needs a record of 65536 bytes.
encode-put_record_fault_example : encode (put_record 1 [] (replicate 65521 0)) ≡ fault
encode-put_record_fault_example =
    encode-put_record_fault 1 [] (replicate 65521 0)
      (omega (arith, length-replicate {0} {A = ℕ} 65521 0))
