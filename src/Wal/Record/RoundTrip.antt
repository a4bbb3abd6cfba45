-- ===== src/Wal/Record/RoundTrip.antt =====
-- `decode` reads back what `encode` wrote, for one record and for a whole log file.
use mini_redis.Common.{
  ℕ, zero, suc, ◌≤◌, ◌^◌, ◌<◌, ◌≡◌, refl, ◌∙◌, List, [], ◌∷◌, ◌++◌, append_assoc, arith,
}
use mini_redis.Common.{Outcome, ok, ◌>>=◌, length, length-append, All, le→ltb}
use mini_redis.Common.Keys.{Bytes}
use mini_redis.Common.Bytes.{read_le-append, read_bytes-append}
use mini_redis.Wal.Record.{
  OperationType, create, commit, rollback, put, delete, other, Record, type_byte, operation_of_byte,
}
use mini_redis.Wal.Record.{encode, decode, decode_one, decode_loop, read_field, read_payload}
use mini_redis.Wal.Record.Layout.{
  field, payload, header, layout, HasShape, IsStorable, record_len-bounds, encode-layout,
  length-layout,
}

read_field-field :
    (bs rest : Bytes) → length bs < 2 ^ 16 → read_field (field bs ++ rest) ≡ ok (bs, rest)
unfolding read_field field
read_field-field bs rest h =
    rw (append_assoc, read_le-append 2 (length bs) (bs ++ rest) h, read_bytes-append bs rest) refl

read_payload-payload :
    (op : OperationType) (key value rest : Bytes) (n : ℕ)
    → HasShape op key value n
    → read_payload op (payload op key value ++ rest) ≡ ok (key, value, rest)
unfolding read_payload payload
read_payload-payload put key value rest n h =
    rw
      (
        append_assoc,
        read_field-field key (field value ++ rest) (omega arith),
        read_field-field value rest (omega arith),
      )
      refl
read_payload-payload delete key value rest n (e, f, v) =
    rw (read_field-field key rest (omega arith), v) refl
read_payload-payload create key value rest n (e, k, v) = rw (k, v) refl
read_payload-payload commit key value rest n (e, k, v) = rw (k, v) refl
read_payload-payload rollback key value rest n (e, k, v) = rw (k, v) refl
read_payload-payload (other m) key value rest n h = absurd h

operation_of_byte-type_byte :
    (op : OperationType) (key value : Bytes) (n : ℕ)
    → HasShape op key value n
    → (type_byte op < 256 ^ 1) × (operation_of_byte (type_byte op) ≡ op)
unfolding type_byte operation_of_byte
operation_of_byte-type_byte create key value n h = (omega arith, refl)
operation_of_byte-type_byte commit key value n h = (omega arith, refl)
operation_of_byte-type_byte rollback key value n h = (omega arith, refl)
operation_of_byte-type_byte put key value n h = (omega arith, refl)
operation_of_byte-type_byte delete key value n h = (omega arith, refl)
operation_of_byte-type_byte (other m) key value n h = absurd h

pub decode_one-layout :
    (size : ℕ) (r : Record) (rest : Bytes)
    → IsStorable r
    → r.record_len ≤ size
    → decode_one size (layout r ++ rest) ≡ ok (r, rest)
unfolding decode_one layout header
decode_one-layout size r rest s h =
    let (byte, back) =
      operation_of_byte-type_byte r.operation_type r.key r.value r.record_len s.shape in
    rw
      (
        append_assoc,
        append_assoc,
        append_assoc,
        read_le-append 2 r.record_len _ (record_len-bounds r s).1,
        le→ltb size r.record_len h,
        read_le-append 8 r.tranc_id _ s.id_fits,
        read_le-append 1 (type_byte r.operation_type) _ byte,
        back,
        read_payload-payload r.operation_type r.key r.value rest r.record_len s.shape,
      )
      refl

unfoldable pub layouts : List Record → Bytes
layouts [] = []
layouts (r ∷ rs) = layout r ++ layouts rs

-- The buffers of the records, one behind the other, as `WAL::log` appends them to its file.
unfoldable pub encode_all : List Record → Outcome Bytes
encode_all [] = ok []
encode_all (r ∷ rs) = do front ← encode r; rest ← encode_all rs; ok (front ++ rest)

encode_all-layouts : (rs : List Record) → All IsStorable rs → encode_all rs ≡ ok (layouts rs)
unfolding encode_all layouts
encode_all-layouts [] h = refl
encode_all-layouts (r ∷ rs) (h, hs) = rw (encode-layout r h, encode_all-layouts rs hs) refl

pub decode_loop_step :
    (fuel size : ℕ) (bs : Bytes)
    → 0 < length bs
    → decode_loop (suc fuel) size bs
      ≡ (decode_one size bs >>= λ (r, rest). decode_loop fuel size rest >>= λ rs. ok (r ∷ rs))
unfolding decode_loop
decode_loop_step fuel size [] h = elim h [ ]
decode_loop_step fuel size (b ∷ bs) h = refl

decode_loop-layouts :
    (rs : List Record) (fuel size : ℕ)
    → All IsStorable rs
    → length (layouts rs) ≤ fuel
    → length (layouts rs) ≤ size
    → decode_loop fuel size (layouts rs) ≡ ok rs
unfolding layouts
decode_loop-layouts [] fuel size h f g = unfold decode_loop in refl
decode_loop-layouts (r ∷ rs) zero size (h, hs) f g =
    absurd (
      omega
        (arith, length-append (layout r) (layouts rs), length-layout r h, record_len-bounds r h))
decode_loop-layouts (r ∷ rs) (suc fuel) size (h, hs) f g =
    let len = length-append (layout r) (layouts rs) in
    let own = length-layout r h in
    let low = record_len-bounds r h in
    decode_loop_step fuel size (layout r ++ layouts rs) (omega arith)
    ∙ rw
        (
          decode_one-layout size r (layouts rs) h (omega arith),
          decode_loop-layouts rs fuel size hs (omega arith) (omega arith),
        )
        refl

layouts-long : (r : Record) (rs : List Record) → IsStorable r → 11 ≤ length (layouts (r ∷ rs))
unfolding layouts
layouts-long r rs h =
    omega (arith, length-append (layout r) (layouts rs), length-layout r h, record_len-bounds r h)

pub decode-layouts : (rs : List Record) → All IsStorable rs → decode (layouts rs) ≡ ok rs
unfolding decode
decode-layouts [] h = unfold layouts in refl
decode-layouts (r ∷ rs) h =
    rw (le→ltb (length (layouts (r ∷ rs))) 11 (layouts-long r rs h.0))
      (decode_loop-layouts (r ∷ rs) _ _ h (omega arith) (omega arith))

-- A log file of storable records, each encoded and appended in order, is decoded to the same
-- records: both the encodings and the decoding succeed.
pub decode-encode_all :
    (rs : List Record)
    → All IsStorable rs
    → (bytes : Bytes) × (encode_all rs ≡ ok bytes) × (decode bytes ≡ ok rs)
decode-encode_all rs h = (layouts rs, encode_all-layouts rs h, decode-layouts rs h)
