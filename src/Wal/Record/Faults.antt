-- ===== src/Wal/Record/Faults.antt =====
-- Inputs on which `encode` and `decode` write or read outside their buffers, and the end of the loop.
use mini_redis.Common.{
  ℕ, zero, suc, ◌+◌, ◌%◌, ◌≤◌, ◌^◌, ◌<◌, ◌≡◌, ◌≢◌, refl, ◌∙◌, inl, inr, [], ◌∷◌, ◌++◌, append-nil,
  arith,
}
use mini_redis.Common.{
  Outcome, ok, throws, fault, unfinished, ◌>>=◌, >>=-eq-ok, >>=-ne-unfinished, guard-eq-ok,
  guard-ne-unfinished, Outcome-cases, le→ltb, ltb, if◌then◌else◌, length, length-append, replicate,
  length-replicate,
}
use mini_redis.Common.Keys.{Bytes}
use mini_redis.Common.Bytes.{
  read_le, read_bytes, length-read_bytes, length-read_le, read_le-append, le_bytes, length-le_bytes,
  write_bytes, write_bytes_overflow, write_bytes-cases, write_bytes-bind_fault,
}
use mini_redis.Wal.Record.{
  OperationType, create, commit, rollback, put, delete, other, Record, operation_of_byte,
}
use mini_redis.Wal.Record.{
  write_payload, write_key, header_len, encode, decode, decode_one, decode_loop, read_field,
  read_payload, put_record,
}
use mini_redis.Wal.Record.Layout.{IsStorable, layout, record_len-bounds, length-layout}
use mini_redis.Wal.Record.RoundTrip.{decode_loop_step, decode_one-layout}

length-read_field :
    (bs field rest : Bytes) → read_field bs ≡ ok (field, rest) → length rest ≤ length bs
unfolding read_field
length-read_field bs field rest h =
    let ((n, bs'), e, f) = >>=-eq-ok (read_le 2 bs) _ h in
    omega (arith, length-read_le 2 bs n bs' e, (length-read_bytes n bs' field rest f).0)

length-read_payload :
    (op : OperationType) (bs key value rest : Bytes)
    → read_payload op bs ≡ ok (key, value, rest)
    → length rest ≤ length bs
unfolding read_payload
length-read_payload put bs key value rest h =
    let ((k, bs'), e, f) = >>=-eq-ok (read_field bs) _ h in
    let ((v, bs''), e', f') = >>=-eq-ok (read_field bs') _ f in
    ground (arith, length-read_field bs k bs' e, length-read_field bs' v bs'' e', f')
length-read_payload delete bs key value rest h =
    let ((k, bs'), e, f) = >>=-eq-ok (read_field bs) _ h in
    ground (arith, length-read_field bs k bs' e, f)
length-read_payload create bs key value rest h = ground (arith, h)
length-read_payload commit bs key value rest h = ground (arith, h)
length-read_payload rollback bs key value rest h = ground (arith, h)
length-read_payload (other n) bs key value rest h = ground (arith, h)

-- A round that returns has taken the 11 bytes of a header at least.
decode_one-shorter :
    (size : ℕ) (bs : Bytes) (r : Record) (rest : Bytes)
    → decode_one size bs ≡ ok (r, rest)
    → 11 + length rest ≤ length bs
unfolding decode_one
decode_one-shorter size bs r rest h =
    let ((n, b1), e1, f1) = >>=-eq-ok (read_le 2 bs) _ h in
    let ((t, b2), e2, f2) = >>=-eq-ok (read_le 8 b1) _ (guard-eq-ok (ltb size n) _ f1) in
    let ((o, b3), e3, f3) = >>=-eq-ok (read_le 1 b2) _ f2 in
    let ((k, v, b4), e4, f4) = >>=-eq-ok (read_payload (operation_of_byte o) b3) _ f3 in
    ground (
      arith,
      length-read_le 2 bs n b1 e1,
      length-read_le 8 b1 t b2 e2,
      length-read_le 1 b2 o b3 e3,
      length-read_payload (operation_of_byte o) b3 k v b4 e4,
      f4,
    )

read_bytes-ne-unfinished : (n : ℕ) (bs : Bytes) → read_bytes n bs ≢ unfinished
unfolding read_bytes
read_bytes-ne-unfinished zero bs e = cc
read_bytes-ne-unfinished (suc n) [] e = cc
read_bytes-ne-unfinished (suc n) (b ∷ bs) e =
    >>=-ne-unfinished (read_bytes n bs) _ (read_bytes-ne-unfinished n bs) (λ p q. cc) e

read_le-ne-unfinished : (n : ℕ) (bs : Bytes) → read_le n bs ≢ unfinished
unfolding read_le
read_le-ne-unfinished n bs =
    >>=-ne-unfinished (read_bytes n bs) _ (read_bytes-ne-unfinished n bs) (λ p q. cc)

read_field-ne-unfinished : (bs : Bytes) → read_field bs ≢ unfinished
unfolding read_field
read_field-ne-unfinished bs =
    >>=-ne-unfinished (read_le 2 bs) _ (read_le-ne-unfinished 2 bs)
      (λ (n, bs'). read_bytes-ne-unfinished n bs')

read_payload-ne-unfinished : (op : OperationType) (bs : Bytes) → read_payload op bs ≢ unfinished
unfolding read_payload
read_payload-ne-unfinished put bs e =
    >>=-ne-unfinished (read_field bs) _ (read_field-ne-unfinished bs)
      (λ (k, bs'). >>=-ne-unfinished (read_field bs') _ (read_field-ne-unfinished bs') (λ p q. cc))
      e
read_payload-ne-unfinished delete bs e =
    >>=-ne-unfinished (read_field bs) _ (read_field-ne-unfinished bs) (λ p q. cc) e
read_payload-ne-unfinished create bs e = cc
read_payload-ne-unfinished commit bs e = cc
read_payload-ne-unfinished rollback bs e = cc
read_payload-ne-unfinished (other n) bs e = cc

decode_one-ne-unfinished : (size : ℕ) (bs : Bytes) → decode_one size bs ≢ unfinished
unfolding decode_one
decode_one-ne-unfinished size bs =
    >>=-ne-unfinished (read_le 2 bs) _ (read_le-ne-unfinished 2 bs) (λ (n, b1).
      guard-ne-unfinished (ltb size n) _ (
        >>=-ne-unfinished (read_le 8 b1) _ (read_le-ne-unfinished 8 b1) (λ (t, b2).
          >>=-ne-unfinished (read_le 1 b2) _ (read_le-ne-unfinished 1 b2) (λ (o, b3).
            >>=-ne-unfinished (read_payload (operation_of_byte o) b3) _
              (read_payload-ne-unfinished (operation_of_byte o) b3) (λ p q. cc)))))

decode_loop-ne-unfinished :
    (fuel size : ℕ) (bs : Bytes) → length bs ≤ fuel → decode_loop fuel size bs ≢ unfinished
unfolding decode_loop
decode_loop-ne-unfinished fuel size [] h e = cc
decode_loop-ne-unfinished zero size (b ∷ bs) h e = absurd (omega arith)
decode_loop-ne-unfinished (suc fuel) size (b ∷ bs) h e =
    elim (Outcome-cases (decode_one size (b ∷ bs))) [
      | inl ((r, rest), d) ↦
          >>=-ne-unfinished (decode_loop fuel size rest) _
            (decode_loop-ne-unfinished fuel size rest
              (omega (arith, decode_one-shorter size (b ∷ bs) r rest d)))
            (λ p q. cc) (rw d at e)
      | inr d ↦ ground (arith, d, decode_one-ne-unfinished size (b ∷ bs))
    ]

-- `decode` comes to an end on every input: it returns, throws, or reads outside the buffer.
pub decode-ne-unfinished : (bytes : Bytes) → decode bytes ≢ unfinished
unfolding decode
decode-ne-unfinished bytes =
    ground (arith, decode_loop-ne-unfinished (length bytes) (length bytes) bytes (omega arith))

-- The two writes of a value run past a buffer that is too short for the whole record.
write_value_fault :
    (buf key value : Bytes)
    → length buf < 15 + length key + length value
    → (write_bytes buf (13 + length key) (le_bytes 2 (length value)) >>= λ b.
        write_bytes b (13 + length key + 2) value)
      ≡ fault
write_value_fault buf key [] h =
    rw
      (write_bytes_overflow buf (13 + length key) (le_bytes 2 0)
        (omega (arith, length-le_bytes 2 0)) (omega (arith, length-le_bytes 2 0)))
      refl
write_value_fault buf key (v ∷ value) h =
    write_bytes-bind_fault buf (13 + length key) _ _
      (λ b l. write_bytes_overflow b (13 + length key + 2) (v ∷ value) (omega arith) (omega arith))

write_key-bind_fault :
    (r : Record) (buf : Bytes) (f : Bytes → Outcome Bytes)
    → ((b : Bytes) → length b ≡ length buf → f b ≡ fault)
    → (write_key r buf >>= f) ≡ fault
unfolding write_key
write_key-bind_fault r buf f h =
    elim (write_bytes-cases buf header_len (le_bytes 2 (length r.key))) [
      | inl e ↦ rw e refl
      | inr (b, e, l) ↦
          rw e (write_bytes-bind_fault b (header_len + 2) r.key f (λ b' l'. h b' (omega arith)))
    ]

-- A put whose record needs 65536 bytes or more overruns the buffer that `encode` allocates for it,
-- since the length that is stored, and allocated, is the needed one modulo 65536.
pub encode-put_record_fault :
    (tranc_id : ℕ) (key value : Bytes)
    → 2 ^ 16 ≤ 15 + length key + length value
    → encode (put_record tranc_id key value) ≡ fault
unfolding encode put_record write_payload write_key
encode-put_record_fault t key value h =
    let n = (header_len + 2 + length key + 2 + length value) % 2 ^ 16 in
    write_bytes-bind_fault (replicate n 0) 0 _ _ (λ b1 l1. write_bytes-bind_fault b1 2 _ _ (λ b2 l2.
      write_bytes-bind_fault b2 10 _ _ (λ b3 l3.
        write_key-bind_fault (put_record t key value) b3 _
          (λ b4 l4. write_value_fault b4 key value (omega (arith, length-replicate n zero))))))

torn_round :
    (size n : ℕ)
    → n < 2 ^ 16
    → decode_one size (le_bytes 2 n) ≡ (if ltb size n then throws else fault)
unfolding decode_one read_le read_bytes
torn_round size n h = rw (← append-nil (le_bytes 2 n), read_le-append 2 n [] h) refl

torn_loop :
    (fuel size : ℕ) (r : Record) (n : ℕ)
    → IsStorable r
    → n < 2 ^ 16
    → r.record_len ≤ size
    → decode_loop (suc (suc fuel)) size (layout r ++ le_bytes 2 n)
      ≡ (if ltb size n then throws else fault)
torn_loop fuel size r n s h g =
    decode_loop_step (suc fuel) size (layout r ++ le_bytes 2 n) (
      omega
        (arith, length-append (layout r) (le_bytes 2 n), length-layout r s, record_len-bounds r s))
    ∙ rw
        (
          decode_one-layout size r (le_bytes 2 n) s g,
          decode_loop_step fuel size (le_bytes 2 n) (omega (arith, length-le_bytes 2 n)),
          torn_round size n h,
        )
        (ground arith)

fuel_enough : (n : ℕ) → n + 2 ≡ suc (suc n)
fuel_enough n = omega arith

-- A file of exactly one storable record, complete, and the two bytes of a length after it: decoding
-- throws where that length is above the size of the whole file, and else reads past the end of the
-- file, since the test in `decode` is against the whole size, not against what is left.
pub decode-torn :
    (r : Record) (n : ℕ)
    → IsStorable r
    → n < 2 ^ 16
    → decode (layout r ++ le_bytes 2 n) ≡ (if ltb (r.record_len + 2) n then throws else fault)
unfolding decode
decode-torn r n s h =
    rw (torn_size, le→ltb (r.record_len + 2) 11 (omega (arith, record_len-bounds r s)))
      (rw (fuel_enough r.record_len)
        (torn_loop r.record_len (suc (suc r.record_len)) r n s h (omega arith)))
  where
    torn_size : length (layout r ++ le_bytes 2 n) ≡ r.record_len + 2
    torn_size =
        omega
          (arith, length-append (layout r) (le_bytes 2 n), length-layout r s, length-le_bytes 2 n)
