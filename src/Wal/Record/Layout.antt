-- ===== src/Wal/Record/Layout.antt =====
-- What `encode` writes for a record whose length field is right.
use mathlib.Core.Path.{subst}
use mini_redis.Common.{
  ℕ, ◌+◌, ◌-◌, ◌≤◌, ◌^◌, ◌<◌, ◌≡◌, refl, ap, ◌∙◌, [], ◌++◌, append-nil, append_assoc, arith,
}
use mini_redis.Common.{ok, ◌>>=◌, length, length-append, replicate}
use mini_redis.Common.Keys.{Bytes}
use mini_redis.Common.Bytes.{le_bytes, length-le_bytes, write_bytes, write_next}
use mini_redis.Wal.Record.{
  OperationType, create, commit, rollback, put, delete, other, Record, type_byte,
}
use mini_redis.Wal.Record.{encode, write_payload}

-- A length and the bytes.
unfoldable pub field : Bytes → Bytes
field bs = le_bytes 2 (length bs) ++ bs

unfoldable pub payload : OperationType → Bytes → Bytes → Bytes
payload put key value = field key ++ field value
payload delete key value = field key
payload _ key value = []

unfoldable pub header : Record → Bytes
header r =
    (le_bytes 2 r.record_len ++ le_bytes 8 r.tranc_id) ++ le_bytes 1 (type_byte r.operation_type)

unfoldable pub layout : Record → Bytes
layout r = header r ++ payload r.operation_type r.key r.value

-- The record has a length that fits its 16-bit field, and no field that its operation does not store.
abbrev pub HasShape : OperationType → Bytes → Bytes → ℕ → Type 0
HasShape put key value n = (n ≡ 15 + length key + length value) × (n < 2 ^ 16)
HasShape delete key value n = (n ≡ 13 + length key) × (n < 2 ^ 16) × (value ≡ [])
HasShape (other op) key value n = ⊥
HasShape _ key value n = (n ≡ 11) × (key ≡ []) × (value ≡ [])

abbrev pub IsMarker : OperationType → Type 0
IsMarker put = ⊥
IsMarker delete = ⊥
IsMarker _ = Unit {0}

pub record IsStorable (r : Record) : Type 0 where
  pub id_fits : r.tranc_id < 2 ^ 64
  pub shape : HasShape r.operation_type r.key r.value r.record_len

pub length-header : (r : Record) → length (header r) ≡ 11
unfolding header
length-header r =
    rw (length-append, length-append, length-le_bytes, length-le_bytes, length-le_bytes)

encode-header :
    (r : Record) (m : ℕ)
    → r.record_len ≡ 11 + m
    → encode r ≡ write_payload r.operation_type r (header r ++ replicate m 0)
unfolding encode header
encode-header r m e =
    rw
      (
        write_next [] (le_bytes 2 r.record_len) 0 (9 + m) r.record_len refl
            (omega (arith, length-le_bytes 2 r.record_len)),
        write_next (le_bytes 2 r.record_len) (le_bytes 8 r.tranc_id) 2 (1 + m) (9 + m)
            (length-le_bytes 2 r.record_len) (omega (arith, length-le_bytes 8 r.tranc_id)),
        write_next (le_bytes 2 r.record_len ++ le_bytes 8 r.tranc_id)
            (le_bytes 1 (type_byte r.operation_type)) 10 m (1 + m)
            (rw (length-append, length-le_bytes, length-le_bytes) refl)
            (omega (arith, length-le_bytes 1 (type_byte r.operation_type))),
      )
      refl

write_payload-marker :
    (op : OperationType) (r : Record) (buf : Bytes) → IsMarker op → write_payload op r buf ≡ ok buf
unfolding write_payload
write_payload-marker create r buf h = refl
write_payload-marker commit r buf h = refl
write_payload-marker rollback r buf h = refl
write_payload-marker put r buf h = absurd h
write_payload-marker delete r buf h = absurd h
write_payload-marker (other n) r buf h = refl

-- A field is written behind what is there.
write_field :
    (done bs : Bytes) (off m n : ℕ)
    → length done ≡ off
    → n ≡ 2 + length bs + m
    → (write_bytes (done ++ replicate n 0) off (le_bytes 2 (length bs)) >>= λ buf.
        write_bytes buf (off + 2) bs)
      ≡ ok ((done ++ field bs) ++ replicate m 0)
unfolding field
write_field done bs off m n h e =
    rw
      (
        write_next done (le_bytes 2 (length bs)) off (length bs + m) n h
            (omega (arith, length-le_bytes 2 (length bs))),
        write_next (done ++ le_bytes 2 (length bs)) bs (off + 2) m (length bs + m)
            (omega
              (arith, length-append done (le_bytes 2 (length bs)), length-le_bytes 2 (length bs)))
            refl,
        append_assoc done (le_bytes 2 (length bs)) bs,
      )
      refl

length-field : (bs : Bytes) → length (field bs) ≡ 2 + length bs
unfolding field
length-field bs =
    omega (arith, length-append (le_bytes 2 (length bs)) bs, length-le_bytes 2 (length bs))

write_payload-payload :
    (op : OperationType) (r : Record) (m : ℕ)
    → HasShape op r.key r.value (11 + m)
    → write_payload op r (header r ++ replicate m 0) ≡ ok (header r ++ payload op r.key r.value)
unfolding write_payload payload
write_payload-payload put r m (e, f) =
    rw
      (
        write_field (header r) r.key 11 (2 + length r.value) m (length-header r) (omega arith),
        write_field (header r ++ field r.key) r.value (13 + length r.key) 0 (2 + length r.value)
            (omega
              (arith, length-append (header r) (field r.key), length-header r, length-field r.key))
            (omega arith),
      )
      (ap ok (append-nil _ ∙ append_assoc (header r) (field r.key) (field r.value)))
write_payload-payload delete r m (e, f, v) =
    rw (write_field (header r) r.key 11 0 m (length-header r) (omega arith)) (ap ok (append-nil _))
write_payload-payload create r m (e, k, v) = let z : m ≡ 0 = omega arith in rw z refl
write_payload-payload commit r m (e, k, v) = let z : m ≡ 0 = omega arith in rw z refl
write_payload-payload rollback r m (e, k, v) = let z : m ≡ 0 = omega arith in rw z refl
write_payload-payload (other n) r m h = absurd h

HasShape-ge :
    (op : OperationType) (key value : Bytes) (n : ℕ)
    → HasShape op key value n
    → (11 ≤ n) × (n < 2 ^ 16)
HasShape-ge put key value n h = omega arith
HasShape-ge delete key value n h = omega arith
HasShape-ge create key value n h = omega arith
HasShape-ge commit key value n h = omega arith
HasShape-ge rollback key value n h = omega arith
HasShape-ge (other m) key value n h = absurd h

pub record_len-bounds : (r : Record) → IsStorable r → (11 ≤ r.record_len) × (r.record_len < 2 ^ 16)
record_len-bounds r s = HasShape-ge r.operation_type r.key r.value r.record_len s.shape

-- The buffer that `encode` fills is exactly the layout of the record.
pub encode-layout : (r : Record) → IsStorable r → encode r ≡ ok (layout r)
unfolding layout
encode-layout r s =
    let m = r.record_len - 11 in
    let e : r.record_len ≡ 11 + m = omega (arith, record_len-bounds r s) in
    encode-header r m e
    ∙ write_payload-payload r.operation_type r m
        (subst (λ n. HasShape r.operation_type r.key r.value n) e s.shape)

length-payload :
    (op : OperationType) (key value : Bytes) (n : ℕ)
    → HasShape op key value n
    → 11 + length (payload op key value) ≡ n
unfolding payload
length-payload put key value n h =
    omega (arith, length-append (field key) (field value), length-field key, length-field value)
length-payload delete key value n h = omega (arith, length-field key)
length-payload create key value n h = omega arith
length-payload commit key value n h = omega arith
length-payload rollback key value n h = omega arith
length-payload (other m) key value n h = absurd h

-- The length field tells the size of the layout.
pub length-layout : (r : Record) → IsStorable r → length (layout r) ≡ r.record_len
unfolding layout
length-layout r s = omega (
  arith,
  length-append (header r) (payload r.operation_type r.key r.value),
  length-header r,
  length-payload r.operation_type r.key r.value r.record_len s.shape,
)
