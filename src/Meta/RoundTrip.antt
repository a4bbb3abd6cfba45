-- ===== src/Meta/RoundTrip.antt =====
-- `decode_meta_from_slice` reads back what `encode_meta_to_slice` wrote.
use mini_redis.Common.{
  ℕ, ◌+◌, ◌-◌, ◌%◌, ◌^◌, ◌<◌, ◌≡◌, refl, sym, ap, ◌∙◌, List, [], ◌∷◌, ◌++◌, append_assoc,
  append-nil, arith,
}
use mini_redis.Common.{
  Outcome, ok, le→ltb, length, length-append, replicate, take, drop, take_all, take_front,
  drop-append, All,
}
use native.Mathlib.Nat.{mod-eq_of_lt}
use mini_redis.Common.Keys.{Bytes}
use mini_redis.Common.Bytes.{
  le_bytes, length-le_bytes, write_next, read_le-append, read_le_end, read_bytes-append,
}
use mini_redis.Meta.{
  BlockMeta, entry_size, total_size, write_key, write_meta, write_metas, read_key, read_meta,
  read_metas, encode_meta_to_slice, decode_meta_from_slice,
}

-- What the fields of an entry can hold.
pub record FitsEntry (meta : BlockMeta) : Type 0 where
  pub offset : meta.offset < 2 ^ 32
  pub first : length meta.first_key < 2 ^ 16
  pub last : length meta.last_key < 2 ^ 16

abbrev key_image : Bytes → Bytes
key_image key = le_bytes 2 (length key) ++ key

abbrev meta_image : BlockMeta → Bytes
meta_image meta = le_bytes 4 meta.offset ++ (key_image meta.first_key ++ key_image meta.last_key)

abbrev metas_image : List BlockMeta → Bytes
metas_image [] = []
metas_image (meta ∷ metas) = meta_image meta ++ metas_image metas

abbrev written_to : Bytes → ℕ → Outcome (Bytes × ℕ)
written_to buf ptr = ok (buf, ptr)

ok_pair : {a b : Bytes} {x y : ℕ} → a ≡ b → x ≡ y → written_to a x ≡ written_to b y
ok_pair h k = cc

length-key_image : (key : Bytes) → length (key_image key) ≡ 2 + length key
length-key_image key =
    omega (arith, length-append (le_bytes 2 (length key)) key, length-le_bytes 2 (length key))

write_key-image :
    (done key : Bytes) (ptr m n : ℕ)
    → length done ≡ ptr
    → n ≡ 2 + length key + m
    → length key < 2 ^ 16
    → write_key (done ++ replicate n 0) ptr key
      ≡ ok ((done ++ key_image key) ++ replicate m 0, ptr + 2 + length key)
unfolding write_key
write_key-image done key ptr m n h e l =
    rw
      (
        mod-eq_of_lt l,
        take_all key,
        write_next done (le_bytes 2 (length key)) ptr (length key + m) n h
            (omega (arith, length-le_bytes 2 (length key))),
        write_next (done ++ le_bytes 2 (length key)) key (ptr + 2) m (length key + m)
            (omega
              (arith, length-append done (le_bytes 2 (length key)), length-le_bytes 2 (length key)))
            refl,
        append_assoc done (le_bytes 2 (length key)) key,
      )
      refl

length-meta_image : (meta : BlockMeta) → length (meta_image meta) ≡ entry_size meta
unfolding entry_size
length-meta_image meta = omega (
  arith,
  length-append (le_bytes 4 meta.offset) (key_image meta.first_key ++ key_image meta.last_key),
  length-append (key_image meta.first_key) (key_image meta.last_key),
  length-key_image meta.first_key,
  length-key_image meta.last_key,
  length-le_bytes 4 meta.offset,
)

write_meta-image :
    (done : Bytes) (meta : BlockMeta) (ptr m n : ℕ)
    → length done ≡ ptr
    → n ≡ entry_size meta + m
    → FitsEntry meta
    → write_meta (done ++ replicate n 0) ptr meta
      ≡ ok ((done ++ meta_image meta) ++ replicate m 0, ptr + entry_size meta)
unfolding write_meta entry_size
write_meta-image done meta ptr m n h e f =
    let o = le_bytes 4 meta.offset in
    let a = length meta.first_key in
    let b = length meta.last_key in
    rw
      (
        write_next done o ptr (2 + a + (2 + b + m)) n h
            (omega (arith, length-le_bytes 4 meta.offset)),
        write_key-image (done ++ o) meta.first_key (ptr + 4) (2 + b + m) (2 + a + (2 + b + m))
            (omega (arith, length-append done o, length-le_bytes 4 meta.offset)) refl f.first,
        write_key-image ((done ++ o) ++ key_image meta.first_key) meta.last_key (ptr + 4 + 2 + a) m
            (2 + b + m)
            (omega (
              arith,
              length-append done o,
              length-append (done ++ o) (key_image meta.first_key),
              length-key_image meta.first_key,
              length-le_bytes 4 meta.offset,
            ))
            refl f.last,
      )
      (ok_pair
        (ap (λ t. t ++ replicate m 0)
          (append_assoc (done ++ o) (key_image meta.first_key) (key_image meta.last_key)
            ∙ append_assoc done o (key_image meta.first_key ++ key_image meta.last_key)))
        (omega arith))

write_metas-image :
    (done : Bytes) (metas : List BlockMeta) (ptr m n : ℕ)
    → length done ≡ ptr
    → n ≡ total_size metas + m
    → All FitsEntry metas
    → write_metas (done ++ replicate n 0) ptr metas
      ≡ ok ((done ++ metas_image metas) ++ replicate m 0, ptr + total_size metas)
unfolding write_metas total_size
write_metas-image done [] ptr m n h e f =
    ok_pair
      (ap (λ t. done ++ replicate t 0) (omega arith)
        ∙ ap (λ t. t ++ replicate m 0) (sym (append-nil done)))
      (omega arith)
write_metas-image done (meta ∷ metas) ptr m n h e (f, fs) =
    rw
      (
        write_meta-image done meta ptr (total_size metas + m) n h (omega arith) f,
        write_metas-image (done ++ meta_image meta) metas (ptr + entry_size meta) m
            (total_size metas + m)
            (omega (arith, length-append done (meta_image meta), length-meta_image meta)) refl fs,
      )
      (ok_pair
        (ap (λ t. t ++ replicate m 0) (append_assoc done (meta_image meta) (metas_image metas)))
        (omega arith))

read_key-image :
    (key rest : Bytes) → length key < 2 ^ 16 → read_key (key_image key ++ rest) ≡ ok (key, rest)
unfolding read_key
read_key-image key rest l =
    rw
      (
        append_assoc (le_bytes 2 (length key)) key rest,
        read_le-append 2 (length key) (key ++ rest) l,
        read_bytes-append key rest,
      )
      refl

read_meta-image :
    (meta : BlockMeta) (rest : Bytes)
    → FitsEntry meta
    → read_meta (meta_image meta ++ rest) ≡ ok (meta, rest)
unfolding read_meta
read_meta-image meta rest f =
    rw
      (
        append_assoc (le_bytes 4 meta.offset) (key_image meta.first_key ++ key_image meta.last_key)
            rest,
        append_assoc (key_image meta.first_key) (key_image meta.last_key) rest,
        read_le-append 4 meta.offset (key_image meta.first_key ++ (key_image meta.last_key ++ rest))
            f.offset,
        read_key-image meta.first_key (key_image meta.last_key ++ rest) f.first,
        read_key-image meta.last_key rest f.last,
      )
      refl

read_metas-image :
    (metas : List BlockMeta) (rest : Bytes)
    → All FitsEntry metas
    → read_metas (length metas) (metas_image metas ++ rest) ≡ ok (metas, rest)
unfolding read_metas
read_metas-image [] rest f = refl
read_metas-image (meta ∷ metas) rest (f, fs) =
    rw
      (
        append_assoc (meta_image meta) (metas_image metas) rest,
        read_meta-image meta (metas_image metas ++ rest) f,
        read_metas-image metas rest fs,
      )
      refl

length-metas_image : (metas : List BlockMeta) → length (metas_image metas) ≡ total_size metas
unfolding total_size
length-metas_image [] = refl
length-metas_image (meta ∷ metas) = omega (
  arith,
  length-append (meta_image meta) (metas_image metas),
  length-meta_image meta,
  length-metas_image metas,
)

-- The part of a buffer behind its first four bytes and before its end.
slice :
    (n : ℕ) (a xs zs : Bytes)
    → length a ≡ 4
    → length xs ≡ n
    → take (4 + n - 4) (drop 4 ((a ++ xs) ++ zs)) ≡ xs
slice n a xs zs h k =
    let behind : drop 4 ((a ++ xs) ++ zs) ≡ xs ++ zs =
      ap (drop 4) (append_assoc a xs zs)
      ∙ ap (λ t. drop t (a ++ (xs ++ zs))) (sym h)
      ∙ drop-append a (xs ++ zs) in
    let size : 4 + n - 4 ≡ n = omega arith in rw (behind, size) (take_front n xs zs k)

module _ (hash : Bytes → ℕ) where
  abbrev slice_image : List BlockMeta → Bytes
  slice_image metas =
      le_bytes 4 (length metas)
      ++ (metas_image metas ++ le_bytes 4 (hash (metas_image metas) % 2 ^ 32))

  encode_meta_to_slice-image :
      (metas : List BlockMeta)
      → All FitsEntry metas
      → encode_meta_to_slice hash metas ≡ ok (slice_image metas)
  unfolding encode_meta_to_slice
  encode_meta_to_slice-image metas f =
      let n = le_bytes 4 (length metas) in
      let x = metas_image metas in
      let t = total_size metas in
      rw
        (
          write_next [] n 0 (t + 4) (4 + t + 4) refl
              (omega (arith, length-le_bytes 4 (length metas))),
          write_metas-image n metas 4 4 (t + 4) (length-le_bytes 4 (length metas)) refl f,
          slice t n x (replicate 4 0) (length-le_bytes 4 (length metas)) (length-metas_image metas),
          write_next (n ++ x) (le_bytes 4 (hash x % 2 ^ 32)) (4 + t) 0 4
              (omega (
                arith,
                length-append n x,
                length-le_bytes 4 (length metas),
                length-metas_image metas,
              ))
              (omega (arith, length-le_bytes 4 (hash x % 2 ^ 32))),
        )
        (ap ok (append-nil _ ∙ append_assoc n x (le_bytes 4 (hash x % 2 ^ 32))))

  decode_meta_from_slice-image :
      (metas : List BlockMeta)
      → All FitsEntry metas
      → length metas < 2 ^ 32
      → decode_meta_from_slice hash (slice_image metas) ≡ ok metas
  unfolding decode_meta_from_slice
  decode_meta_from_slice-image metas f l =
      let n = le_bytes 4 (length metas) in
      let x = metas_image metas in
      let h = le_bytes 4 (hash x % 2 ^ 32) in
      let lh = length-le_bytes 4 (hash x % 2 ^ 32) in
      let body : take (length (x ++ h) - length h) (x ++ h) ≡ x =
        take_front (length (x ++ h) - length h) x h (omega (arith, length-append x h)) in
      rw
        (
          le→ltb (length (n ++ (x ++ h))) 8 (
              omega (
                arith,
                length-append n (x ++ h),
                length-append x h,
                lh,
                length-le_bytes 4 (length metas),
              )),
          read_le-append 4 (length metas) (x ++ h) l,
          read_metas-image metas h f,
          read_le_end 4 (hash x % 2 ^ 32) (omega arith),
          body,
        )
        (ground arith)

  -- The metadata of blocks whose offsets fit 32 bits and whose keys fit the 16 bits of their
  -- lengths is encoded without a fault and read back, whatever the hash function.
  pub decode_meta_from_slice-encode :
      (metas : List BlockMeta)
      → All FitsEntry metas
      → length metas < 2 ^ 32
      → (metadata : Bytes) × (encode_meta_to_slice hash metas ≡ ok metadata)
        × (decode_meta_from_slice hash metadata ≡ ok metas)
  decode_meta_from_slice-encode metas f l = (
    slice_image metas,
    encode_meta_to_slice-image metas f,
    decode_meta_from_slice-image metas f l,
  )
