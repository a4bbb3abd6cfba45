-- ===== src/Block/Codec.antt =====
-- The encoding of a whole block, with or without the hash behind it (`Block::encode`, `Block::decode`).
-- `std::hash` of the bytes is the parameter `hash`, a size_t.
use native.Mathlib.Nat.{mod-eq_of_lt}
use mini_redis.Common.{
  ℕ, zero, suc, ◌+◌, ◌-◌, ◌*◌, ◌%◌, ◌^◌, ◌<◌, ◌≡◌, refl, ap, List, [], ◌∷◌, ◌++◌, append-nil,
  append_assoc, Bool, true, false, not, arith,
}
use mini_redis.Common.{
  Outcome, ok, throws, fault, ◌>>=◌, ltb, le→ltb, ◌==◌, if◌then◌else◌, length, length-append, take,
  take_front, drop-append, replicate, All,
}
use mini_redis.Common.Keys.{Bytes}
use mini_redis.Common.Bytes.{
  le_bytes, length-le_bytes, read_le, read_le-append, read_le_end, write_bytes, write_next,
}
use mini_redis.Block.{Block, at_offset}

-- The memory of a `std::vector<uint16_t>`.
unfoldable pub u16_bytes : List ℕ → Bytes
u16_bytes [] = []
u16_bytes (x ∷ xs) = le_bytes 2 x ++ u16_bytes xs

pub encode : Block → Outcome Bytes
encode b = do
  let total_bytes = length b.bytes + length b.offsets * 2 + 2
  buf ← write_bytes (replicate total_bytes 0) 0 b.bytes
  let offset_pos = length b.bytes
  buf ← write_bytes buf offset_pos (u16_bytes b.offsets)
  let num_pos = length b.bytes + length b.offsets * 2
  write_bytes buf num_pos (le_bytes 2 (length b.offsets % 2 ^ 16))

-- memcpy of `n` offsets out of the buffer
read_u16s : ℕ → Bytes → Outcome (List ℕ)
read_u16s zero rest = ok []
read_u16s (suc n) rest = do (x, rest) ← read_le 2 rest; xs ← read_u16s n rest; ok (x ∷ xs)

module _ (hash : Bytes → ℕ) where
  -- The hash is the last four bytes. Where the buffer is shorter, the position wraps around.
  check_hash : Bytes → Outcome ℕ
  unfolding at_offset
  check_hash encoded = if ltb (length encoded) 4 then fault else do
    rest ← at_offset encoded (length encoded - 4)
    (hash_value, rest) ← read_le 4 rest
    if not (hash_value == hash (take (length encoded - 4) encoded) % 2 ^ 32)
        then throws
        else if ltb (length encoded) 6
        then fault
        else ok (length encoded - 6)

  elements_pos : Bytes → Bool → Outcome ℕ
  unfolding check_hash
  elements_pos encoded true = check_hash encoded
  elements_pos encoded false = ok (length encoded - 2)

  -- The block that `make_shared<Block>()` makes has capacity 0.
  pub decode : Bytes → Bool → Outcome Block
  unfolding elements_pos at_offset
  decode encoded with_hash = if ltb (length encoded) 2 then throws else do
    num_elements_pos ← elements_pos encoded with_hash
    rest ← at_offset encoded num_elements_pos
    (num_elements, rest) ← read_le 2 rest
    if ltb (length encoded) (2 + num_elements * 2)
        then throws
        else if ltb num_elements_pos (num_elements * 2)
        then fault
        else do
          let offsets_section_start = num_elements_pos - num_elements * 2
          rest ← at_offset encoded offsets_section_start
          offsets ← read_u16s num_elements rest
          ok (record {
            bytes = take offsets_section_start encoded;
            offsets = offsets;
            capacity = 0;
          })

  -- What follows the block in an SST file (`SSTBuilder::finish_block`).
  unfoldable pub with_block_hash : Bytes → Bytes
  with_block_hash encoded = encoded ++ le_bytes 4 (hash encoded % 2 ^ 32)

length-u16_bytes : (xs : List ℕ) → length (u16_bytes xs) ≡ length xs * 2
unfolding u16_bytes
length-u16_bytes [] = refl
length-u16_bytes (x ∷ xs) =
    omega
      (arith, length-append (le_bytes 2 x) (u16_bytes xs), length-le_bytes 2 x, length-u16_bytes xs)

-- The counts and the offsets fit their 16 bits.
pub record IsEncodable (b : Block) : Type 0 where
  pub offsets_fit : All (λ x. x < 2 ^ 16) b.offsets
  pub count_fits : length b.offsets < 2 ^ 16

-- Data, offsets, count.
unfoldable pub image : Block → Bytes
image b = (b.bytes ++ u16_bytes b.offsets) ++ le_bytes 2 (length b.offsets)

pub encode-image : (b : Block) → IsEncodable b → encode b ≡ ok (image b)
unfolding encode image
encode-image b h =
    let n = length b.offsets in
    rw
      (
        write_next [] b.bytes 0 (n * 2 + 2) (length b.bytes + n * 2 + 2) refl (omega arith),
        write_next b.bytes (u16_bytes b.offsets) (length b.bytes) 2 (n * 2 + 2) refl
            (omega (arith, length-u16_bytes b.offsets)),
        mod-eq_of_lt h.count_fits,
        write_next (b.bytes ++ u16_bytes b.offsets) (le_bytes 2 n) (length b.bytes + n * 2) 0 2
            (omega (arith, length-append b.bytes (u16_bytes b.offsets), length-u16_bytes b.offsets))
            (omega (arith, length-le_bytes 2 n)),
      )
      (ap ok (append-nil _))

length-image : (b : Block) → length (image b) ≡ length b.bytes + length b.offsets * 2 + 2
unfolding image
length-image b = omega (
  arith,
  length-append (b.bytes ++ u16_bytes b.offsets) (le_bytes 2 (length b.offsets)),
  length-append b.bytes (u16_bytes b.offsets),
  length-u16_bytes b.offsets,
  length-le_bytes 2 (length b.offsets),
)

read_u16s-u16_bytes :
    (xs : List ℕ) (rest : Bytes)
    → All (λ x. x < 2 ^ 16) xs
    → read_u16s (length xs) (u16_bytes xs ++ rest) ≡ ok xs
unfolding read_u16s u16_bytes
read_u16s-u16_bytes [] rest h = refl
read_u16s-u16_bytes (x ∷ xs) rest (h, hs) =
    rw (append_assoc, read_le-append 2 x (u16_bytes xs ++ rest) h, read_u16s-u16_bytes xs rest hs)
      refl

at_offset-append :
    (front back : Bytes) (n : ℕ) → length front ≡ n → at_offset (front ++ back) n ≡ ok back
unfolding at_offset
at_offset-append front back n h =
    rw
      (
        ← h,
        le→ltb (length (front ++ back)) (length front) (omega (arith, length-append front back)),
        drop-append,
      )
      refl

-- What a decoder gives back for `b`: the same data and offsets, and capacity 0.
abbrev pub reopened : Block → Block
reopened b = record b { capacity = 0 }

-- The part of `decode` behind the position of the count, on an image followed by `tail`.
module _ (b : Block) (h : IsEncodable b) (tail : Bytes) where
  seek_count :
      at_offset (image b ++ tail) (length b.bytes + length b.offsets * 2)
      ≡ ok (le_bytes 2 (length b.offsets) ++ tail)
  unfolding image
  seek_count = rw append_assoc (
      at_offset-append (b.bytes ++ u16_bytes b.offsets) (le_bytes 2 (length b.offsets) ++ tail)
        (length b.bytes + length b.offsets * 2)
        (omega (arith, length-append b.bytes (u16_bytes b.offsets), length-u16_bytes b.offsets)))

  seek_offsets :
      at_offset (image b ++ tail) (length b.bytes)
      ≡ ok (u16_bytes b.offsets ++ (le_bytes 2 (length b.offsets) ++ tail))
  unfolding image
  seek_offsets =
      rw (append_assoc, append_assoc)
        (at_offset-append b.bytes (u16_bytes b.offsets ++ (le_bytes 2 (length b.offsets) ++ tail))
          (length b.bytes) refl)

  take_data : take (length b.bytes) (image b ++ tail) ≡ b.bytes
  unfolding image
  take_data = rw (append_assoc, append_assoc, take_front (length b.bytes) b.bytes _ refl) refl

  decode-image_tail :
      (hash : Bytes → ℕ) (with_hash : Bool)
      → elements_pos hash (image b ++ tail) with_hash ≡ ok (length b.bytes + length b.offsets * 2)
      → decode hash (image b ++ tail) with_hash ≡ ok (reopened b)
  unfolding decode
  decode-image_tail hash with_hash e =
      let n = length b.offsets in
      let len = length-append (image b) tail in
      let own = length-image b in
      rw
        (
          le→ltb (length (image b ++ tail)) 2 (omega arith),
          e,
          seek_count,
          read_le-append 2 n tail h.count_fits,
          le→ltb (length (image b ++ tail)) (2 + n * 2) (omega arith),
          le→ltb (length b.bytes + n * 2) (n * 2) (omega arith),
          start,
          seek_offsets,
          read_u16s-u16_bytes b.offsets (le_bytes 2 n ++ tail) h.offsets_fit,
          take_data,
        )
        refl
    where
      start : length b.bytes + length b.offsets * 2 - length b.offsets * 2 ≡ length b.bytes
      start = omega arith

elements_pos-image :
    (hash : Bytes → ℕ) (b : Block)
    → elements_pos hash (image b ++ []) false ≡ ok (length b.bytes + length b.offsets * 2)
unfolding elements_pos
elements_pos-image hash b = rw append-nil (ap ok (omega (arith, length-image b)))

elements_pos-image_hash :
    (hash : Bytes → ℕ) (b : Block)
    → elements_pos hash (image b ++ le_bytes 4 (hash (image b) % 2 ^ 32)) true
      ≡ ok (length b.bytes + length b.offsets * 2)
unfolding elements_pos
elements_pos-image_hash hash b =
    rw
      (
        le→ltb (length encoded) 4 (omega (arith, size)),
        body,
        at_offset-append (image b) tail (length (image b)) refl,
        read_le_end 4 (hash (image b) % 2 ^ 32) (omega arith),
        take_front (length (image b)) (image b) tail refl,
        same,
        le→ltb (length encoded) 6 (omega (arith, size, length-image b)),
      )
      (ap ok (omega (arith, size, length-image b)))
  where
    tail : Bytes
    tail = le_bytes 4 (hash (image b) % 2 ^ 32)

    encoded : Bytes
    encoded = image b ++ tail

    size : length encoded ≡ length (image b) + 4
    size = omega (arith, length-append (image b) tail, length-le_bytes 4 (hash (image b) % 2 ^ 32))

    body : length encoded - 4 ≡ length (image b)
    body = omega (arith, size)

    same : ((hash (image b) % 2 ^ 32) == (hash (image b) % 2 ^ 32)) ≡ true
    same = ground arith

-- A block whose count and offsets fit 16 bits is read back from its encoding with its data and its
-- offsets, with the hash behind it or without, whatever the hash function. The capacity is not
-- stored: the block that is read back has capacity 0.
pub decode-encode :
    (hash : Bytes → ℕ) (b : Block)
    → IsEncodable b
    → (encoded : Bytes) × (encode b ≡ ok encoded)
      × (decode hash encoded false ≡ ok (reopened b))
      × (decode hash (with_block_hash hash encoded) true ≡ ok (reopened b))
unfolding with_block_hash
decode-encode hash b h = (
  image b,
  encode-image b h,
  plain,
  decode-image_tail b h (le_bytes 4 (hash (image b) % 2 ^ 32)) hash true
      (elements_pos-image_hash hash b),
)
  where
    plain : decode hash (image b) false ≡ ok (reopened b)
    plain = rw append-nil at (decode-image_tail b h [] hash false (elements_pos-image hash b))
