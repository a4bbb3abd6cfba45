-- ===== src/Bloom.antt =====
-- The Bloom filter (src/utils/bloom_filter.cpp, include/utils/bloom_filter.h). `std::hash` is a
-- parameter. The rate is the eight bytes of a double, and the sizes that the constructor computes
-- from it in floating point are its arguments here.
pub mod RoundTrip
mod Examples
pub mod Contains
use mini_redis.Common.{
  ℕ, zero, suc, ◌+◌, ◌-◌, ◌*◌, ◌/◌, ◌%◌, ◌^◌, List, [], ◌∷◌, ◌++◌, Bool, true, false,
}
use mini_redis.Common.{Outcome, ok, fault, ◌>>=◌, ◌==◌, if◌then◌else◌, replicate, drop}
use mini_redis.Common.Keys.{Bytes}
use mini_redis.Common.Bytes.{le_bytes, read_le, read_bytes}

pub record BloomFilter : Type 0 where
  pub expected_elements : ℕ
  pub false_positive_rate : Bytes
  pub num_bits : ℕ
  pub num_hashes : ℕ
  pub bits : List Bool

unfoldable pub new_filter : ℕ → Bytes → ℕ → ℕ → BloomFilter
new_filter expected_elements rate num_bits num_hashes = record {
  expected_elements = expected_elements;
  false_positive_rate = rate;
  num_bits = num_bits;
  num_hashes = num_hashes;
  bits = replicate num_bits false;
}

-- bits_[idx]
unfoldable pub bit_at : ℕ → List Bool → Outcome Bool
bit_at idx [] = fault
bit_at zero (b ∷ bs) = ok b
bit_at (suc idx) (b ∷ bs) = bit_at idx bs

-- bits_[idx] = true
unfoldable pub set_bit : ℕ → List Bool → Outcome (List Bool)
set_bit idx [] = fault
set_bit zero (b ∷ bs) = ok (true ∷ bs)
set_bit (suc idx) (b ∷ bs) = set_bit idx bs >>= λ r. ok (b ∷ r)

unfoldable pub clear : BloomFilter → BloomFilter
clear f = record f { bits = set_all f.bits }
  where
    set_all : List Bool → List Bool
    set_all [] = []
    set_all (b ∷ bs) = false ∷ set_all bs

module _ (std_hash : Bytes → ℕ) where
  unfoldable pub hash1 : Bytes → ℕ
  hash1 key = std_hash key

  -- key + "salt"
  unfoldable pub hash2 : Bytes → ℕ
  hash2 key = std_hash (key ++ 115 ∷ 97 ∷ 108 ∷ 116 ∷ [])

  -- The sum and the product wrap at 64 bits; a division by no bits is undefined.
  unfoldable pub hash : BloomFilter → Bytes → ℕ → Outcome ℕ
  unfolding hash1 hash2
  hash f key idx =
      if f.num_bits == 0 then fault else ok ((hash1 key + idx * hash2 key) % 2 ^ 64 % f.num_bits)

  -- for (size_t i = idx; i < idx + n; ++i)
  unfoldable pub add_loop : BloomFilter → Bytes → ℕ → ℕ → List Bool → Outcome (List Bool)
  unfolding hash
  add_loop f key zero idx bits = ok bits
  add_loop f key (suc n) idx bits = do
    bit_idx ← hash f key idx
    bits ← set_bit bit_idx bits
    add_loop f key n (idx + 1) bits

  unfoldable pub add : BloomFilter → Bytes → Outcome BloomFilter
  unfolding add_loop
  add f key = do bits ← add_loop f key f.num_hashes 0 f.bits; ok (record f { bits = bits })

  unfoldable pub contains_loop : BloomFilter → Bytes → ℕ → ℕ → Outcome Bool
  unfolding hash
  contains_loop f key zero idx = ok true
  contains_loop f key (suc n) idx =
      let rest = contains_loop f key n (idx + 1) in
      hash f key idx >>= λ bit_idx. bit_at bit_idx f.bits >>= λ b. if b then rest else ok false

  unfoldable pub possibly_contains : BloomFilter → Bytes → Outcome Bool
  unfolding contains_loop
  possibly_contains f key = contains_loop f key f.num_hashes 0

-- The byte of the first `n` bits, the first bit lowest: only the `left` bits below `num_bits_` are
-- read, and reading one that `bits_` does not have is out of bounds.
unfoldable pub byte_value : ℕ → ℕ → List Bool → Outcome ℕ
byte_value zero left bits = ok 0
byte_value (suc n) zero bits = ok 0
byte_value (suc n) (suc left) [] = fault
byte_value (suc n) (suc left) (b ∷ bits) = do
  rest ← byte_value n left bits
  ok (if b then 1 + 2 * rest else 2 * rest)

unfoldable pub encode_bits : ℕ → ℕ → List Bool → Outcome Bytes
unfolding byte_value
encode_bits zero left bits = ok []
encode_bits (suc n) left bits = do
  byte ← byte_value 8 left bits
  bytes ← encode_bits n (left - 8) (drop 8 bits)
  ok (byte ∷ bytes)

unfoldable pub num_bytes : ℕ → ℕ
num_bytes num_bits = (num_bits + 7) % 2 ^ 64 / 8

unfoldable pub encode : BloomFilter → Outcome Bytes
unfolding encode_bits num_bytes
encode f = do
  bits ← encode_bits (num_bytes f.num_bits) f.num_bits f.bits
  ok (
      le_bytes 8 f.expected_elements
      ++ (f.false_positive_rate ++ (le_bytes 8 f.num_bits ++ (le_bytes 8 f.num_hashes ++ bits))))

-- The bits of one byte, `left` of them at most.
unfoldable pub bits_of_byte : ℕ → ℕ → ℕ → List Bool
bits_of_byte zero left byte = []
bits_of_byte (suc n) zero byte = []
bits_of_byte (suc n) (suc left) byte = (byte % 2 == 1) ∷ bits_of_byte n left (byte / 2)

unfoldable pub decode_bits : ℕ → ℕ → Bytes → Outcome (List Bool)
unfolding bits_of_byte
decode_bits zero left data_ = ok []
decode_bits (suc n) left [] = fault
decode_bits (suc n) left (byte ∷ data_) = do
  bits ← decode_bits n (left - 8) data_
  ok (bits_of_byte 8 left byte ++ bits)

unfoldable pub decode : Bytes → Outcome BloomFilter
unfolding decode_bits num_bytes
decode data_ = do
  (expected_elements, data_) ← read_le 8 data_
  (false_positive_rate, data_) ← read_bytes 8 data_
  (num_bits, data_) ← read_le 8 data_
  (num_hashes, data_) ← read_le 8 data_
  bits ← decode_bits (num_bytes num_bits) num_bits data_
  ok (record {
    expected_elements = expected_elements;
    false_positive_rate = false_positive_rate;
    num_bits = num_bits;
    num_hashes = num_hashes;
    bits = bits;
  })
