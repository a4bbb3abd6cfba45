-- ===== src/Bloom/RoundTrip.antt =====
-- `BloomFilter::decode` reads back what `encode` wrote.
use mini_redis.Common.{
  ℕ, zero, suc, ◌+◌, ◌*◌, ◌/◌, ◌%◌, ◌^◌, ◌≤◌, ◌<◌, ◌≡◌, refl, sym, ap, ◌∙◌, List, [], ◌∷◌, ◌++◌,
  Bool, true, false, arith,
}
use mini_redis.Common.{ok, length, take, drop, length-drop}
use mini_redis.Common.Bytes.{le_bytes, read_le-append, read_bytes_front}
use mini_redis.Common.Keys.{Bytes}
use mini_redis.Bloom.{
  BloomFilter, byte_value, encode_bits, num_bytes, bits_of_byte, decode_bits, encode, decode,
}

-- Any number of bits that there are is packed, and unpacked to the same bits.
bits_of_byte-byte_value :
    (n : ℕ) (bits : List Bool)
    → (v : ℕ) × (byte_value n (length bits) bits ≡ ok v)
      × (bits_of_byte n (length bits) v ≡ take n bits)
unfolding bits_of_byte byte_value
bits_of_byte-byte_value zero bits = (0, refl, refl)
bits_of_byte-byte_value (suc n) [] = (0, refl, refl)
bits_of_byte-byte_value (suc n) (true ∷ bits) =
    let (v, e, q) = bits_of_byte-byte_value n bits in
    let odd : (1 + 2 * v) % 2 ≡ 1 = omega arith in
    let half : (1 + 2 * v) / 2 ≡ v = omega arith in (1 + 2 * v, rw e refl, rw (odd, half, q) refl)
bits_of_byte-byte_value (suc n) (false ∷ bits) =
    let (v, e, q) = bits_of_byte-byte_value n bits in
    let even : (2 * v) % 2 ≡ 0 = omega arith in
    let half : (2 * v) / 2 ≡ v = omega arith in (2 * v, rw e refl, rw (even, half, q) refl)

take-drop {ℓ} : {A : Type ℓ} (n : ℕ) (xs : List A) → take n xs ++ drop n xs ≡ xs
take-drop zero xs = refl
take-drop (suc n) [] = refl
take-drop (suc n) (x ∷ xs) = ap (λ t. x ∷ t) (take-drop n xs)

decode_bits-encode_bits :
    (n : ℕ) (bits : List Bool)
    → length bits ≤ 8 * n
    → (data_ : Bytes) × (encode_bits n (length bits) bits ≡ ok data_)
      × (decode_bits n (length bits) data_ ≡ ok bits)
unfolding decode_bits encode_bits
decode_bits-encode_bits zero [] h = ([], refl, refl)
decode_bits-encode_bits zero (b ∷ bits) h = absurd (omega arith)
decode_bits-encode_bits (suc n) bits h =
    let (v, e, q) = bits_of_byte-byte_value 8 bits in
    let (rest, e', q') =
      decode_bits-encode_bits n (drop 8 bits) (omega (arith, length-drop 8 bits)) in
    (
      v ∷ rest,
      rw (e, ← length-drop 8 bits, e') refl,
      rw (← length-drop 8 bits, q', q) (ap ok (take-drop 8 bits)),
    )

-- As many bits as the filter says, and fields that fit their eight bytes.
pub record IsEncodable (f : BloomFilter) : Type 0 where
  pub bits_agree : length f.bits ≡ f.num_bits
  pub rate_fits : length f.false_positive_rate ≡ 8
  pub expected_fits : f.expected_elements < 2 ^ 64
  pub bits_fit : f.num_bits + 7 < 2 ^ 64
  pub hashes_fit : f.num_hashes < 2 ^ 64

-- A filter whose fields fit is encoded without a fault and read back from its encoding.
pub decode-encode_filter :
    (f : BloomFilter)
    → IsEncodable f
    → (data_ : Bytes) × (encode f ≡ ok data_) × (decode data_ ≡ ok f)
unfolding decode encode num_bytes
decode-encode_filter f h =
    let n = num_bytes f.num_bits in
    let (packed, e, q) =
      decode_bits-encode_bits n f.bits (omega (arith, h.bits_agree, h.bits_fit)) in
    let e' : encode_bits n f.num_bits f.bits ≡ ok packed =
      ap (λ t. encode_bits n t f.bits) (sym h.bits_agree) ∙ e in
    let bits : decode_bits n f.num_bits packed ≡ ok f.bits =
      ap (λ t. decode_bits n t packed) (sym h.bits_agree) ∙ q in
    (
      le_bytes 8 f.expected_elements
          ++ (f.false_positive_rate
              ++ (le_bytes 8 f.num_bits ++ (le_bytes 8 f.num_hashes ++ packed))),
      rw e' refl,
      rw
          (
            read_le-append 8 f.expected_elements _ h.expected_fits,
            read_bytes_front 8 f.false_positive_rate _ h.rate_fits,
            read_le-append 8 f.num_bits _ (omega (arith, h.bits_fit)),
            read_le-append 8 f.num_hashes _ h.hashes_fit,
            bits,
          )
          refl,
    )
