-- ===== src/Bloom/Examples.antt =====
-- A filter of eight bits, with the length of a key as its hash.
use mini_redis.Common.{◌≡◌, refl, List, [], ◌∷◌, true, arith}
use mini_redis.Common.{ok, length, replicate, All}
use mini_redis.Common.Keys.{Bytes}
use mini_redis.Bloom.{BloomFilter, new_filter, possibly_contains, encode, decode}
use mini_redis.Bloom.RoundTrip.{decode-encode_filter}
use mini_redis.Bloom.Contains.{add_all, add_all-possibly_contains}

abbrev small_filter : BloomFilter
small_filter = new_filter 3 (replicate 8 0) 8 2

abbrev two_keys : List Bytes
two_keys = (97 ∷ []) ∷ (98 ∷ 99 ∷ []) ∷ []

decode-encode_filter_example :
    (data_ : Bytes) × (encode small_filter ≡ ok data_) × (decode data_ ≡ ok small_filter)
decode-encode_filter_example = decode-encode_filter small_filter (
    unfold new_filter in
    (record {
      bits_agree = refl;
      rate_fits = refl;
      expected_fits = omega arith;
      bits_fit = omega arith;
      hashes_fit = omega arith;
    }))

add_all-possibly_contains_example :
    (f' : BloomFilter) × (add_all (λ key. length key) small_filter two_keys ≡ ok f')
    × All (λ key. possibly_contains (λ k. length k) f' key ≡ ok true) two_keys
add_all-possibly_contains_example =
    add_all-possibly_contains (λ key. length key) small_filter two_keys
      (unfold new_filter in (record { some_bits = omega arith; bits_agree = refl }))
