-- ===== src/Meta/Examples.antt =====
-- Two blocks, with a constant as the hash.
use mini_redis.Common.{◌≡◌, List, [], ◌∷◌, arith}
use mini_redis.Common.{ok}
use mini_redis.Common.Keys.{Bytes}
use mini_redis.Meta.{BlockMeta, encode_meta_to_slice, decode_meta_from_slice}
use mini_redis.Meta.RoundTrip.{decode_meta_from_slice-encode}

abbrev two_blocks : List BlockMeta
two_blocks =
    record { offset = 0; first_key = 97 ∷ []; last_key = 98 ∷ [] }
    ∷ record { offset = 70; first_key = 99 ∷ []; last_key = [] }
    ∷ []

decode_meta_from_slice-encode_example :
    (metadata : Bytes) × (encode_meta_to_slice (λ bs. 7) two_blocks ≡ ok metadata)
    × (decode_meta_from_slice (λ bs. 7) metadata ≡ ok two_blocks)
decode_meta_from_slice-encode_example =
    decode_meta_from_slice-encode (λ bs. 7) two_blocks
      (
        record { offset = omega arith; first = omega arith; last = omega arith },
        (record { offset = omega arith; first = omega arith; last = omega arith }, tt),
      )
      (omega arith)
