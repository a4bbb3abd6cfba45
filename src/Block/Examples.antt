-- ===== src/Block/Examples.antt =====
-- A block of two entries.
use mini_redis.Block.Entries.{HasNoRoom}
use mini_redis.Common.{
  ℕ, zero, suc, ◌^◌, ◌<◌, ◌≡◌, refl, inr, ◌⊎◌, List, [], ◌∷◌, ◌++◌, true, false, arith,
}
use mini_redis.Common.{ok, Option, some, length, get_elem?}
use mini_redis.Common.Keys.{Bytes}
use mini_redis.Block.{Block, Entry, add_entry}
use mini_redis.Block.Codec.{IsEncodable, encode, decode, with_block_hash, reopened, decode-encode}
use mini_redis.Block.Entries.{
  Represents, Fits, entry_bytes, entries_bytes, offsets_from, string_bytes, add_entry-Represents,
}
use mini_redis.Common.Bytes.{le_bytes}
use mini_redis.Block.Search.{get_value_binary}
use mini_redis.Block.Visible.{Answers, get_value_binary-Answers}
use mini_redis.Block.Ordered.{Before}

abbrev newer : Entry
newer = record { key = b'a' ∷ []; value = b'y' ∷ []; tranc_id = 5 }

abbrev older : Entry
older = record { key = b'a' ∷ []; value = b'x' ∷ []; tranc_id = 3 }

abbrev both : List Entry
both = newer ∷ older ∷ []

-- The bytes and offsets of the two entries.
abbrev block : Block
block = record {
  bytes =
      1 ∷ 0 ∷ b'a' ∷ 1 ∷ 0 ∷ b'y' ∷ 5 ∷ 0 ∷ 0 ∷ 0 ∷ 0 ∷ 0 ∷ 0 ∷ 0 ∷ 1 ∷ 0 ∷ b'a' ∷ 1 ∷ 0 ∷ b'x' ∷ 3
      ∷ 0 ∷ 0 ∷ 0 ∷ 0 ∷ 0 ∷ 0 ∷ 0 ∷ [];
  offsets = 0 ∷ 14 ∷ [];
  capacity = 4096;
}

newer-Fits : Fits newer
newer-Fits = record { key_fits = omega arith; value_fits = omega arith; id_fits = omega arith }

older-Fits : Fits older
older-Fits = record { key_fits = omega arith; value_fits = omega arith; id_fits = omega arith }

block-Represents : Represents block both
unfolding entries_bytes entry_bytes string_bytes offsets_from le_bytes
block-Represents = record {
  bytes_eq = refl;
  offsets_eq = refl;
  fit = (newer-Fits, (older-Fits, tt));
  small = omega arith;
}

both-ordered :
    (i j : ℕ) (d e : Entry)
    → get_elem? both i ≡ some d
    → get_elem? both j ≡ some e
    → i < j
    → Before d e
both-ordered zero (suc zero) d e p q h = inr (ground arith, ground arith)
both-ordered zero (suc (suc j)) d e p q h = absurd (cc)
both-ordered (suc i) (suc (suc j)) d e p q h = absurd (cc)
both-ordered zero zero d e p q h = absurd (omega arith)
both-ordered (suc i) zero d e p q h = absurd (omega arith)
both-ordered (suc i) (suc zero) d e p q h = absurd (omega arith)

both-small : (i : ℕ) (e : Entry) → get_elem? both i ≡ some e → e.tranc_id < 2 ^ 16
both-small zero e h = ground arith
both-small (suc zero) e h = ground arith
both-small (suc (suc i)) e h = absurd (cc)

get_value_binary-Answers_example :
    (v : Option Bytes) × (get_value_binary block (b'a' ∷ []) 4 ≡ ok v)
    × Answers both (b'a' ∷ []) 4 v
get_value_binary-Answers_example =
    get_value_binary-Answers block both (b'a' ∷ []) 4 block-Represents both-ordered both-small

block-IsEncodable : IsEncodable block
block-IsEncodable = record { offsets_fit = omega arith; count_fits = omega arith }

decode-encode_example :
    (encoded : Bytes) × (encode block ≡ ok encoded)
    × (decode length encoded false ≡ ok (reopened block))
    × (decode length (with_block_hash length encoded) true ≡ ok (reopened block))
decode-encode_example = decode-encode length block block-IsEncodable

add_entry-Represents_example :
    ((false ≡ false)
      × HasNoRoom block both older
      × (add_entry block (b'a' ∷ []) (b'x' ∷ []) 3 false ≡ ok (false, block)))
    ⊎ (((false ≡ true) ⊎ ¬ HasNoRoom block both older)
        × ((b' : Block) × (add_entry block (b'a' ∷ []) (b'x' ∷ []) 3 false ≡ ok (true, b'))
            × Represents b' (both ++ older ∷ [])
            × (b'.capacity ≡ 4096)))
unfolding entry_bytes string_bytes le_bytes
add_entry-Represents_example =
    add_entry-Represents block both older false block-Represents older-Fits (omega arith)
