-- ===== src/BlockCache/Examples.antt =====
-- A cache of two blocks with k = 2, and the two settings that it cannot work with.
use mini_redis.Common.{ℕ, ◌≡◌, ◌↔◌, refl, [], ◌∷◌, arith, Option, some, none}
use mathlib.Core.Path.{subst}
use mini_redis.Common.Ints.{ℤ, int_eq, pos, negsuc}
use mini_redis.Common.{sym, ap, ◌∙◌, Outcome, ok, throws, fault, unfinished, ◌>>=◌}
use mini_redis.BlockCache.{BlockCache, new_cache, map_set, insert, get, put}
use mini_redis.BlockCache.Index.{times}
use mini_redis.BlockCache.Indexed.{IsIndexed, CountsFit}
use mini_redis.BlockCache.Operations.{get-IsIndexed}
use mini_redis.BlockCache.Put.{put-IsIndexed}

new_cache-IsIndexed : IsIndexed (new_cache {V = ℕ} 2 2)
unfolding new_cache times
new_cache-IsIndexed = record {
  index = record {
    complete = tt;
    sound = λ a b it e. cc;
    once = λ it. omega arith;
    old = tt;
    number = refl;
  };
  few = tt;
  many = tt;
  fits = omega arith;
  some_room = omega arith;
  twice = omega arith;
  k_fits = omega arith;
}

-- A cache that a put was proved to keep in step, written out.
put-known_result :
    (sst_id block_id : ℤ) (block : ℕ) (c d : BlockCache ℕ)
    → IsIndexed c
    → CountsFit c
    → put sst_id block_id block c ≡ ok d
    → IsIndexed d
put-known_result sst_id block_id block c d h w e =
    let (c', e', h') = put-IsIndexed c sst_id block_id block h w in
    subst IsIndexed (ap (value c) (sym e' ∙ e)) h'
  where
    value : BlockCache ℕ → Outcome (BlockCache ℕ) → BlockCache ℕ
    value d (ok c') = c'
    value d throws = d
    value d fault = d
    value d unfinished = d

abbrev one_block : BlockCache ℕ
one_block = insert (pos 1) (pos 7) 70 (new_cache 2 2)

one_block-IsIndexed : IsIndexed one_block
unfolding put new_cache
one_block-IsIndexed =
    put-known_result (pos 1) (pos 7) 70 (new_cache 2 2) one_block new_cache-IsIndexed
      (unfold new_cache in tt) refl

-- The first block was asked for again, so that it stands in the other list.
abbrev asked_again : BlockCache ℕ
asked_again = record {
  capacity = 2;
  k = 2;
  cache_list_greater_k =
      record { node = 1; sst_id = pos 1; block_id = pos 7; cache_block = 70; access_count = 2 }
      ∷ [];
  cache_list_less_k = [];
  cache_map = map_set (pos 1) (pos 7) (some 1) (map_set (pos 1) (pos 7) (some 0) (λ a b. none));
  cached = 1;
  fresh = 2;
  total_requests = 0;
  hit_requests = 0;
}

asked_again-IsIndexed : IsIndexed asked_again
unfolding put insert new_cache int_eq
asked_again-IsIndexed =
    put-known_result (pos 1) (pos 7) 70 one_block asked_again one_block-IsIndexed
      (unfold insert new_cache in tt) refl

abbrev two_blocks : BlockCache ℕ
two_blocks = insert (pos 1) (negsuc 0) 80 asked_again

two_blocks-IsIndexed : IsIndexed two_blocks
unfolding put int_eq
two_blocks-IsIndexed =
    put-known_result (pos 1) (negsuc 0) 80 asked_again two_blocks asked_again-IsIndexed
      (omega arith, tt) refl

two_blocks-CountsFit : CountsFit two_blocks
unfolding insert
two_blocks-CountsFit = (omega arith, tt)

put-IsIndexed_example :
    (c' : BlockCache ℕ) × (put (pos 1) (pos 9) 90 two_blocks ≡ ok c') × IsIndexed c'
put-IsIndexed_example =
    put-IsIndexed two_blocks (pos 1) (pos 9) 90 two_blocks-IsIndexed two_blocks-CountsFit

get-IsIndexed_example :
    (answer : Option ℕ) × (c' : BlockCache ℕ) × (get (pos 1) (pos 7) two_blocks ≡ ok (answer, c'))
    × IsIndexed c'
    × ((answer ≡ none) ↔ (two_blocks.cache_map (pos 1) (pos 7) ≡ none))
    × ((a b : ℤ) (it : ℕ)
        → two_blocks.cache_map a b ≡ some it
        → (it' : ℕ) × (c'.cache_map a b ≡ some it'))
get-IsIndexed_example =
    get-IsIndexed two_blocks (pos 1) (pos 7) two_blocks-IsIndexed two_blocks-CountsFit

-- The block that was used twice stays, the other one goes.
used_twice :
    (do
      c ← put (pos 1) (pos 7) 70 (new_cache {V = ℕ} 2 2)
      c ← put (pos 1) (pos 8) 80 c
      (first, c) ← get (pos 1) (pos 7) c
      c ← put (pos 1) (pos 9) 90 c
      (second, c) ← get (pos 1) (pos 8) c
      (third, c) ← get (pos 1) (pos 7) c
      ok (first ∷ second ∷ third ∷ []))
    ≡ ok (some 70 ∷ none ∷ some 70 ∷ [])
unfolding put get new_cache int_eq
used_twice = refl

-- With k = 1 the second access uses an iterator on the wrong list.
k_of_one : (put (pos 1) (pos 7) 70 (new_cache {V = ℕ} 2 1) >>= λ c. get (pos 1) (pos 7) c) ≡ fault
unfolding put get new_cache int_eq
k_of_one = refl

-- Without capacity there is no last item to evict.
no_capacity : put (pos 1) (pos 7) 70 (new_cache {V = ℕ} 0 2) ≡ fault
unfolding put new_cache
no_capacity = refl
