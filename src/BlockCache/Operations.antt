-- ===== src/BlockCache/Operations.antt =====
-- `get` and `put` of the cache.
use mini_redis.Common.Ints.{ℤ}
use mini_redis.Common.{◌%◌, ◌^◌}
use mini_redis.Common.{ℕ, ◌+◌, ◌≡◌, ◌↔◌, refl, inl, inr, List}
use mini_redis.Common.{Option, none, some, ok}
use mini_redis.BlockCache.{CacheItem, BlockCache, take_node, update_access_count, block_at, get}
use mini_redis.BlockCache.Index.{}
use mini_redis.BlockCache.Indexed.{
  IsIndexed, CountsFit, Has-append, take_node-Has, update_access_count-Kept,
}

module _ {ℓ} {V : Type ℓ} where
  block_at-ok :
      (c : BlockCache V) (it : ℕ) (a b : ℤ)
      → IsIndexed c
      → c.cache_map a b ≡ some it
      → (block : V) × (block_at it c ≡ ok block)
  unfolding block_at
  block_at-ok c it a b h e =
      go (take_node it c.cache_list_less_k) refl (take_node it c.cache_list_greater_k) refl
    where
      go :
          (r : Option (CacheItem V × List (CacheItem V)))
          → take_node it c.cache_list_less_k ≡ r
          → (t : Option (CacheItem V × List (CacheItem V)))
          → take_node it c.cache_list_greater_k ≡ t
          → (block : V) × (block_at it c ≡ ok block)
      go (some (n, rest)) q t p = (n.cache_block, rw (block_at, q) refl)
      go none q (some (n, rest)) p = (n.cache_block, rw (block_at, q, p) refl)
      go none q none p =
          absurd
            (elim (Has-append it a b c.cache_list_less_k c.cache_list_greater_k
              (h.index.sound a b it e)) [
                | inl k ↦ take_node-Has it a b c.cache_list_less_k k q
                | inr k ↦ take_node-Has it a b c.cache_list_greater_k k p
              ])

  get-hit :
      (c : BlockCache V) (sst_id block_id : ℤ) (it : ℕ) (c' : BlockCache V) (it' : ℕ) (block : V)
      → c.cache_map sst_id block_id ≡ some it
      → update_access_count it (record c {
        total_requests = (c.total_requests + 1) % 2 ^ 64;
        hit_requests = (c.hit_requests + 1) % 2 ^ 64;
      })
        ≡ ok c'
      → c'.cache_map sst_id block_id ≡ some it'
      → block_at it' c' ≡ ok block
      → get sst_id block_id c ≡ ok (some block, c')
  unfolding get
  get-hit c sst_id block_id it c' it' block e u q p = rw (get, e, u, q, p) refl

  get-miss :
      (c : BlockCache V) (sst_id block_id : ℤ)
      → c.cache_map sst_id block_id ≡ none
      → get sst_id block_id c
        ≡ ok (none, record c { total_requests = (c.total_requests + 1) % 2 ^ 64 })
  unfolding get
  get-miss c sst_id block_id e = rw (get, e) refl

  -- On a cache whose map and lists agree, for k from 2 up to what 64 bits hold, where no item with k
  -- accesses or more has a count that would wrap, a lookup does not use an iterator on a list that it
  -- is not of: it answers a block exactly where the map holds the key, the map and the lists agree
  -- again, and no key that was cached is lost.
  pub get-IsIndexed :
      (c : BlockCache V) (sst_id block_id : ℤ)
      → IsIndexed c
      → CountsFit c
      → (answer : Option V) × (c' : BlockCache V) × (get sst_id block_id c ≡ ok (answer, c'))
        × IsIndexed c'
        × ((answer ≡ none) ↔ (c.cache_map sst_id block_id ≡ none))
        × ((a b : ℤ) (it : ℕ)
            → c.cache_map a b ≡ some it
            → (it' : ℕ) × (c'.cache_map a b ≡ some it'))
  get-IsIndexed c sst_id block_id h w = go (c.cache_map sst_id block_id) refl
    where
      asked : BlockCache V
      asked = record c { total_requests = (c.total_requests + 1) % 2 ^ 64 }

      hit : BlockCache V
      hit = record asked { hit_requests = (c.hit_requests + 1) % 2 ^ 64 }

      asked-IsIndexed : IsIndexed asked
      asked-IsIndexed = record {
        index = h.index;
        few = h.few;
        many = h.many;
        fits = h.fits;
        some_room = h.some_room;
        twice = h.twice;
        k_fits = h.k_fits;
      }

      hit-IsIndexed : IsIndexed hit
      hit-IsIndexed = record {
        index = h.index;
        few = h.few;
        many = h.many;
        fits = h.fits;
        some_room = h.some_room;
        twice = h.twice;
        k_fits = h.k_fits;
      }

      go :
          (r : Option ℕ)
          → c.cache_map sst_id block_id ≡ r
          → (answer : Option V) × (c' : BlockCache V) × (get sst_id block_id c ≡ ok (answer, c'))
            × IsIndexed c'
            × ((answer ≡ none) ↔ (c.cache_map sst_id block_id ≡ none))
            × ((a b : ℤ) (it : ℕ)
                → c.cache_map a b ≡ some it
                → (it' : ℕ) × (c'.cache_map a b ≡ some it'))
      go none e = (
        none,
        asked,
        get-miss c sst_id block_id e,
        asked-IsIndexed,
        (λ q. e, λ q. refl),
        λ a b it q. (it, q),
      )
      go (some it) e =
          let (c', u, k) = update_access_count-Kept hit it sst_id block_id hit-IsIndexed w e in
          let (it', e') = k.keys sst_id block_id it e in
          let (block, p) = block_at-ok c' it' sst_id block_id k.indexed e' in
          (
            some block,
            c',
            get-hit c sst_id block_id it c' it' block e u e' p,
            k.indexed,
            (λ q. absurd (cc q), λ q. absurd (cc (q, e))),
            k.keys,
          )
