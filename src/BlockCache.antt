-- ===== src/BlockCache.antt =====
-- The cache of blocks (src/block/block_cache.cpp, include/block/block_cache.h), LRU-K: two lists of
-- items, the last used first, and a map from (sst_id, block_id) to list iterators. An iterator is
-- the node that it points to; using it on a list that the node is not in is the outcome `fault`.
-- `V` is the pointer to a block.
pub mod Index
pub mod Moves
pub mod Indexed
pub mod Operations
pub mod Values
pub mod Put
mod Examples
use mini_redis.Common.{ℕ, zero, suc, ◌+◌, ◌-◌, ◌%◌, ◌^◌, List, [], ◌∷◌, Bool, true, false, ◌&&◌}
use mini_redis.Common.{
  Option, none, some, Outcome, ok, fault, pop_back, ltb, leb, ◌==◌, if◌then◌else◌, ◌>>=◌,
}
use mini_redis.Common.Ints.{ℤ, int_eq}

pub record CacheItem {ℓ} (V : Type ℓ) : Type ℓ where
  pub node : ℕ
  pub sst_id : ℤ
  pub block_id : ℤ
  pub cache_block : V
  pub access_count : ℕ

pub record BlockCache {ℓ} (V : Type ℓ) : Type ℓ where
  pub capacity : ℕ
  pub k : ℕ
  pub cache_list_greater_k : List (CacheItem V)
  pub cache_list_less_k : List (CacheItem V)
  pub cache_map : ℤ → ℤ → Option ℕ
  pub cached : ℕ
  pub fresh : ℕ
  pub total_requests : ℕ
  pub hit_requests : ℕ

-- cache_map_[key] = it
unfoldable pub map_set : ℤ → ℤ → Option ℕ → (ℤ → ℤ → Option ℕ) → ℤ → ℤ → Option ℕ
map_set sst_id block_id it m a b = if int_eq a sst_id && int_eq b block_id then it else m a b

-- cache_map_.size() after an erasure, for what the map held under the key.
unfoldable pub size_without : Option ℕ → ℕ → ℕ
size_without none size = size
size_without (some it) size = size - 1

module _ {ℓ} {V : Type ℓ} where
  unfoldable pub new_cache : ℕ → ℕ → BlockCache V
  new_cache capacity k = record {
    capacity = capacity;
    k = k;
    cache_list_greater_k = [];
    cache_list_less_k = [];
    cache_map = λ a b. none;
    cached = 0;
    fresh = 0;
    total_requests = 0;
    hit_requests = 0;
  }

  -- The node that an iterator points to, and the list without it.
  unfoldable pub take_node : ℕ → List (CacheItem V) → Option (CacheItem V × List (CacheItem V))
  take_node it [] = none
  take_node it (n ∷ ns) =
      let others = take_node it ns in
      if n.node == it
      then some (n, ns)
      else elim others as (λ _. Option (CacheItem V × List (CacheItem V))) [
        | none ↦ none
        | some (found, rest) ↦ some (found, n ∷ rest)
      ]

  unfoldable pub counted : CacheItem V → CacheItem V
  counted n = record n { access_count = (n.access_count + 1) % 2 ^ 64 }

  -- The node is in the list of those with fewer than k accesses.
  unfoldable pub update_less :
      CacheItem V → List (CacheItem V) → BlockCache V → Outcome (BlockCache V)
  unfolding counted map_set
  update_less n rest c =
      let n' = counted n in
      if ltb n'.access_count c.k
      then ok (record c { cache_list_less_k = n' ∷ rest })
      else if n'.access_count == c.k
      then ok (record c {
        cache_list_less_k = rest;
        cache_list_greater_k = record n' { node = c.fresh } ∷ c.cache_list_greater_k;
        cache_map = map_set n.sst_id n.block_id (some c.fresh) c.cache_map;
        fresh = c.fresh + 1;
      })
      else fault

  -- The node is in the other list.
  unfoldable pub update_greater :
      CacheItem V → List (CacheItem V) → BlockCache V → Outcome (BlockCache V)
  unfolding counted
  update_greater n rest c =
      let n' = counted n in
      if ltb c.k n'.access_count then ok (record c { cache_list_greater_k = n' ∷ rest }) else fault

  unfoldable pub update_access_count : ℕ → BlockCache V → Outcome (BlockCache V)
  unfolding take_node update_less update_greater
  update_access_count it c = elim (take_node it c.cache_list_less_k) [
    | some (n, rest) ↦ update_less n rest c
    | none ↦ elim (take_node it c.cache_list_greater_k) [
      | some (n, rest) ↦ update_greater n rest c
      | none ↦ fault
    ]
  ]

  unfoldable pub set_block : ℕ → V → List (CacheItem V) → List (CacheItem V)
  set_block it block [] = []
  set_block it block (n ∷ ns) =
      (if n.node == it then record n { cache_block = block } else n) ∷ set_block it block ns

  -- it->second->cache_block
  unfoldable pub block_at : ℕ → BlockCache V → Outcome V
  unfolding take_node
  block_at it c = elim (take_node it c.cache_list_less_k) [
    | some (n, rest) ↦ ok n.cache_block
    | none ↦ elim (take_node it c.cache_list_greater_k) [
      | some (n, rest) ↦ ok n.cache_block
      | none ↦ fault
    ]
  ]

  -- The block is read behind the iterator that the map holds then.
  unfoldable pub get : ℤ → ℤ → BlockCache V → Outcome (Option V × BlockCache V)
  unfolding update_access_count block_at
  get sst_id block_id c =
      let asked = record c { total_requests = (c.total_requests + 1) % 2 ^ 64 } in
      elim (c.cache_map sst_id block_id) [
        | none ↦ ok (none, asked)
        | some it ↦
            update_access_count it (record asked { hit_requests = (c.hit_requests + 1) % 2 ^ 64 })
            >>= λ c'. elim (c'.cache_map sst_id block_id) [
              | none ↦ fault
              | some it' ↦ block_at it' c' >>= λ block. ok (some block, c')
            ]
      ]

  unfoldable pub erase : CacheItem V → BlockCache V → BlockCache V
  unfolding map_set size_without
  erase n c = record c {
    cache_map = map_set n.sst_id n.block_id none c.cache_map;
    cached = size_without (c.cache_map n.sst_id n.block_id) c.cached;
  }

  -- The last of the items with fewer than k accesses goes, or else the last of the others.
  unfoldable pub evict_from :
      List (CacheItem V) → List (CacheItem V) → BlockCache V → Outcome (BlockCache V)
  unfolding erase
  evict_from (n ∷ ns) greater c =
      let (rest, last) = pop_back n ns in ok (erase last (record c { cache_list_less_k = rest }))
  evict_from [] (n ∷ ns) c =
      let (rest, last) = pop_back n ns in ok (erase last (record c { cache_list_greater_k = rest }))
  evict_from [] [] c = fault

  unfoldable pub evict : BlockCache V → Outcome (BlockCache V)
  unfolding evict_from
  evict c = evict_from c.cache_list_less_k c.cache_list_greater_k c

  unfoldable pub insert : ℤ → ℤ → V → BlockCache V → BlockCache V
  unfolding map_set
  insert sst_id block_id block c = record c {
    cache_list_less_k =
        record {
          node = c.fresh;
          sst_id = sst_id;
          block_id = block_id;
          cache_block = block;
          access_count = 1;
        }
        ∷ c.cache_list_less_k;
    cache_map = map_set sst_id block_id (some c.fresh) c.cache_map;
    cached = c.cached + 1;
    fresh = c.fresh + 1;
  }

  unfoldable pub put : ℤ → ℤ → V → BlockCache V → Outcome (BlockCache V)
  unfolding update_access_count set_block evict insert
  put sst_id block_id block c = elim (c.cache_map sst_id block_id) [
    | some it ↦ update_access_count it (record c {
      cache_list_less_k = set_block it block c.cache_list_less_k;
      cache_list_greater_k = set_block it block c.cache_list_greater_k;
    })
    | none ↦
        if leb c.capacity c.cached
        then (evict c >>= λ c'. ok (insert sst_id block_id block c'))
        else ok (insert sst_id block_id block c)
  ]
