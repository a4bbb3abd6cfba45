-- ===== src/BlockCache/Put.antt =====
-- `put` of the cache: the value of a block that is there, the eviction, the insertion.
use mini_redis.Common.Ints.{ℤ}
use mini_redis.Common.{◌^◌}
use mathlib.Core.Path.{subst}
use mini_redis.Common.{
  ℕ, ◌-◌, ◌≤◌, ◌<◌, ◌≡◌, refl, sym, ap, ◌∙◌, inl, inr, List, [], ◌∷◌, ◌++◌, true, false, arith,
}
use mini_redis.Common.{Bool-cases, Option, none, some, ok, All, leb, length, pop_back}
use mini_redis.BlockCache.{
  CacheItem, BlockCache, map_set, update_access_count, set_block, size_without, erase, evict,
  evict_from, insert, put,
}
use mini_redis.BlockCache.Index.{Index, Index-Same, Index-insert}
use mini_redis.BlockCache.Moves.{Index-erase, pop_back-Same}
use mini_redis.BlockCache.Indexed.{
  IsIndexed, CountsFit, Same-append_right, update_access_count-Kept,
}
use mini_redis.BlockCache.Values.{set_block-All, set_block-append, Index-set_block}

module _ {ℓ} {V : Type ℓ} where
  -- The branches of `put`.
  put-known :
      (c : BlockCache V) (sst_id block_id : ℤ) (it : ℕ) (block : V) (c' : BlockCache V)
      → c.cache_map sst_id block_id ≡ some it
      → update_access_count it (record c {
        cache_list_less_k = set_block it block c.cache_list_less_k;
        cache_list_greater_k = set_block it block c.cache_list_greater_k;
      })
        ≡ ok c'
      → put sst_id block_id block c ≡ ok c'
  unfolding put
  put-known c sst_id block_id it block c' e u = rw (put, e) u

  put-full :
      (c : BlockCache V) (sst_id block_id : ℤ) (block : V) (c' : BlockCache V)
      → c.cache_map sst_id block_id ≡ none
      → leb c.capacity c.cached ≡ true
      → evict c ≡ ok c'
      → put sst_id block_id block c ≡ ok (insert sst_id block_id block c')
  unfolding put
  put-full c sst_id block_id block c' e f v = rw (put, e, f, v) refl

  put-room :
      (c : BlockCache V) (sst_id block_id : ℤ) (block : V)
      → c.cache_map sst_id block_id ≡ none
      → leb c.capacity c.cached ≡ false
      → put sst_id block_id block c ≡ ok (insert sst_id block_id block c)
  unfolding put
  put-room c sst_id block_id block e f = rw (put, e, f) refl

  -- Less than full, without the key.
  record Ready (c c' : BlockCache V) : Type ℓ where
    pub index :
        Index (c'.cache_list_less_k ++ c'.cache_list_greater_k) c'.cache_map c'.cached c'.fresh
    pub few : All (λ (n : CacheItem V). n.access_count < c'.k) c'.cache_list_less_k
    pub many : All (λ (n : CacheItem V). c'.k ≤ n.access_count) c'.cache_list_greater_k
    pub room : c'.cached < c'.capacity
    pub twice : 2 ≤ c'.k
    pub k_fits : c'.k < 2 ^ 64
    pub absent : (a b : ℤ) → c.cache_map a b ≡ none → c'.cache_map a b ≡ none

  evict-Ready :
      (c : BlockCache V)
      → IsIndexed c
      → c.capacity ≤ c.cached
      → (c' : BlockCache V) × (evict c ≡ ok c') × Ready c c'
  unfolding erase map_set evict evict_from size_without
  evict-Ready c h full = go c.cache_list_less_k c.cache_list_greater_k refl refl
    where
      go :
          (less greater : List (CacheItem V))
          → c.cache_list_less_k ≡ less
          → c.cache_list_greater_k ≡ greater
          → (c' : BlockCache V) × (evict c ≡ ok c') × Ready c c'
      go [] [] p q = absurd (
          omega (
            arith,
            h.some_room,
            full,
            h.index.number,
            ap (λ (t : List (CacheItem V)). length (t ++ c.cache_list_greater_k)) p,
            ap length q,
          ))
      go (n ∷ ns) greater p q =
          let rest = (pop_back n ns).0 in
          let last = (pop_back n ns).1 in
          let few =
            (pop_back-Same n ns).all (λ (x : CacheItem V). x.access_count < c.k)
              (subst (λ (t : List (CacheItem V)). All (λ (x : CacheItem V). x.access_count < c.k) t)
                p h.few) in
          let index =
            Index-Same ((n ∷ ns) ++ c.cache_list_greater_k)
              (last ∷ (rest ++ c.cache_list_greater_k)) c.cache_map c.cached c.fresh
              (Same-append_right (n ∷ ns) (last ∷ rest) c.cache_list_greater_k (pop_back-Same n ns))
              (subst
                (λ (t : List (CacheItem V)).
                  Index (t ++ c.cache_list_greater_k) c.cache_map c.cached c.fresh)
                p h.index) in
          let count : size_without (c.cache_map last.sst_id last.block_id) c.cached ≡ c.cached - 1 =
            ap (λ t. size_without t c.cached) index.complete.0 in
          (
            erase last (record c { cache_list_less_k = rest }),
            ap (λ t. evict_from t c.cache_list_greater_k c) p,
            record {
              index =
                  subst
                    (λ (t : ℕ).
                      Index (rest ++ c.cache_list_greater_k)
                        (map_set last.sst_id last.block_id none c.cache_map) t c.fresh)
                    (sym count)
                    (Index-erase last (rest ++ c.cache_list_greater_k) c.cache_map c.cached c.fresh
                      index);
              few = few.1;
              many = h.many;
              room = omega (arith, h.fits, index.number, h.some_room, count);
              twice = h.twice;
              k_fits = h.k_fits;
              absent = λ a b e. ground (arith, e);
            },
          )
      go [] (n ∷ ns) p q =
          let rest = (pop_back n ns).0 in
          let last = (pop_back n ns).1 in
          let many =
            (pop_back-Same n ns).all (λ (x : CacheItem V). c.k ≤ x.access_count)
              (subst (λ (t : List (CacheItem V)). All (λ (x : CacheItem V). c.k ≤ x.access_count) t)
                q h.many) in
          let index =
            Index-Same (n ∷ ns) (last ∷ rest) c.cache_map c.cached c.fresh (pop_back-Same n ns) (
              subst (λ (t : List (CacheItem V)). Index t c.cache_map c.cached c.fresh) q
                (subst
                  (λ (t : List (CacheItem V)).
                    Index (t ++ c.cache_list_greater_k) c.cache_map c.cached c.fresh)
                  p h.index)) in
          let count : size_without (c.cache_map last.sst_id last.block_id) c.cached ≡ c.cached - 1 =
            ap (λ t. size_without t c.cached) index.complete.0 in
          (
            erase last (record c { cache_list_greater_k = rest }),
            ap (λ t. evict_from t c.cache_list_greater_k c) p ∙ ap (λ t. evict_from [] t c) q,
            record {
              index =
                  subst
                    (λ (t : List (CacheItem V)).
                      Index (t ++ rest) (map_set last.sst_id last.block_id none c.cache_map)
                        (size_without (c.cache_map last.sst_id last.block_id) c.cached) c.fresh)
                    (sym p)
                    (subst
                      (λ (t : ℕ).
                        Index rest (map_set last.sst_id last.block_id none c.cache_map) t c.fresh)
                      (sym count) (Index-erase last rest c.cache_map c.cached c.fresh index));
              few = h.few;
              many = many.1;
              room = omega (arith, h.fits, index.number, h.some_room, count);
              twice = h.twice;
              k_fits = h.k_fits;
              absent = λ a b e. ground (arith, e);
            },
          )

  insert-IsIndexed :
      (c c' : BlockCache V) (sst_id block_id : ℤ) (block : V)
      → Ready c c'
      → c.cache_map sst_id block_id ≡ none
      → IsIndexed (insert sst_id block_id block c')
  unfolding insert
  insert-IsIndexed c c' sst_id block_id block r e =
      let n : CacheItem V = record {
        node = c'.fresh;
        sst_id = sst_id;
        block_id = block_id;
        cache_block = block;
        access_count = 1;
      } in
      record {
        index =
            Index-insert n (c'.cache_list_less_k ++ c'.cache_list_greater_k) c'.cache_map c'.cached
              c'.fresh refl (r.absent sst_id block_id e) r.index;
        few = (omega (arith, r.twice), r.few);
        many = r.many;
        fits = omega (arith, r.room);
        some_room = omega (arith, r.room);
        twice = r.twice;
        k_fits = r.k_fits;
      }

  -- On a cache whose map and lists agree, for k from 2 up to what 64 bits hold, some capacity, and no
  -- item with k accesses or more whose count would wrap, a put comes to its end without a fault, also
  -- where an item has to go; the map and the lists agree again, and hold no more than the capacity.
  pub put-IsIndexed :
      (c : BlockCache V) (sst_id block_id : ℤ) (block : V)
      → IsIndexed c
      → CountsFit c
      → (c' : BlockCache V) × (put sst_id block_id block c ≡ ok c') × IsIndexed c'
  put-IsIndexed c sst_id block_id block h w = go (c.cache_map sst_id block_id) refl
    where
      go :
          (r : Option ℕ)
          → c.cache_map sst_id block_id ≡ r
          → (c' : BlockCache V) × (put sst_id block_id block c ≡ ok c') × IsIndexed c'
      go (some it) e =
          let less = c.cache_list_less_k in
          let greater = c.cache_list_greater_k in
          let changed = record c {
            cache_list_less_k = set_block it block less;
            cache_list_greater_k = set_block it block greater;
          } in
          let ready : IsIndexed changed = record {
            index =
                subst (λ (t : List (CacheItem V)). Index t c.cache_map c.cached c.fresh)
                  (set_block-append it block less greater)
                  (Index-set_block it block (less ++ greater) c.cache_map c.cached c.fresh h.index);
            few = set_block-All _ it block (λ n p. p) less h.few;
            many = set_block-All _ it block (λ n p. p) greater h.many;
            fits = h.fits;
            some_room = h.some_room;
            twice = h.twice;
            k_fits = h.k_fits;
          } in
          let (c', u, k) =
            update_access_count-Kept changed it sst_id block_id ready
              (set_block-All _ it block (λ n p. p) greater w) e in
          (c', put-known c sst_id block_id it block c' e u, k.indexed)
      go none e = elim (Bool-cases (leb c.capacity c.cached)) [
        | inl full ↦
            let (c', v, r) = evict-Ready c h (ground arith) in
            (
              insert sst_id block_id block c',
              put-full c sst_id block_id block c' e full v,
              insert-IsIndexed c c' sst_id block_id block r e,
            )
        | inr room ↦ (
          insert sst_id block_id block c,
          put-room c sst_id block_id block e room,
          insert-IsIndexed c c sst_id block_id block
              (record {
                index = h.index;
                few = h.few;
                many = h.many;
                room = ground arith;
                twice = h.twice;
                k_fits = h.k_fits;
                absent = λ a b q. q;
              })
              e,
        )
      ]
