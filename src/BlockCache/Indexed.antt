-- ===== src/BlockCache/Indexed.antt =====
-- Each operation of the cache keeps the map, the lists and the counts in step.
use mini_redis.Common.Ints.{ℤ, int_eq}
use mini_redis.Common.{◌%◌, ◌^◌}
use mini_redis.Common.{
  ℕ, ◌+◌, ◌≤◌, ◌<◌, ◌≡◌, ◌⊎◌, refl, inl, inr, List, [], ◌∷◌, ◌++◌, true, ◌&&◌, arith,
}
use mini_redis.Common.{
  Bool-cases, Option, none, some, ok, All, All-append, All-before, All-behind, length-append, ◌==◌,
  ltb,
}
use mini_redis.BlockCache.{
  CacheItem, BlockCache, map_set, take_node, counted, update_less, update_greater,
  update_access_count,
}
use mini_redis.BlockCache.Index.{
  Has, times, Same, Same-cons, Same-middle, Same-back, Index, Index-Same, Index-counted,
}
use mini_redis.BlockCache.Moves.{Index-move, take_node-Same}

module _ {ℓ} {V : Type ℓ} where
  pub record IsIndexed (c : BlockCache V) : Type ℓ where
    pub index : Index (c.cache_list_less_k ++ c.cache_list_greater_k) c.cache_map c.cached c.fresh
    pub few : All (λ (n : CacheItem V). n.access_count < c.k) c.cache_list_less_k
    pub many : All (λ (n : CacheItem V). c.k ≤ n.access_count) c.cache_list_greater_k
    pub fits : c.cached ≤ c.capacity
    pub some_room : 0 < c.capacity
    pub twice : 2 ≤ c.k
    pub k_fits : c.k < 2 ^ 64

  -- No count of the items with `k` accesses or more is the last before the wrap.
  abbrev pub CountsFit : BlockCache V → Type 0
  CountsFit c = All (λ (n : CacheItem V). n.access_count + 1 < 2 ^ 64) c.cache_list_greater_k

  pub Has-append :
      (it : ℕ) (a b : ℤ) (xs ys : List (CacheItem V))
      → Has it a b (xs ++ ys)
      → Has it a b xs ⊎ Has it a b ys
  Has-append it a b [] ys h = inr h
  Has-append it a b (x ∷ xs) ys (inl e) = inl (inl e)
  Has-append it a b (x ∷ xs) ys (inr h) = elim (Has-append it a b xs ys h) [
    | inl k ↦ inl (inr k)
    | inr k ↦ inr k
  ]

  Has-before :
      (it : ℕ) (a b : ℤ) (xs ys : List (CacheItem V)) → Has it a b xs → Has it a b (xs ++ ys)
  Has-before it a b [] ys h = absurd h
  Has-before it a b (x ∷ xs) ys (inl e) = inl e
  Has-before it a b (x ∷ xs) ys (inr h) = inr (Has-before it a b xs ys h)

  Has-behind :
      (it : ℕ) (a b : ℤ) (xs ys : List (CacheItem V)) → Has it a b ys → Has it a b (xs ++ ys)
  Has-behind it a b [] ys h = h
  Has-behind it a b (x ∷ xs) ys h = inr (Has-behind it a b xs ys h)

  times-append :
      (it : ℕ) (xs ys : List (CacheItem V)) → times it (xs ++ ys) ≡ times it xs + times it ys
  unfolding times
  times-append it [] ys = omega arith
  times-append it (x ∷ xs) ys = omega (arith, times-append it xs ys)

  pub Same-append_right : (xs ys zs : List (CacheItem V)) → Same xs ys → Same (xs ++ zs) (ys ++ zs)
  Same-append_right xs ys zs h = record {
    all = λ P k. All-append P ys zs (h.all P (All-before P xs zs k)) (All-behind P xs zs k);
    has = λ it a b k. elim (Has-append it a b xs zs k) [
      | inl l ↦ Has-before it a b ys zs (h.has it a b l)
      | inr l ↦ Has-behind it a b ys zs l
    ];
    count = λ it. omega (arith, times-append it xs zs, times-append it ys zs, h.count it);
    number = omega (arith, length-append xs zs, length-append ys zs, h.number);
  }

  pub Same-append_left : (xs ys zs : List (CacheItem V)) → Same ys zs → Same (xs ++ ys) (xs ++ zs)
  Same-append_left [] ys zs h = h
  Same-append_left (x ∷ xs) ys zs h =
      Same-cons x (xs ++ ys) (xs ++ zs) (Same-append_left xs ys zs h)

  -- What an access leaves: every key that was cached still is.
  pub record Kept (c c' : BlockCache V) : Type ℓ where
    pub indexed : IsIndexed c'
    pub keys :
        (a b : ℤ) (it : ℕ) → c.cache_map a b ≡ some it → (it' : ℕ) × (c'.cache_map a b ≡ some it')
    pub cached_eq : c'.cached ≡ c.cached

  update_less-Kept :
      (n : CacheItem V) (rest : List (CacheItem V)) (c : BlockCache V)
      → IsIndexed c
      → Same c.cache_list_less_k (n ∷ rest)
      → (c' : BlockCache V) × (update_less n rest c ≡ ok c') × Kept c c'
  unfolding update_less map_set counted
  update_less-Kept n rest c h s =
      let (low, lows) = s.all (λ (x : CacheItem V). x.access_count < c.k) h.few in
      let first =
        Index-Same (c.cache_list_less_k ++ c.cache_list_greater_k)
          (n ∷ (rest ++ c.cache_list_greater_k)) c.cache_map c.cached c.fresh
          (Same-append_right c.cache_list_less_k (n ∷ rest) c.cache_list_greater_k s) h.index in
      let again =
        Index-counted n (rest ++ c.cache_list_greater_k) c.cache_map c.cached c.fresh first in
      elim (Bool-cases (ltb ((n.access_count + 1) % 2 ^ 64) c.k)) [
        | inl e ↦ (
          record c { cache_list_less_k = counted n ∷ rest },
          rw e refl,
          record {
            indexed = record {
              index = again;
              few = (ground arith, lows);
              many = h.many;
              fits = h.fits;
              some_room = h.some_room;
              twice = h.twice;
              k_fits = h.k_fits;
            };
            keys = λ a b it q. (it, q);
            cached_eq = refl;
          },
        )
        | inr e ↦
            let full : ((n.access_count + 1) % 2 ^ 64 == c.k) ≡ true = ground arith in
            let n' = record (counted n) { node = c.fresh } in
            let map' = map_set n.sst_id n.block_id (some c.fresh) c.cache_map in
            (
              record c {
                cache_list_less_k = rest;
                cache_list_greater_k = n' ∷ c.cache_list_greater_k;
                cache_map = map';
                fresh = c.fresh + 1;
              },
              rw (e, full) refl,
              record {
                indexed = record {
                  index =
                      Index-Same (n' ∷ (rest ++ c.cache_list_greater_k))
                        (rest ++ n' ∷ c.cache_list_greater_k) map' c.cached (c.fresh + 1)
                        (Same-middle n' rest c.cache_list_greater_k)
                        (Index-move (counted n) (rest ++ c.cache_list_greater_k) c.cache_map
                          c.cached c.fresh again);
                  few = lows;
                  many = (ground arith, h.many);
                  fits = h.fits;
                  some_room = h.some_room;
                  twice = h.twice;
                  k_fits = h.k_fits;
                };
                keys = λ a b it q. elim (Bool-cases (int_eq a n.sst_id && int_eq b n.block_id)) [
                  | inl d ↦ (c.fresh, rw d refl)
                  | inr d ↦ (it, rw d q)
                ];
                cached_eq = refl;
              },
            )
      ]

  update_greater-Kept :
      (n : CacheItem V) (rest : List (CacheItem V)) (c : BlockCache V)
      → IsIndexed c
      → CountsFit c
      → Same c.cache_list_greater_k (n ∷ rest)
      → (c' : BlockCache V) × (update_greater n rest c ≡ ok c') × Kept c c'
  unfolding update_greater counted
  update_greater-Kept n rest c h w s =
      let (room, rooms) = s.all (λ (x : CacheItem V). x.access_count + 1 < 2 ^ 64) w in
      let (high, highs) = s.all (λ (x : CacheItem V). c.k ≤ x.access_count) h.many in
      let less = c.cache_list_less_k in
      let first =
        Index-Same (less ++ n ∷ rest) (n ∷ (less ++ rest)) c.cache_map c.cached c.fresh
          (Same-back n less rest)
          (Index-Same (less ++ c.cache_list_greater_k) (less ++ n ∷ rest) c.cache_map c.cached
            c.fresh (Same-append_left less c.cache_list_greater_k (n ∷ rest) s) h.index) in
      let above : ltb c.k ((n.access_count + 1) % 2 ^ 64) ≡ true = ground arith in
      (
        record c { cache_list_greater_k = counted n ∷ rest },
        rw above refl,
        record {
          indexed = record {
            index =
                Index-Same (counted n ∷ (less ++ rest)) (less ++ counted n ∷ rest) c.cache_map
                  c.cached c.fresh (Same-middle (counted n) less rest)
                  (Index-counted n (less ++ rest) c.cache_map c.cached c.fresh first);
            few = h.few;
            many = (omega (arith, high), highs);
            fits = h.fits;
            some_room = h.some_room;
            twice = h.twice;
            k_fits = h.k_fits;
          };
          keys = λ a b it q. (it, q);
          cached_eq = refl;
        },
      )

  pub take_node-Has :
      (it : ℕ) (a b : ℤ) (xs : List (CacheItem V)) → Has it a b xs → take_node it xs ≡ none → ⊥
  unfolding take_node
  take_node-Has it a b [] h e = h
  take_node-Has it a b (x ∷ xs) h e = go h (take_node it xs) refl (take_node-Has it a b xs)
    where
      go :
          Has it a b (x ∷ xs)
          → (r : Option (CacheItem V × List (CacheItem V))) → take_node it xs ≡ r
          → (Has it a b xs → take_node it xs ≡ none → ⊥)
          → ⊥
      go (inl (d, k, l)) r q ih =
          let here : (x.node == it) ≡ true = ground arith in
          let taken : take_node it (x ∷ xs) ≡ some (x, xs) = rw here refl in cc (taken, e)
      go (inr k) none q ih = ih k q
      go (inr k) (some (m, ns)) q ih = elim (Bool-cases (x.node == it)) [
        | inl d ↦ let taken : take_node it (x ∷ xs) ≡ some (x, xs) = rw d refl in cc (taken, e)
        | inr d ↦
            let taken : take_node it (x ∷ xs) ≡ some (m, x ∷ ns) = rw (d, q) refl in cc (taken, e)
      ]

  -- An access through an iterator of the map.
  pub update_access_count-Kept :
      (c : BlockCache V) (it : ℕ) (a b : ℤ)
      → IsIndexed c
      → CountsFit c
      → c.cache_map a b ≡ some it
      → (c' : BlockCache V) × (update_access_count it c ≡ ok c') × Kept c c'
  unfolding update_access_count
  update_access_count-Kept c it a b h w e =
      in_less (take_node it c.cache_list_less_k) refl (take_node it c.cache_list_greater_k) refl
    where
      in_less :
          (r : Option (CacheItem V × List (CacheItem V)))
          → take_node it c.cache_list_less_k ≡ r
          → (t : Option (CacheItem V × List (CacheItem V)))
          → take_node it c.cache_list_greater_k ≡ t
          → (c' : BlockCache V) × (update_access_count it c ≡ ok c') × Kept c c'
      in_less (some (n, rest)) q t p =
          let (c', u, k) =
            update_less-Kept n rest c h (take_node-Same it c.cache_list_less_k n rest q) in
          (c', rw (update_access_count, q) u, k)
      in_less none q (some (n, rest)) p =
          let (c', u, k) =
            update_greater-Kept n rest c h w (take_node-Same it c.cache_list_greater_k n rest p) in
          (c', rw (update_access_count, q, p) u, k)
      in_less none q none p =
          absurd
            (elim (Has-append it a b c.cache_list_less_k c.cache_list_greater_k
              (h.index.sound a b it e)) [
                | inl k ↦ take_node-Has it a b c.cache_list_less_k k q
                | inr k ↦ take_node-Has it a b c.cache_list_greater_k k p
              ])
