-- ===== src/BlockCache/Moves.antt =====
-- Nodes that are taken out of a list and put into another.
use mini_redis.Common.Ints.{ℤ, int_eq, same_key_eq, same_key_refl, same_key_true}
use mathlib.Core.Path.{subst, fun_ext}
use mini_redis.Common.{
  ℕ, ◌+◌, ◌-◌, ◌≡◌, refl, sym, ◌∙◌, inl, inr, List, [], ◌∷◌, false, ◌&&◌, arith,
}
use mini_redis.Common.{Bool-cases, Option, none, some, some-inj, All, ◌==◌, pop_back}
use mini_redis.BlockCache.{CacheItem, map_set, take_node}
use mini_redis.BlockCache.Index.{
  Has, times, Same, Same-refl, Same-trans, Same-cons, Same-swap, Index, Index-insert,
}

module _ {ℓ} {V : Type ℓ} where
  complete-erase :
      (n : CacheItem V) (m : ℤ → ℤ → Option ℕ) (xs : List (CacheItem V))
      → m n.sst_id n.block_id ≡ some n.node
      → times n.node xs ≡ 0
      → All (λ (x : CacheItem V). m x.sst_id x.block_id ≡ some x.node) xs
      → All
          (λ (x : CacheItem V).
            map_set n.sst_id n.block_id none m x.sst_id x.block_id ≡ some x.node)
          xs
  unfolding map_set times
  complete-erase n m [] e t h = tt
  complete-erase n m (x ∷ xs) e t (h, hs) = (
    elim (Bool-cases (int_eq x.sst_id n.sst_id && int_eq x.block_id n.block_id)) [
      | inr d ↦ rw d h
      | inl d ↦
          let (sa, sb) = same_key_eq x.sst_id x.block_id n.sst_id n.block_id d in
          let same : x.node ≡ n.node = some-inj (cc (h, e, sa, sb)) in
          absurd (ground (arith, t, same))
    ],
    complete-erase n m xs e (ground (arith, t)) hs,
  )

  pub Index-erase :
      (n : CacheItem V) (xs : List (CacheItem V)) (m : ℤ → ℤ → Option ℕ) (cached fresh : ℕ)
      → Index (n ∷ xs) m cached fresh
      → Index xs (map_set n.sst_id n.block_id none m) (cached - 1) fresh
  unfolding map_set times
  Index-erase n xs m cached fresh h = record {
    complete = complete-erase n m xs h.complete.0 (ground (arith, h.once n.node)) h.complete.1;
    sound = sound;
    once = λ it. omega (arith, h.once it);
    old = h.old.1;
    number = omega (arith, h.number);
  }
    where
      sound : (a b : ℤ) (it : ℕ) → map_set n.sst_id n.block_id none m a b ≡ some it → Has it a b xs
      sound a b it q = elim (Bool-cases (int_eq a n.sst_id && int_eq b n.block_id)) [
        | inl d ↦
            let gone : map_set n.sst_id n.block_id none m a b ≡ none = rw d refl in
            absurd (cc (gone, q))
        | inr d ↦ other d (h.sound a b it (sym (rw d refl) ∙ q))
      ]
        where
          other :
              (int_eq a n.sst_id && int_eq b n.block_id) ≡ false
              → Has it a b (n ∷ xs)
              → Has it a b xs
          other d (inl (e, sa, sb)) = absurd (cc (d, same_key_true a b n.sst_id n.block_id sa sb))
          other d (inr k) = k

  -- A node that is copied to a new place.
  pub Index-move :
      (n : CacheItem V) (xs : List (CacheItem V)) (m : ℤ → ℤ → Option ℕ) (cached fresh : ℕ)
      → Index (n ∷ xs) m cached fresh
      → Index
          (record n { node = fresh } ∷ xs)
          (map_set n.sst_id n.block_id (some fresh) m)
          cached
          (fresh + 1)
  unfolding map_set
  Index-move n xs m cached fresh h =
      let moved =
        Index-insert (record n { node = fresh }) xs (map_set n.sst_id n.block_id none m)
          (cached - 1) fresh refl (rw (same_key_refl n.sst_id n.block_id) refl)
          (Index-erase n xs m cached fresh h) in
      let number : cached - 1 + 1 ≡ cached = omega (arith, h.number) in
      subst
        (λ (t : ℕ).
          Index (record n { node = fresh } ∷ xs) (map_set n.sst_id n.block_id (some fresh) m) t
            (fresh + 1))
        number
        (subst
          (λ (t : ℤ → ℤ → Option ℕ).
            Index (record n { node = fresh } ∷ xs) t (cached - 1 + 1) (fresh + 1))
          (fun_ext (λ a. fun_ext (λ b.
            elim (Bool-cases (int_eq a n.sst_id && int_eq b n.block_id)) [
              | inl d ↦ rw d refl
              | inr d ↦ rw d refl
            ])))
          moved)

  pub take_node-Same :
      (it : ℕ) (xs : List (CacheItem V)) (n : CacheItem V) (rest : List (CacheItem V))
      → take_node it xs ≡ some (n, rest)
      → Same xs (n ∷ rest)
  unfolding take_node
  take_node-Same it [] n rest e = absurd (cc)
  take_node-Same it (x ∷ xs) n rest e = go (take_node it xs) refl (take_node-Same it xs)
    where
      go :
          (r : Option (CacheItem V × List (CacheItem V)))
          → take_node it xs ≡ r
          → ((m : CacheItem V) (ns : List (CacheItem V))
              → take_node it xs ≡ some (m, ns)
              → Same xs (m ∷ ns))
          → Same (x ∷ xs) (n ∷ rest)
      go r q ih = elim (Bool-cases (x.node == it)) [
        | inl d ↦
            let both = some-inj (sym (rw d refl) ∙ e) in
            subst (λ (t : CacheItem V × List (CacheItem V)). Same (x ∷ xs) (t.0 ∷ t.1)) both
              (Same-refl (x ∷ xs))
        | inr d ↦ behind r q ih d
      ]
        where
          behind :
              (r : Option (CacheItem V × List (CacheItem V)))
              → take_node it xs ≡ r
              → ((m : CacheItem V) (ns : List (CacheItem V))
                  → take_node it xs ≡ some (m, ns)
                  → Same xs (m ∷ ns))
              → (x.node == it) ≡ false
              → Same (x ∷ xs) (n ∷ rest)
          behind none q ih d =
              let nothing : take_node it (x ∷ xs) ≡ none = rw (d, q) refl in
              absurd (cc (nothing, e))
          behind (some (m, ns)) q ih d =
              let both = some-inj (sym (rw (d, q) refl) ∙ e) in
              subst (λ (t : CacheItem V × List (CacheItem V)). Same (x ∷ xs) (t.0 ∷ t.1)) both
                (Same-trans (x ∷ xs) (x ∷ m ∷ ns) (m ∷ x ∷ ns) (Same-cons x xs (m ∷ ns) (ih m ns q))
                  (Same-swap x m ns))

  pub pop_back-Same :
      (n : CacheItem V) (ns : List (CacheItem V))
      → Same (n ∷ ns) ((pop_back n ns).1 ∷ (pop_back n ns).0)
  pop_back-Same n [] = Same-refl (n ∷ [])
  pop_back-Same n (m ∷ ns) =
      let (rest, last) = pop_back m ns in
      Same-trans (n ∷ m ∷ ns) (n ∷ last ∷ rest) (last ∷ n ∷ rest)
        (Same-cons n (m ∷ ns) (last ∷ rest) (pop_back-Same m ns)) (Same-swap n last rest)
