-- ===== src/BlockCache/Index.antt =====
-- The map of the cache against the nodes of its two lists.
use mini_redis.Common.Ints.{ℤ, int_eq, same_key_eq, same_key_refl}
use mini_redis.Common.{
  ℕ, suc, ◌+◌, ◌≤◌, ◌<◌, ◌≡◌, ◌⊎◌, refl, sym, ap, ◌∙◌, inl, inr, List, [], ◌∷◌, ◌++◌, false, ◌&&◌,
  arith,
}
use mini_redis.Common.{Bool-cases, Option, none, some, some-inj, All, ◌==◌, if◌then◌else◌, length}
use mini_redis.BlockCache.{CacheItem, map_set, counted}

module _ {ℓ} {V : Type ℓ} where
  -- One of the nodes is `it` and has the key.
  abbrev pub Has : ℕ → ℤ → ℤ → List (CacheItem V) → Type 0
  Has it a b [] = ⊥
  Has it a b (n ∷ ns) = ((n.node ≡ it) × (n.sst_id ≡ a) × (n.block_id ≡ b)) ⊎ Has it a b ns

  unfoldable pub times : ℕ → List (CacheItem V) → ℕ
  times it [] = 0
  times it (n ∷ ns) = (if n.node == it then 1 else 0) + times it ns

  -- The same nodes in another order.
  pub record Same (xs ys : List (CacheItem V)) : Type (1 ⊔ ℓ) where
    pub all : (P : CacheItem V → Type 0) → All P xs → All P ys
    pub has : (it : ℕ) (a b : ℤ) → Has it a b xs → Has it a b ys
    pub count : (it : ℕ) → times it ys ≡ times it xs
    pub number : length ys ≡ length xs

  pub Same-refl : (xs : List (CacheItem V)) → Same xs xs
  Same-refl xs = record { all = λ P h. h; has = λ it a b h. h; count = λ it. refl; number = refl }

  pub Same-trans : (xs ys zs : List (CacheItem V)) → Same xs ys → Same ys zs → Same xs zs
  Same-trans xs ys zs h k = record {
    all = λ P x. k.all P (h.all P x);
    has = λ it a b x. k.has it a b (h.has it a b x);
    count = λ it. k.count it ∙ h.count it;
    number = k.number ∙ h.number;
  }

  pub Same-cons :
      (n : CacheItem V) (xs ys : List (CacheItem V)) → Same xs ys → Same (n ∷ xs) (n ∷ ys)
  unfolding times
  Same-cons n xs ys h = record {
    all = λ P (x, k). (x, h.all P k);
    has = λ it a b. has it a b;
    count = λ it. ap (λ t. (if n.node == it then 1 else 0) + t) (h.count it);
    number = ap suc h.number;
  }
    where
      has : (it : ℕ) (a b : ℤ) → Has it a b (n ∷ xs) → Has it a b (n ∷ ys)
      has it a b (inl e) = inl e
      has it a b (inr k) = inr (h.has it a b k)

  pub Same-swap : (m n : CacheItem V) (xs : List (CacheItem V)) → Same (m ∷ n ∷ xs) (n ∷ m ∷ xs)
  unfolding times
  Same-swap m n xs = record {
    all = λ P (x, (y, k)). (y, (x, k));
    has = λ it a b. has it a b;
    count = λ it. omega arith;
    number = refl;
  }
    where
      has : (it : ℕ) (a b : ℤ) → Has it a b (m ∷ n ∷ xs) → Has it a b (n ∷ m ∷ xs)
      has it a b (inl e) = inr (inl e)
      has it a b (inr (inl e)) = inl e
      has it a b (inr (inr k)) = inr (inr k)

  pub Same-middle :
      (n : CacheItem V) (xs ys : List (CacheItem V)) → Same (n ∷ (xs ++ ys)) (xs ++ n ∷ ys)
  Same-middle n [] ys = Same-refl (n ∷ ys)
  Same-middle n (m ∷ xs) ys =
      Same-trans (n ∷ m ∷ (xs ++ ys)) (m ∷ n ∷ (xs ++ ys)) (m ∷ (xs ++ n ∷ ys))
        (Same-swap n m (xs ++ ys))
        (Same-cons m (n ∷ (xs ++ ys)) (xs ++ n ∷ ys) (Same-middle n xs ys))

  pub Same-back :
      (n : CacheItem V) (xs ys : List (CacheItem V)) → Same (xs ++ n ∷ ys) (n ∷ (xs ++ ys))
  Same-back n [] ys = Same-refl (n ∷ ys)
  Same-back n (m ∷ xs) ys =
      Same-trans (m ∷ (xs ++ n ∷ ys)) (m ∷ n ∷ (xs ++ ys)) (n ∷ m ∷ (xs ++ ys))
        (Same-cons m (xs ++ n ∷ ys) (n ∷ (xs ++ ys)) (Same-back n xs ys)) (Same-swap m n (xs ++ ys))

  -- The map holds each node under its key, and nothing else.
  pub record Index (items : List (CacheItem V)) (m : ℤ → ℤ → Option ℕ) (cached fresh : ℕ)
      : Type ℓ where
    pub complete : All (λ (n : CacheItem V). m n.sst_id n.block_id ≡ some n.node) items
    pub sound : (a b : ℤ) (it : ℕ) → m a b ≡ some it → Has it a b items
    pub once : (it : ℕ) → times it items ≤ 1
    pub old : All (λ (n : CacheItem V). n.node < fresh) items
    pub number : cached ≡ length items

  pub Index-Same :
      (xs ys : List (CacheItem V)) (m : ℤ → ℤ → Option ℕ) (cached fresh : ℕ)
      → Same xs ys
      → Index xs m cached fresh
      → Index ys m cached fresh
  Index-Same xs ys m cached fresh s h = record {
    complete = s.all _ h.complete;
    sound = λ a b it e. s.has it a b (h.sound a b it e);
    once = λ it. omega (arith, h.once it, s.count it);
    old = s.all _ h.old;
    number = h.number ∙ sym s.number;
  }

  pub Index-counted :
      (n : CacheItem V) (xs : List (CacheItem V)) (m : ℤ → ℤ → Option ℕ) (cached fresh : ℕ)
      → Index (n ∷ xs) m cached fresh
      → Index (counted n ∷ xs) m cached fresh
  unfolding counted times
  Index-counted n xs m cached fresh h = record {
    complete = h.complete;
    sound = λ a b it e. h.sound a b it e;
    once = h.once;
    old = h.old;
    number = h.number;
  }

  -- What is new is not in the lists.
  times-fresh :
      (fresh : ℕ) (xs : List (CacheItem V))
      → All (λ (n : CacheItem V). n.node < fresh) xs
      → times fresh xs ≡ 0
  unfolding times
  times-fresh fresh [] h = refl
  times-fresh fresh (n ∷ xs) (h, hs) =
      let ih = times-fresh fresh xs hs in
      let other : (n.node == fresh) ≡ false = ground arith in rw other (omega (arith, ih))

  old-later :
      (fresh : ℕ) (xs : List (CacheItem V))
      → All (λ (n : CacheItem V). n.node < fresh) xs
      → All (λ (n : CacheItem V). n.node < fresh + 1) xs
  old-later fresh [] h = tt
  old-later fresh (n ∷ xs) (h, hs) = (omega (arith, h), old-later fresh xs hs)

  -- No node has a key that the map does not hold.
  complete-set :
      (a b : ℤ) (it : Option ℕ) (m : ℤ → ℤ → Option ℕ) (xs : List (CacheItem V))
      → m a b ≡ none
      → All (λ (n : CacheItem V). m n.sst_id n.block_id ≡ some n.node) xs
      → All (λ (n : CacheItem V). map_set a b it m n.sst_id n.block_id ≡ some n.node) xs
  unfolding map_set
  complete-set a b it m [] e h = tt
  complete-set a b it m (n ∷ xs) e (h, hs) = (
    elim (Bool-cases (int_eq n.sst_id a && int_eq n.block_id b)) [
      | inr d ↦ rw d h
      | inl d ↦ let (sa, sb) = same_key_eq n.sst_id n.block_id a b d in absurd (cc (h, e, sa, sb))
    ],
    complete-set a b it m xs e hs,
  )

  pub Index-insert :
      (n : CacheItem V) (xs : List (CacheItem V)) (m : ℤ → ℤ → Option ℕ) (cached fresh : ℕ)
      → n.node ≡ fresh
      → m n.sst_id n.block_id ≡ none
      → Index xs m cached fresh
      → Index (n ∷ xs) (map_set n.sst_id n.block_id (some fresh) m) (cached + 1) (fresh + 1)
  unfolding map_set times
  Index-insert n xs m cached fresh e absent h = record {
    complete = (
      rw (same_key_refl n.sst_id n.block_id) (ap some (sym e)),
      complete-set n.sst_id n.block_id (some fresh) m xs absent h.complete,
    );
    sound = sound;
    once = once;
    old = (omega (arith, e), old-later fresh xs h.old);
    number = omega (arith, h.number);
  }
    where
      sound :
          (a b : ℤ) (it : ℕ)
          → map_set n.sst_id n.block_id (some fresh) m a b ≡ some it
          → Has it a b (n ∷ xs)
      sound a b it q = elim (Bool-cases (int_eq a n.sst_id && int_eq b n.block_id)) [
        | inl d ↦
            let (sa, sb) = same_key_eq a b n.sst_id n.block_id d in
            inl (e ∙ some-inj (sym (rw d refl) ∙ q), sym sa, sym sb)
        | inr d ↦ inr (h.sound a b it (sym (rw d refl) ∙ q))
      ]

      once : (it : ℕ) → times it (n ∷ xs) ≤ 1
      once it = elim (Bool-cases (n.node == it)) [
        | inl d ↦
            let same : it ≡ fresh = ground arith in
            rw d (omega (arith, ap (λ t. times t xs) same, times-fresh fresh xs h.old))
        | inr d ↦ rw d (omega (arith, h.once it))
      ]
