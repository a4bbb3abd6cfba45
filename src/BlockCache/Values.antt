-- ===== src/BlockCache/Values.antt =====
-- A block that is written to its item: the nodes and the keys stay.
use mini_redis.Common.Ints.{ℤ}
use mini_redis.Common.{ℕ, suc, ◌≡◌, refl, sym, ap, ◌∙◌, inl, inr, List, [], ◌∷◌, ◌++◌, arith}
use mini_redis.Common.{Bool-cases, Option, All, ◌==◌, if◌then◌else◌, length}
use mini_redis.BlockCache.{CacheItem, set_block}
use mini_redis.BlockCache.Index.{Has, times, Index}

module _ {ℓ} {V : Type ℓ} where
  pub set_block-All :
      (P : CacheItem V → Type 0) (it : ℕ) (block : V)
      → ((n : CacheItem V) → P n → P (record n { cache_block = block }))
      → (xs : List (CacheItem V)) → All P xs
      → All P (set_block it block xs)
  unfolding set_block
  set_block-All P it block k [] h = tt
  set_block-All P it block k (n ∷ xs) (h, hs) = (
    elim (Bool-cases (n.node == it)) [ inl e ↦ rw e (k n h) | inr e ↦ rw e h ],
    set_block-All P it block k xs hs,
  )

  set_block-Has :
      (it : ℕ) (block : V) (xs : List (CacheItem V)) (i : ℕ) (a b : ℤ)
      → Has i a b xs
      → Has i a b (set_block it block xs)
  unfolding set_block
  set_block-Has it block (n ∷ xs) i a b (inl h) = elim (Bool-cases (n.node == it)) [
    | inl e ↦ rw e (inl h)
    | inr e ↦ rw e (inl h)
  ]
  set_block-Has it block [] i a b h = absurd h
  set_block-Has it block (n ∷ xs) i a b (inr h) = inr (set_block-Has it block xs i a b h)

  set_block-times :
      (it : ℕ) (block : V) (xs : List (CacheItem V)) (i : ℕ)
      → times i (set_block it block xs) ≡ times i xs
  unfolding set_block times
  set_block-times it block [] i = refl
  set_block-times it block (n ∷ xs) i =
      let ih = set_block-times it block xs i in
      elim (Bool-cases (n.node == it)) [ inl e ↦ rw (e, ih) refl | inr e ↦ rw (e, ih) refl ]

  set_block-length :
      (it : ℕ) (block : V) (xs : List (CacheItem V)) → length (set_block it block xs) ≡ length xs
  unfolding set_block
  set_block-length it block [] = refl
  set_block-length it block (n ∷ xs) = ap suc (set_block-length it block xs)

  pub set_block-append :
      (it : ℕ) (block : V) (xs ys : List (CacheItem V))
      → set_block it block (xs ++ ys) ≡ set_block it block xs ++ set_block it block ys
  unfolding set_block
  set_block-append it block [] ys = refl
  set_block-append it block (n ∷ xs) ys =
      ap (λ t. (if n.node == it then record n { cache_block = block } else n) ∷ t)
        (set_block-append it block xs ys)

  pub Index-set_block :
      (it : ℕ) (block : V) (xs : List (CacheItem V)) (m : ℤ → ℤ → Option ℕ) (cached fresh : ℕ)
      → Index xs m cached fresh
      → Index (set_block it block xs) m cached fresh
  Index-set_block it block xs m cached fresh h = record {
    complete = set_block-All _ it block (λ n p. p) xs h.complete;
    sound = λ a b i e. set_block-Has it block xs i a b (h.sound a b i e);
    once = λ i. omega (arith, h.once i, set_block-times it block xs i);
    old = set_block-All _ it block (λ n p. p) xs h.old;
    number = h.number ∙ sym (set_block-length it block xs);
  }
