-- ===== src/Bloom/Contains.antt =====
-- The filter has no false negatives.
use mini_redis.Common.{
  ℕ, zero, suc, ◌+◌, ◌*◌, ◌%◌, ◌^◌, ◌<◌, ◌≡◌, refl, sym, ap, ◌∙◌, List, [], ◌∷◌, Bool, true, false,
  arith,
}
use mini_redis.Common.{Outcome, ok, ◌>>=◌, ◌==◌, length, All}
use mini_redis.Common.Keys.{Bytes}
use mini_redis.Bloom.{
  BloomFilter, bit_at, set_bit, hash, hash1, hash2, add_loop, add, contains_loop, possibly_contains,
}

-- Every bit that is set stays set, and their number stays.
abbrev Grows : List Bool → List Bool → Type 0
Grows bits bits' =
    (length bits' ≡ length bits) × ((i : ℕ) → bit_at i bits ≡ ok true → bit_at i bits' ≡ ok true)

Grows-trans : (a b c : List Bool) → Grows a b → Grows b c → Grows a c
Grows-trans a b c (p, f) (q, g) = (q ∙ p, λ i h. g i (f i h))

set_bit-ok :
    (idx : ℕ) (bits : List Bool)
    → idx < length bits
    → (bits' : List Bool) × (set_bit idx bits ≡ ok bits')
      × (bit_at idx bits' ≡ ok true)
      × Grows bits bits'
unfolding set_bit bit_at
set_bit-ok idx [] h = absurd (omega arith)
set_bit-ok zero (b ∷ bits) h = (true ∷ bits, refl, refl, (refl, kept))
  where
    kept : (i : ℕ) → bit_at i (b ∷ bits) ≡ ok true → bit_at i (true ∷ bits) ≡ ok true
    kept zero h = refl
    kept (suc i) h = h
set_bit-ok (suc idx) (b ∷ bits) h =
    let (bits', e, at, (l, g)) = set_bit-ok idx bits (omega arith) in
    (b ∷ bits', rw e refl, at, (ap suc l, λ i. kept i bits' g))
  where
    kept :
        (i : ℕ) (bits' : List Bool)
        → ((j : ℕ) → bit_at j bits ≡ ok true → bit_at j bits' ≡ ok true)
        → bit_at i (b ∷ bits) ≡ ok true
        → bit_at i (b ∷ bits') ≡ ok true
    kept zero bits' g h = h
    kept (suc i) bits' g h = g i h

ok-inj : {i j : ℕ} → Outcome.ok i ≡ ok j → i ≡ j
ok-inj h = cc

module _ (std_hash : Bytes → ℕ) where
  -- A filter with at least one bit, and as many as it says.
  pub record IsFilter (f : BloomFilter) : Type 0 where
    pub some_bits : 0 < f.num_bits
    pub bits_agree : length f.bits ≡ f.num_bits

  hash-ok :
      (f : BloomFilter) (key : Bytes) (idx : ℕ)
      → 0 < f.num_bits
      → (i : ℕ) × (hash std_hash f key idx ≡ ok i) × (i < f.num_bits)
  unfolding hash
  hash-ok f key idx h = (
    (hash1 std_hash key + idx * hash2 std_hash key) % 2 ^ 64 % f.num_bits,
    rw full refl,
    omega (arith, h),
  )
    where
      full : (f.num_bits == 0) ≡ false
      full = ground (arith, h)

  -- The bits of the key from `idx` on are set.
  abbrev AllSet : BloomFilter → Bytes → ℕ → ℕ → List Bool → Type 0
  AllSet f key n idx bits =
      (k i : ℕ) → k < n → hash std_hash f key (idx + k) ≡ ok i → bit_at i bits ≡ ok true

  AllSet-suc :
      (f : BloomFilter) (key : Bytes) (n idx i : ℕ) (bits : List Bool)
      → hash std_hash f key idx ≡ ok i
      → bit_at i bits ≡ ok true
      → AllSet f key n (idx + 1) bits
      → AllSet f key (suc n) idx bits
  AllSet-suc f key n idx i bits e at all zero j l h =
      let same : i ≡ j = ok-inj (sym e ∙ ap (hash std_hash f key) (omega arith) ∙ h) in
      ap (λ t. bit_at t bits) (sym same) ∙ at
  AllSet-suc f key n idx i bits e at all (suc k) j l h =
      all k j (omega arith) (ap (hash std_hash f key) (omega arith) ∙ h)

  add_loop-ok :
      (f : BloomFilter) (key : Bytes) (n idx : ℕ) (bits : List Bool)
      → 0 < f.num_bits
      → length bits ≡ f.num_bits
      → (bits' : List Bool) × (add_loop std_hash f key n idx bits ≡ ok bits')
        × AllSet f key n idx bits'
        × Grows bits bits'
  unfolding add_loop
  add_loop-ok f key zero idx bits p l =
      (bits, refl, λ k i h. absurd (omega arith), (refl, λ i h. h))
  add_loop-ok f key (suc n) idx bits p l =
      let (i, e, lt) = hash-ok f key idx p in
      let (marked, e', at, g) = set_bit-ok i bits (omega arith) in
      let (bits', e'', all, g') = add_loop-ok f key n (idx + 1) marked p (g.0 ∙ l) in
      (
        bits',
        rw (e, e', e'') refl,
        AllSet-suc f key n idx i bits' e (g'.1 i at) all,
        Grows-trans bits marked bits' g g',
      )

  contains_loop-ok :
      (f : BloomFilter) (key : Bytes) (n idx : ℕ)
      → 0 < f.num_bits
      → AllSet f key n idx f.bits
      → contains_loop std_hash f key n idx ≡ ok true
  unfolding contains_loop
  contains_loop-ok f key zero idx p all = refl
  contains_loop-ok f key (suc n) idx p all =
      let (i, e, lt) = hash-ok f key idx p in
      let first : bit_at i f.bits ≡ ok true =
        all 0 i (omega arith) (ap (hash std_hash f key) (omega arith) ∙ e) in
      rw
        (
          e,
          first,
          contains_loop-ok f key n (idx + 1) p
              (λ k j l h. all (suc k) j (omega arith) (ap (hash std_hash f key) (omega arith) ∙ h)),
        )
        refl

  -- The keys in order.
  unfoldable pub add_all : BloomFilter → List Bytes → Outcome BloomFilter
  add_all f [] = ok f
  add_all f (key ∷ keys) = do f ← add std_hash f key; add_all f keys

  -- The filter has all bits of the key set.
  record Has (f : BloomFilter) (key : Bytes) : Type 0 where
    filter : IsFilter f
    all_set : AllSet f key f.num_hashes 0 f.bits

  add-Has :
      (f : BloomFilter) (key : Bytes)
      → IsFilter f
      → (f' : BloomFilter) × (add std_hash f key ≡ ok f')
        × Has f' key
        × ((other : Bytes) → Has f other → Has f' other)
  unfolding add hash
  add-Has f key h =
      let (bits, e, all, (l, g)) =
        add_loop-ok f key f.num_hashes 0 f.bits h.some_bits h.bits_agree in
      let filter : IsFilter (record f { bits = bits }) = record {
        some_bits = h.some_bits;
        bits_agree = l ∙ h.bits_agree;
      } in
      (
        record f { bits = bits },
        rw e refl,
        record { filter = filter; all_set = all },
        λ other k. record { filter = filter; all_set = λ n i lt e'. g i (k.all_set n i lt e') },
      )

  add_all-Has :
      (f : BloomFilter) (keys : List Bytes)
      → IsFilter f
      → (f' : BloomFilter) × (add_all f keys ≡ ok f')
        × All (Has f') keys
        × ((other : Bytes) → Has f other → Has f' other)
  unfolding add_all
  add_all-Has f [] h = (f, refl, tt, λ other k. k)
  add_all-Has f (key ∷ keys) h =
      let (f', e, has, keeps) = add-Has f key h in
      let (f'', e', all, keeps') = add_all-Has f' keys has.filter in
      (f'', rw (e, e') refl, (keeps' key has, all), λ other k. keeps' other (keeps other k))

  contains-All :
      (f : BloomFilter) (keys : List Bytes)
      → All (Has f) keys
      → All (λ key. possibly_contains std_hash f key ≡ ok true) keys
  unfolding possibly_contains
  contains-All f [] h = tt
  contains-All f (key ∷ keys) (h, hs) =
      (contains_loop-ok f key f.num_hashes 0 h.filter.some_bits h.all_set, contains-All f keys hs)

  -- No false negatives: adding keys to a filter that has a bit succeeds, and the filter then answers
  -- true for each of them, whatever the hash function.
  pub add_all-possibly_contains :
      (f : BloomFilter) (keys : List Bytes)
      → IsFilter f
      → (f' : BloomFilter) × (add_all f keys ≡ ok f')
        × All (λ key. possibly_contains std_hash f' key ≡ ok true) keys
  add_all-possibly_contains f keys h =
      let (f', e, all, keeps) = add_all-Has f keys h in (f', e, contains-All f' keys all)
