-- ===== src/Transaction/Visible.antt =====
-- What the engine answers after a commit.
use mini_redis.Common.{ℕ, ◌<◌, ◌≡◌, refl, sym, ap, ◌∙◌, inl, inr, [], ◌∷◌, true, false, some, none}
use mini_redis.Common.{Bool, ok, Bool-cases, some-inj}
use mini_redis.Common.Keys.{Bytes, bytes_eq, bytes_eq_iff}
use mini_redis.Common.Maps.{StringMap, find}
use mini_redis.Engine.{EngineOps, shown}
use mini_redis.Transaction.Manager.{TranManager}
use mini_redis.Transaction.Context.{TranContext, returned, apply, commit, is_deferred}
use mini_redis.Transaction.Commit.{commit-applied, apply_writes-deferred}

-- A map has no key twice.
abbrev pub KeysDiffer : StringMap Bytes → Type 0
KeysDiffer [] = Unit {0}
KeysDiffer ((k, v) ∷ m) = (find k m ≡ none) × KeysDiffer m

module _ {ℓ} {E : Type ℓ} (ops : EngineOps E) where
  -- A put into the memory table is seen by its transaction, and nobody sees another under a key that
  -- is not empty and not the one put.
  pub record PutIsSeen : Type ℓ where
    pub get_same :
        (e : E) (x : ℕ) (xs v : Bytes) (id : ℕ)
        → 0 < id
        → ops.get (ops.memtable_put e (x ∷ xs) v id) (x ∷ xs) id ≡ shown v id
    pub get_other :
        (e : E) (k v : Bytes) (x : ℕ) (xs : Bytes) (id j : ℕ)
        → bytes_eq k (x ∷ xs) ≡ false
        → ops.get (ops.memtable_put e k v id) (x ∷ xs) j ≡ ops.get e (x ∷ xs) j

  get-apply_other :
      (laws : PutIsSeen) (id j : ℕ) (e : E) (x : ℕ) (xs : Bytes) (writes : StringMap Bytes)
      → find (x ∷ xs) writes ≡ none
      → ops.get (apply ops id e writes) (x ∷ xs) j ≡ ops.get e (x ∷ xs) j
  unfolding apply find
  get-apply_other laws id j e x xs [] h = refl
  get-apply_other laws id j e x xs ((k, v) ∷ writes) h = elim (Bool-cases (bytes_eq k (x ∷ xs))) [
    | inl s ↦
        let there : find (x ∷ xs) ((k, v) ∷ writes) ≡ some v = rw s refl in absurd (cc (there, h))
    | inr d ↦
        let behind : find (x ∷ xs) ((k, v) ∷ writes) ≡ find (x ∷ xs) writes = rw d refl in
        get-apply_other laws id j (ops.memtable_put e k v id) x xs writes (sym behind ∙ h)
        ∙ laws.get_other e k v x xs id j d
  ]

  get-apply :
      (laws : PutIsSeen) (id : ℕ) (e : E) (x : ℕ) (xs v : Bytes) (writes : StringMap Bytes)
      → 0 < id
      → KeysDiffer writes
      → find (x ∷ xs) writes ≡ some v
      → ops.get (apply ops id e writes) (x ∷ xs) id ≡ shown v id
  unfolding apply find
  get-apply laws id e x xs v [] p n h = absurd (cc)
  get-apply laws id e x xs v ((k, w) ∷ writes) p (n, ns) h =
      elim (Bool-cases (bytes_eq k (x ∷ xs))) [
        | inl s ↦
            let same = (bytes_eq_iff k (x ∷ xs)).0 s in
            let there : find (x ∷ xs) ((k, w) ∷ writes) ≡ some w = rw s refl in
            get-apply_other laws id id (ops.memtable_put e k w id) x xs writes
              (ap (λ t. find t writes) (sym same) ∙ n)
            ∙ ap (λ t. ops.get (ops.memtable_put e t w id) (x ∷ xs) id) same
            ∙ laws.get_same e x xs w id p
            ∙ ap (λ t. shown t id) (some-inj (sym there ∙ h))
        | inr d ↦
            let behind : find (x ∷ xs) ((k, w) ∷ writes) ≡ find (x ∷ xs) writes = rw d refl in
            get-apply laws id (ops.memtable_put e k w id) x xs v writes p ns (sym behind ∙ h)
      ]

  -- Where a put into the memory table is seen by its transaction and changes no other key: after a
  -- commit without test_fail that answers true, of a transaction with an id whose writes waited for
  -- it, the engine answers the transaction under each key that is not empty and that it has written
  -- with the value it wrote, or nothing where that is empty, and answers every other key that is
  -- not empty as before.
  pub get-commit :
      (laws : PutIsSeen) (synced : Bool) (c c' : TranContext) (m m' : TranManager) (e e' : E)
      → 0 < c.tranc_id
      → is_deferred c.isolation_level ≡ true
      → KeysDiffer c.temp_map
      → commit ops synced false c m e ≡ ok (returned true, c', m', e')
      → ((x : ℕ) (xs v : Bytes)
          → find (x ∷ xs) c.temp_map ≡ some v
          → ops.get e' (x ∷ xs) c.tranc_id ≡ shown v c.tranc_id)
        × ((x : ℕ) (xs : Bytes) (j : ℕ)
            → find (x ∷ xs) c.temp_map ≡ none
            → ops.get e' (x ∷ xs) j ≡ ops.get e (x ∷ xs) j)
  get-commit laws synced c c' m m' e e' p df n h =
      let applied =
        commit-applied ops synced false c c' m m' e e' h ∙ apply_writes-deferred ops c e df in
      (
        λ x xs v f.
            ap (λ t. ops.get t (x ∷ xs) c.tranc_id) applied
            ∙ get-apply laws c.tranc_id e x xs v c.temp_map p n f,
        λ x xs j f.
            ap (λ t. ops.get t (x ∷ xs) j) applied
            ∙ get-apply_other laws c.tranc_id j e x xs c.temp_map f,
      )
