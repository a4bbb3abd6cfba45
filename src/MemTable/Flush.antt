-- ===== src/MemTable/Flush.antt =====
-- Flushing the memory table, and the count of the frozen bytes.
use mathlib.Core.Path.{subst}
use mini_redis.Common.{pop_back}
use mini_redis.Common.{
  ℕ, ◌+◌, ◌%◌, ◌^◌, ◌<◌, ◌≡◌, ◌↔◌, refl, sym, ap, ◌∙◌, inl, inr, List, [], ◌∷◌, arith,
}
use mini_redis.Common.{Bool-cases, none, some, ok, >>=-eq-ok, ok-inj, some-inj, ltb, ◌==◌}
use mini_redis.Common.Keys.{Bytes}
use mini_redis.MemTable.Table.{TableOps}
use mini_redis.MemTable.{
  MemTable, frozen_cur_table, freeze_full, put_, put_all, put_batch, clear, pop_oldest, take_oldest,
  get_frozen_size,
}

module _ {ℓ κ} {D : Type κ} {T : Type ℓ} (ops : TableOps D T) where
  unfoldable pub frozen_sizes : List T → ℕ
  frozen_sizes [] = 0
  frozen_sizes (t ∷ ts) = ops.get_size t + frozen_sizes ts

  -- `frozen_bytes` counts the frozen tables, in 64 bits.
  abbrev pub IsCounted : MemTable T → Type 0
  IsCounted m = m.frozen_bytes ≡ frozen_sizes m.frozen_tables % 2 ^ 64

  frozen_sizes-pop_back :
      (t : T) (ts : List T)
      → frozen_sizes (t ∷ ts) ≡ frozen_sizes (pop_back t ts).0 + ops.get_size (pop_back t ts).1
  unfolding frozen_sizes
  frozen_sizes-pop_back t [] = omega arith
  frozen_sizes-pop_back t (u ∷ ts) = omega (arith, frozen_sizes-pop_back u ts)

  pub frozen_cur_table-IsCounted :
      (seed : D) (m : MemTable T) → IsCounted m → IsCounted (frozen_cur_table ops seed m)
  unfolding frozen_cur_table frozen_sizes
  frozen_cur_table-IsCounted seed m h = rw h (omega arith)

  pop_oldest-IsCounted :
      (m : MemTable T) (t : T) (ts : List T)
      → ops.get_size (pop_oldest ops m t ts).1 < 2 ^ 64
      → m.frozen_tables ≡ t ∷ ts
      → IsCounted m
      → IsCounted (pop_oldest ops m t ts).0
  unfolding pop_oldest
  pop_oldest-IsCounted m t ts small e h =
      let sum = ap frozen_sizes e ∙ frozen_sizes-pop_back t ts in omega (arith, small, sum, h)

  freeze_full-IsCounted :
      (seed : D) (limit : ℕ) (m : MemTable T)
      → IsCounted m
      → IsCounted (freeze_full ops seed limit m)
  unfolding freeze_full
  freeze_full-IsCounted seed limit m h =
      elim (Bool-cases (ltb limit (ops.get_size m.current_table))) [
        | inl e ↦ rw e (frozen_cur_table-IsCounted seed m h)
        | inr e ↦ rw e h
      ]

  put_all-IsCounted :
      (kvs : List (Bytes × Bytes)) (id : ℕ) (m m' : MemTable T)
      → put_all ops kvs id m ≡ ok m'
      → IsCounted m
      → IsCounted m'
  unfolding put_all put_
  put_all-IsCounted [] id m m' e h = subst (λ (t : MemTable T). IsCounted t) (ok-inj e) h
  put_all-IsCounted ((k, v) ∷ kvs) id m m' e h =
      let (m1, p, q) = >>=-eq-ok (put_ ops k v id m) (λ x. put_all ops kvs id x) e in
      let (t, p', q') =
        >>=-eq-ok (ops.put k v id m.current_table) (λ x. ok (record m { current_table = x })) p in
      put_all-IsCounted kvs id m1 m' q (subst (λ (x : MemTable T). IsCounted x) (ok-inj q') h)

  -- A batch that succeeds keeps the count of the frozen bytes, whether it freezes the table or not.
  pub put_batch-IsCounted :
      (seed : D) (limit : ℕ) (kvs : List (Bytes × Bytes)) (id : ℕ) (m m' : MemTable T)
      → put_batch ops seed limit kvs id m ≡ ok m'
      → IsCounted m
      → IsCounted m'
  unfolding put_batch
  put_batch-IsCounted seed limit kvs id m m' e h =
      let (m1, p, q) =
        >>=-eq-ok (put_all ops kvs id m) (λ x. ok (freeze_full ops seed limit x)) e in
      subst (λ (x : MemTable T). IsCounted x) (ok-inj q)
        (freeze_full-IsCounted seed limit m1 (put_all-IsCounted kvs id m m1 p h))

  -- After `clear` the count is right only where it was 0: it stays as it was.
  pub clear-IsCounted : (m : MemTable T) → IsCounted (clear ops m) ↔ (get_frozen_size ops m ≡ 0)
  unfolding clear frozen_sizes get_frozen_size
  clear-IsCounted m = (λ h. omega (arith, h), λ h. omega (arith, h))

  -- When a table is taken to be written, and its size fits 64 bits, what stays is counted.
  pub take_oldest-IsCounted :
      (seed : D) (m : MemTable T) (r : MemTable T × T)
      → ops.get_size r.1 < 2 ^ 64
      → take_oldest ops seed m ≡ some r
      → IsCounted m
      → IsCounted r.0
  unfolding take_oldest
  take_oldest-IsCounted seed m r small e h = go m.frozen_tables refl
    where
      go : (ts : List T) → m.frozen_tables ≡ ts → IsCounted r.0
      go [] q = elim (Bool-cases (ops.get_size m.current_table == 0)) [
        | inl z ↦
            let at : take_oldest ops seed m ≡ none = rw (take_oldest, q, z) refl in
            absurd (cc (at, e))
        | inr z ↦
            let at : take_oldest ops seed m
                ≡ some (pop_oldest ops (frozen_cur_table ops seed m) m.current_table []) =
              rw (take_oldest, q, z) refl in
            let same = some-inj (sym at ∙ e) in
            subst (λ (x : MemTable T × T). IsCounted x.0) same
              (pop_oldest-IsCounted (frozen_cur_table ops seed m) m.current_table []
                (subst (λ (x : MemTable T × T). ops.get_size x.1 < 2 ^ 64) (sym same) small)
                (unfold frozen_cur_table in ap (λ ts. m.current_table ∷ ts) q)
                (frozen_cur_table-IsCounted seed m h))
      ]
      go (t ∷ ts) q =
          let at : take_oldest ops seed m ≡ some (pop_oldest ops m t ts) =
            rw (take_oldest, q) refl in
          let same = some-inj (sym at ∙ e) in
          subst (λ (x : MemTable T × T). IsCounted x.0) same
            (pop_oldest-IsCounted m t ts
              (subst (λ (x : MemTable T × T). ops.get_size x.1 < 2 ^ 64) (sym same) small) q h)
