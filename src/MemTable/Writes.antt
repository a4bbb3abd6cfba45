-- ===== src/MemTable/Writes.antt =====
-- The writing operations of the memory table: what lookups answer afterwards.
use mini_redis.Common.{ℕ, ◌<◌, ◌≡◌, ◌⊎◌, refl, sym, ap, ◌∙◌, inl, inr, List, [], ◌∷◌, false, map}
use mini_redis.Common.{Bool-cases, some, Outcome, ok, ◌>>=◌, ltb}
use mini_redis.Common.Keys.{Bytes, bytes_eq}
use mini_redis.MemTable.Table.{
  Entry, TableOps, TableLaws, first_visible, put_version, first_visible-put_version,
  first_visible-put_other,
}
use mini_redis.MemTable.{
  MemTable, frozen_cur_table, freeze_full, put_, put, put_all, put_batch, remove_, remove_all,
  remove_batch, get,
}
use mini_redis.MemTable.Reads.{read_tables, MemStands, get-read_tables}

unfoldable pub put_versions : List (Bytes × Bytes) → ℕ → List Entry → List Entry
put_versions [] id entries = entries
put_versions ((k, v) ∷ kvs) id entries = put_versions kvs id (put_version (k, v, id) entries)

module _ {ℓ κ} {D : Type κ} {T : Type ℓ} (ops : TableOps D T) (laws : TableLaws ops) where
  -- The memory table that an operation leaves reads as these tables do.
  pub record ReadsAs (r : Outcome (MemTable T)) (current : List Entry) (frozen : List (List Entry))
      : Type ℓ where
    pub after : MemTable T
    pub current' : List Entry
    pub frozen' : List (List Entry)
    pub answer : r ≡ ok after
    pub stands : MemStands ops laws after current' frozen'
    pub reads :
        (key : Bytes) (id : ℕ)
        → read_tables key id (current' ∷ frozen') ≡ read_tables key id (current ∷ frozen)

  -- Freezing does not change what is read.
  pub freeze_full-ReadsAs :
      (seed : D) (limit : ℕ) (m : MemTable T) (current : List Entry) (frozen : List (List Entry))
      → MemStands ops laws m current frozen
      → ReadsAs (ok (freeze_full ops seed limit m)) current frozen
  unfolding freeze_full frozen_cur_table read_tables first_visible
  freeze_full-ReadsAs seed limit m current frozen h =
      elim (Bool-cases (ltb limit (ops.get_size m.current_table))) [
        | inl e ↦ record {
          after = frozen_cur_table ops seed m;
          current' = [];
          frozen' = current ∷ frozen;
          answer = rw e refl;
          stands = record {
            current_lem = laws.new_table_lem seed;
            frozen_lem = (h.current_lem, h.frozen_lem);
          };
          reads = λ key id. refl;
        }
        | inr e ↦ record {
          after = m;
          current' = current;
          frozen' = frozen;
          answer = rw e refl;
          stands = h;
          reads = λ key id. refl;
        }
      ]

  pub put_all-MemStands :
      (kvs : List (Bytes × Bytes)) (id : ℕ) (m : MemTable T) (current : List Entry)
      (frozen : List (List Entry))
      → MemStands ops laws m current frozen
      → (m' : MemTable T) × (put_all ops kvs id m ≡ ok m')
        × MemStands ops laws m' (put_versions kvs id current) frozen
  unfolding put_all put_ put_versions
  put_all-MemStands [] id m current frozen h = (m, refl, h)
  put_all-MemStands ((k, v) ∷ kvs) id m current frozen h =
      let (t, e, st) = laws.put_lem m.current_table current k v id h.current_lem in
      let (m', f, st') =
        put_all-MemStands kvs id (record m { current_table = t }) (put_version (k, v, id) current)
          frozen (record { current_lem = st; frozen_lem = h.frozen_lem }) in
      (m', rw e f, st')

  -- On a memory table that stands for known entries a batch is put without a fault, and what is left
  -- reads as the tables with the entries of the batch put into the newest one after the other,
  -- whether it was frozen then or not.
  pub put_batch-ReadsAs :
      (seed : D) (limit : ℕ) (kvs : List (Bytes × Bytes)) (id : ℕ) (m : MemTable T)
      (current : List Entry) (frozen : List (List Entry))
      → MemStands ops laws m current frozen
      → ReadsAs (put_batch ops seed limit kvs id m) (put_versions kvs id current) frozen
  unfolding put_batch
  put_batch-ReadsAs seed limit kvs id m current frozen h =
      let (m', e, st) = put_all-MemStands kvs id m current frozen h in
      rw e (freeze_full-ReadsAs seed limit m' (put_versions kvs id current) frozen st)

  put-put_batch :
      (seed : D) (limit : ℕ) (key value : Bytes) (id : ℕ) (m : MemTable T) (current : List Entry)
      (frozen : List (List Entry))
      → MemStands ops laws m current frozen
      → put ops seed limit key value id m ≡ put_batch ops seed limit ((key, value) ∷ []) id m
  unfolding put put_batch put_all put_
  put-put_batch seed limit key value id m current frozen h =
      let (t, e, st) = laws.put_lem m.current_table current key value id h.current_lem in rw e refl

  -- On a memory table that stands for known entries a put of a key that is not empty, by a
  -- transaction with an id, succeeds: the transaction reads its entry, whether the table was frozen
  -- or not, and other keys, and the same key for transactions from before, are answered as before.
  pub get-put :
      (seed : D) (limit : ℕ) (m : MemTable T) (current : List Entry) (frozen : List (List Entry))
      (x : ℕ) (xs value : Bytes) (id : ℕ)
      → MemStands ops laws m current frozen
      → 0 < id
      → (m' : MemTable T) × (put ops seed limit (x ∷ xs) value id m ≡ ok m')
        × (get ops (x ∷ xs) id m' ≡ ok (some (x ∷ xs, value, id)))
        × ((y : ℕ) (ys : Bytes) (j : ℕ)
            → (bytes_eq (x ∷ xs) (y ∷ ys) ≡ false) ⊎ ((0 < j) × (j < id))
            → get ops (y ∷ ys) j m' ≡ get ops (y ∷ ys) j m)
  unfolding put_versions read_tables
  get-put seed limit m current frozen x xs value id h l =
      let r = put_batch-ReadsAs seed limit ((x ∷ xs, value) ∷ []) id m current frozen h in
      (
        r.after,
        put-put_batch seed limit (x ∷ xs) value id m current frozen h ∙ r.answer,
        get-read_tables ops laws r.after r.current' r.frozen' x xs id r.stands
            ∙ ap ok (
                r.reads (x ∷ xs) id
                ∙ rw (read_tables, first_visible-put_version (x ∷ xs) value id current l) refl),
        λ y ys j other.
            get-read_tables ops laws r.after r.current' r.frozen' y ys j r.stands
            ∙ ap ok (
                r.reads (y ∷ ys) j
                ∙ rw
                    (
                      read_tables,
                      first_visible-put_other (x ∷ xs) value (y ∷ ys) id j current other,
                    )
                    refl)
            ∙ sym (get-read_tables ops laws m current frozen y ys j h),
      )

  remove_all-put_all :
      (keys : List Bytes) (id : ℕ) (m : MemTable T)
      → remove_all ops keys id m ≡ put_all ops (map (λ key. (key, [])) keys) id m
  unfolding remove_all put_all remove_ put_
  remove_all-put_all [] id m = refl
  remove_all-put_all (key ∷ keys) id m =
      λ i. remove_ ops key id m >>= λ m'. remove_all-put_all keys id m' i

  -- A batch of removals is the batch of puts of the empty value.
  pub remove_batch-put_batch :
      (seed : D) (limit : ℕ) (keys : List Bytes) (id : ℕ) (m : MemTable T)
      → remove_batch ops seed limit keys id m
        ≡ put_batch ops seed limit (map (λ key. (key, [])) keys) id m
  unfolding remove_batch put_batch
  remove_batch-put_batch seed limit keys id m =
      ap (λ r. r >>= λ m'. ok (freeze_full ops seed limit m')) (remove_all-put_all keys id m)
