-- ===== src/MemTable/Engine.antt =====
-- An engine that has written no sorted table yet: all it holds is in its memory table (LSMEngine of
-- src/lsm/engine.cpp over src/memtable/memtable.cpp). It shows that the laws which the transactions
-- and the recovery ask of the engine hold of the memory table.
use mini_redis.MemTable.Latest.{first_visible-put_latest, first_visible-put_at_least}
use mini_redis.Transaction.Visible.{PutIsSeen}
use mini_redis.Common.{◌<◌}
use mini_redis.Common.{ℕ, ◌≤◌, ◌≡◌, refl, sym, ap, ◌∙◌, inl, inr, List, [], ◌∷◌, false, arith, map}
use mini_redis.Common.{Bool-cases, Option, none, some, some-inj, Outcome, ok}
use mini_redis.Common.Keys.{Bytes, bytes_eq, bytes_eq_iff}
use mini_redis.Engine.{EngineOps, shown}
use mini_redis.MemTable.Table.{
  Entry, TableOps, TableLaws, first_visible, put_version, first_visible-put_other,
  first_visible-put_version,
}
use mini_redis.MemTable.{MemTable, new_mem_table, get, get_total_size}
use mini_redis.MemTable.Reads.{read_tables, MemStands, get-read_tables}
use mini_redis.MemTable.Writes.{put_versions, put_batch-ReadsAs, put_all-MemStands}
use mini_redis.Transaction.Commit.{KeepsLatest}
use mini_redis.Lsm.Recovery.{LatestDecides}

unfoldable shown_entry : Option Entry → Option (Bytes × ℕ)
unfolding shown
shown_entry none = none
shown_entry (some (k, v, i)) = shown v i

unfoldable id_of_entry : Option Entry → Option ℕ
id_of_entry none = none
id_of_entry (some (k, v, i)) = some i

unfoldable entry_of : Outcome (Option Entry) → Option Entry
entry_of (ok r) = r
entry_of r = none

ids_eq : (d e : Entry) → some d ≡ some e → d.2 ≡ e.2
ids_eq d e p = ap (λ (t : Entry). t.2) (some-inj p)

module _ {ℓ κ} {D : Type κ} {T : Type ℓ} (ops : TableOps D T) (laws : TableLaws ops) (seed : D)
    (limit : ℕ) where
  pub record InMemory : Type ℓ where
    pub table : MemTable T
    pub current : List Entry
    pub frozen : List (List Entry)
    pub stands : MemStands ops laws table current frozen

  pub nothing_written-MemStands : MemStands ops laws (new_mem_table ops seed) [] []
  unfolding new_mem_table
  nothing_written-MemStands = record { current_lem = laws.new_table_lem seed; frozen_lem = tt }

  unfoldable read : InMemory → Bytes → ℕ → Option Entry
  unfolding entry_of
  read e [] id = none
  read e (x ∷ xs) id = entry_of (get ops (x ∷ xs) id e.table)

  unfoldable put_pairs : InMemory → List (Bytes × Bytes) → ℕ → InMemory
  put_pairs e kvs id =
      let r = put_batch-ReadsAs ops laws seed limit kvs id e.table e.current e.frozen e.stands in
      record { table = r.after; current = r.current'; frozen = r.frozen'; stands = r.stands }

  -- `put_`, which does not freeze.
  unfoldable put_unfrozen : InMemory → Bytes → Bytes → ℕ → InMemory
  put_unfrozen e key v id =
      let r = put_all-MemStands ops laws ((key, v) ∷ []) id e.table e.current e.frozen e.stands in
      record {
        table = r.0;
        current = put_versions ((key, v) ∷ []) id e.current;
        frozen = e.frozen;
        stands = r.2;
      }

  unfoldable pub in_memory : EngineOps InMemory
  unfolding shown_entry id_of_entry read put_pairs put_unfrozen
  in_memory = record {
    get = λ e key id. shown_entry (read e key id);
    put = λ e key v id. put_pairs e ((key, v) ∷ []) id;
    remove = λ e key id. put_pairs e ((key, []) ∷ []) id;
    memtable_get = λ e key. id_of_entry (read e key 0);
    memtable_put = put_unfrozen;
    sst_get = λ e key. none;
    put_batch = put_pairs;
    remove_batch = λ e keys id. put_pairs e (map (λ key. (key, [])) keys) id;
    total_size = λ e. get_total_size ops e.table;
    flush = λ e. (0, e);
  }

  read-tables :
      (e : InMemory) (x : ℕ) (xs : Bytes) (id : ℕ)
      → read e (x ∷ xs) id ≡ read_tables (x ∷ xs) id (e.current ∷ e.frozen)
  unfolding read entry_of
  read-tables e x xs id =
      ap entry_of (get-read_tables ops laws e.table e.current e.frozen x xs id e.stands)

  -- Nothing that a lookup of all versions answers is later than `n`.
  abbrev pub IsUpto : InMemory → ℕ → Type 0
  IsUpto e n =
      (key k w : Bytes) (i : ℕ) → read_tables key 0 (e.current ∷ e.frozen) ≡ some (k, w, i) → i ≤ n

  tables_put_same :
      (e : InMemory) (key v : Bytes) (id : ℕ)
      → IsUpto e id
      → read_tables key 0 (put_version (key, v, id) e.current ∷ e.frozen) ≡ some (key, v, id)
  unfolding read_tables
  tables_put_same e key v id u =
      let first =
        first_visible-put_latest key v id e.current
          (λ k w i q. u key k w i (rw (read_tables, q) refl)) in
      rw (read_tables, first) refl

  tables_put_other :
      (e : InMemory) (k v key : Bytes) (id j : ℕ)
      → bytes_eq k key ≡ false
      → read_tables key j (put_version (k, v, id) e.current ∷ e.frozen)
        ≡ read_tables key j (e.current ∷ e.frozen)
  unfolding read_tables
  tables_put_other e k v key id j d =
      rw (read_tables, first_visible-put_other k v key id j e.current (inl d)) refl

  tables_put_pairs :
      (e : InMemory) (k v key : Bytes) (id j : ℕ)
      → read_tables key j
          ((put_pairs e ((k, v) ∷ []) id).current ∷ (put_pairs e ((k, v) ∷ []) id).frozen)
        ≡ read_tables key j (put_version (k, v, id) e.current ∷ e.frozen)
  unfolding put_pairs put_versions
  tables_put_pairs e k v key id j =
      (put_batch-ReadsAs ops laws seed limit ((k, v) ∷ []) id e.table e.current e.frozen
          e.stands).reads
        key j

  put_pairs-IsUpto :
      (e : InMemory) (k v : Bytes) (id : ℕ) → IsUpto e id → IsUpto (put_pairs e ((k, v) ∷ []) id) id
  put_pairs-IsUpto e k v id u key l w i q =
      let p = sym (tables_put_pairs e k v key id 0) ∙ q in
      elim (Bool-cases (bytes_eq k key)) [
        | inr d ↦ u key l w i (sym (tables_put_other e k v key id 0 d) ∙ p)
        | inl s ↦
            let same = tables_put_same e k v id u in
            let moved =
              ap (λ t. read_tables t 0 (put_version (k, v, id) e.current ∷ e.frozen))
                ((bytes_eq_iff k key).0 s) in
            let ids = ids_eq (k, v, id) (l, w, i) (sym same ∙ moved ∙ p) in omega (arith, ids)
      ]

  get-put_same :
      (e : InMemory) (x : ℕ) (xs v : Bytes) (id : ℕ)
      → IsUpto e id
      → shown_entry (read (put_pairs e ((x ∷ xs, v) ∷ []) id) (x ∷ xs) 0) ≡ shown v id
  unfolding shown_entry
  get-put_same e x xs v id u = ap shown_entry (
      read-tables (put_pairs e ((x ∷ xs, v) ∷ []) id) x xs 0
      ∙ tables_put_pairs e (x ∷ xs) v (x ∷ xs) id 0
      ∙ tables_put_same e (x ∷ xs) v id u)

  get-put_other :
      (e : InMemory) (k : Bytes) (x : ℕ) (xs v : Bytes) (id : ℕ)
      → bytes_eq k (x ∷ xs) ≡ false
      → shown_entry (read (put_pairs e ((k, v) ∷ []) id) (x ∷ xs) 0)
        ≡ shown_entry (read e (x ∷ xs) 0)
  get-put_other e k x xs v id d = ap shown_entry (
      read-tables (put_pairs e ((k, v) ∷ []) id) x xs 0
      ∙ tables_put_pairs e k v (x ∷ xs) id 0
      ∙ tables_put_other e k v (x ∷ xs) id 0 d
      ∙ sym (read-tables e x xs 0))

  -- The latest transaction decides what the memory table answers.
  pub in_memory-LatestDecides : LatestDecides in_memory IsUpto
  unfolding in_memory shown
  in_memory-LatestDecides = record {
    upto_later = λ e m n u l key k w i q. omega (arith, u key k w i q);
    upto_put = put_pairs-IsUpto;
    upto_remove = λ e key id u. put_pairs-IsUpto e key [] id u;
    get_put_same = get-put_same;
    get_put_other = λ e k x xs v id d. get-put_other e k x xs v id d;
    get_remove_same = λ e x xs id u. get-put_same e x xs [] id u;
    get_remove_other = λ e k x xs id d. get-put_other e k x xs [] id d;
  }

  tables_put_unfrozen :
      (e : InMemory) (k v key : Bytes) (id j : ℕ)
      → read_tables key j ((put_unfrozen e k v id).current ∷ (put_unfrozen e k v id).frozen)
        ≡ read_tables key j (put_version (k, v, id) e.current ∷ e.frozen)
  unfolding put_unfrozen put_versions
  tables_put_unfrozen e k v key id j = refl

  tables_put_at_least :
      (e : InMemory) (key v : Bytes) (id : ℕ)
      → (k w : Bytes) × (j : ℕ) × (read_tables key 0 (put_version (key, v, id) e.current ∷ e.frozen)
          ≡ some (k, w, j))
        × (id ≤ j)
  unfolding read_tables
  tables_put_at_least e key v id =
      let (k, w, j, q, l) = first_visible-put_at_least key v id e.current in
      (k, w, j, rw (read_tables, q) refl, l)

  memtable_get-put_seen :
      (e : InMemory) (x : ℕ) (xs v : Bytes) (id : ℕ)
      → (j : ℕ) × (id_of_entry (read (put_unfrozen e (x ∷ xs) v id) (x ∷ xs) 0) ≡ some j) × (id ≤ j)
  unfolding id_of_entry
  memtable_get-put_seen e x xs v id =
      let (k, w, j, q, l) = tables_put_at_least e (x ∷ xs) v id in
      (
        j,
        ap id_of_entry (
            read-tables (put_unfrozen e (x ∷ xs) v id) x xs 0
            ∙ tables_put_unfrozen e (x ∷ xs) v (x ∷ xs) id 0
            ∙ q),
        l,
      )

  -- A transaction that writes a key is what the memory table answers for it, or a later one is.
  pub in_memory-KeepsLatest : KeepsLatest in_memory
  unfolding in_memory
  in_memory-KeepsLatest = record {
    put_seen = memtable_get-put_seen;
    put_keeps = λ e x xs k v id i h l. elim (Bool-cases (bytes_eq k (x ∷ xs))) [
      | inl s ↦
          let (j, q, m) = memtable_get-put_seen e x xs v id in
          (
            j,
            ap (λ t. id_of_entry (read (put_unfrozen e t v id) (x ∷ xs) 0))
                  ((bytes_eq_iff k (x ∷ xs)).0 s)
                ∙ q,
            m,
          )
      | inr d ↦ (
        i,
        ap id_of_entry (
              read-tables (put_unfrozen e k v id) x xs 0
              ∙ tables_put_unfrozen e k v (x ∷ xs) id 0
              ∙ tables_put_other e k v (x ∷ xs) id 0 d
              ∙ sym (read-tables e x xs 0))
            ∙ h,
        l,
      )
    ];
  }

  -- Before anything is written.
  abbrev pub nothing_written : InMemory
  nothing_written = record {
    table = new_mem_table ops seed;
    current = [];
    frozen = [];
    stands = nothing_written-MemStands;
  }

  pub nothing_written-IsUpto : (n : ℕ) → IsUpto nothing_written n
  unfolding read_tables first_visible
  nothing_written-IsUpto n key k w i q = absurd (cc)

  pub memtable_get-nothing :
      (x : ℕ) (xs : Bytes) → in_memory.memtable_get nothing_written (x ∷ xs) ≡ none
  unfolding in_memory id_of_entry read_tables first_visible
  memtable_get-nothing x xs = ap id_of_entry (read-tables nothing_written x xs 0)

  tables_put_seen :
      (e : InMemory) (key v : Bytes) (id : ℕ)
      → 0 < id
      → read_tables key id (put_version (key, v, id) e.current ∷ e.frozen) ≡ some (key, v, id)
  unfolding read_tables
  tables_put_seen e key v id l =
      rw (read_tables, first_visible-put_version key v id e.current l) refl

  -- A put into the memory table is seen by its transaction, and changes no other key.
  pub in_memory-PutIsSeen : PutIsSeen in_memory
  unfolding in_memory shown_entry
  in_memory-PutIsSeen = record {
    get_same = λ e x xs v id l. ap shown_entry (
        read-tables (put_unfrozen e (x ∷ xs) v id) x xs id
        ∙ tables_put_unfrozen e (x ∷ xs) v (x ∷ xs) id id
        ∙ tables_put_seen e (x ∷ xs) v id l);
    get_other = λ e k v x xs id j d. ap shown_entry (
        read-tables (put_unfrozen e k v id) x xs j
        ∙ tables_put_unfrozen e k v (x ∷ xs) id j
        ∙ tables_put_other e k v (x ∷ xs) id j d
        ∙ sym (read-tables e x xs j));
  }
