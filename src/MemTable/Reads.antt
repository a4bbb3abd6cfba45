-- ===== src/MemTable/Reads.antt =====
-- Lookups in the memory table against the entries of its tables.
use mathlib.Core.List.{map-append}
use mini_redis.Common.{◌++◌}
use mini_redis.Common.{
  ℕ, ◌≡◌, ◌⊎◌, refl, sym, ap, ◌∙◌, inl, inr, List, [], ◌∷◌, true, false, ◌&&◌, ◌||◌, map, arith,
}
use mini_redis.Common.{Bool-cases, Option, none, some, Outcome, ok, ◌>>=◌, leb, ◌==◌}
use mini_redis.Common.Keys.{Bytes, bytes_eq, bytes_eq_iff}
use mini_redis.MemTable.Table.{Entry, TableOps, TableLaws, first_visible}
use mini_redis.MemTable.{
  MemTable, is_valid, or_else, found, has_value, all_found, cur_get_, frozen_get_from, frozen_get_,
  get, cur_results, frozen_results, get_batch,
}

-- The first table that has a version which the transaction sees; the newest table comes first.
unfoldable pub read_tables : Bytes → ℕ → List (List Entry) → Option Entry
read_tables key id [] = none
read_tables key id (entries ∷ tables) =
    let rest = read_tables key id tables in
    elim (first_visible key id entries) [ none ↦ rest | some e ↦ some e ]

valid_cases :
    (x : ℕ) (xs : Bytes) (id : ℕ) (entries : List Entry)
    → (first_visible (x ∷ xs) id entries ≡ none)
      ⊎ ((e : Entry) × (first_visible (x ∷ xs) id entries ≡ some e) × (is_valid (some e) ≡ true))
unfolding first_visible is_valid
valid_cases x xs id [] = inl refl
valid_cases x xs id ((k, v, i) ∷ entries) =
    elim (Bool-cases (bytes_eq k (x ∷ xs) && ((id == 0) || leb i id))) [
      | inl e ↦
          let same : k ≡ x ∷ xs = (bytes_eq_iff k (x ∷ xs)).0 (ground arith) in
          inr ((k, v, i), rw e refl, rw same refl)
      | inr e ↦ rw e (valid_cases x xs id entries)
    ]

module _ {ℓ κ} {D : Type κ} {T : Type ℓ} (ops : TableOps D T) (laws : TableLaws ops) where
  abbrev pub AllStand : List T → List (List Entry) → Type 0
  AllStand [] [] = Unit {0}
  AllStand (t ∷ ts) (es ∷ tables) = laws.Stands t es × AllStand ts tables
  AllStand [] (es ∷ tables) = ⊥
  AllStand (t ∷ ts) [] = ⊥

  -- The memory table stands for the entries of its tables.
  pub record MemStands (m : MemTable T) (current : List Entry) (frozen : List (List Entry))
      : Type 0 where
    pub current_lem : laws.Stands m.current_table current
    pub frozen_lem : AllStand m.frozen_tables frozen

  frozen_get-read_tables :
      (x : ℕ) (xs : Bytes) (id : ℕ) (ts : List T) (tables : List (List Entry))
      → AllStand ts tables
      → frozen_get_from ops (x ∷ xs) id ts ≡ ok (read_tables (x ∷ xs) id tables)
  unfolding frozen_get_from or_else read_tables
  frozen_get-read_tables x xs id [] [] h = refl
  frozen_get-read_tables x xs id [] (es ∷ tables) h = absurd h
  frozen_get-read_tables x xs id (t ∷ ts) [] h = absurd h
  frozen_get-read_tables x xs id (t ∷ ts) (es ∷ tables) (h, hs) = elim (valid_cases x xs id es) [
    | inl e ↦
        rw (read_tables, laws.get_lem t es (x ∷ xs) id h, e)
          (unfold is_valid in (frozen_get-read_tables x xs id ts tables hs))
    | inr (e, q, v) ↦ rw (read_tables, laws.get_lem t es (x ∷ xs) id h, q, v) refl
  ]

  cur_get-first_visible :
      (x : ℕ) (xs : Bytes) (id : ℕ) (m : MemTable T) (current : List Entry)
      → laws.Stands m.current_table current
      → cur_get_ ops (x ∷ xs) id m ≡ ok (first_visible (x ∷ xs) id current)
  unfolding cur_get_ or_else is_valid
  cur_get-first_visible x xs id m current h = elim (valid_cases x xs id current) [
    | inl e ↦ rw (laws.get_lem m.current_table current (x ∷ xs) id h, e) refl
    | inr (e, q, v) ↦ rw (laws.get_lem m.current_table current (x ∷ xs) id h, q, v) refl
  ]

  read_tables_cases :
      (x : ℕ) (xs : Bytes) (id : ℕ) (tables : List (List Entry))
      → (read_tables (x ∷ xs) id tables ≡ none)
        ⊎ ((e : Entry) × (read_tables (x ∷ xs) id tables ≡ some e) × (is_valid (some e) ≡ true))
  unfolding read_tables
  read_tables_cases x xs id [] = inl refl
  read_tables_cases x xs id (es ∷ tables) = elim (valid_cases x xs id es) [
    | inl e ↦ rw (read_tables, e) (read_tables_cases x xs id tables)
    | inr (e, q, v) ↦ rw (read_tables, q) (inr (e, refl, v))
  ]

  -- On a memory table that stands for known entries the lookup of a key that is not empty comes to its end, and answers the first visible version of
  -- the newest table that has one.
  pub get-read_tables :
      (m : MemTable T) (current : List Entry) (frozen : List (List Entry)) (x : ℕ) (xs : Bytes)
      (id : ℕ)
      → MemStands m current frozen
      → get ops (x ∷ xs) id m ≡ ok (read_tables (x ∷ xs) id (current ∷ frozen))
  unfolding get frozen_get_ or_else is_valid read_tables
  get-read_tables m current frozen x xs id h =
      let cur = cur_get-first_visible x xs id m current h.current_lem in
      let old = frozen_get-read_tables x xs id m.frozen_tables frozen h.frozen_lem in
      elim (valid_cases x xs id current) [
        | inr (e, q, v) ↦ rw (read_tables, cur, q, v) refl
        | inl e ↦ elim (read_tables_cases x xs id frozen) [
          | inl n ↦ rw (read_tables, cur, e, old, n) refl
          | inr (f, q, v) ↦ rw (read_tables, cur, e, old, q, v) refl
        ]
      ]

  -- What `get_batch` answers for a key.
  unfoldable pub answer : Bytes → ℕ → List (List Entry) → Bytes × Option (Bytes × ℕ)
  answer key id tables = (key, found (read_tables key id tables))

  abbrev pub NonEmptyKeys : List Bytes → Type 0
  NonEmptyKeys [] = Unit {0}
  NonEmptyKeys ([] ∷ keys) = ⊥
  NonEmptyKeys ((x ∷ xs) ∷ keys) = NonEmptyKeys keys

  module _ (m : MemTable T) (current : List Entry) (frozen : List (List Entry)) (id : ℕ)
      (h : MemStands m current frozen) where
    cur_results-map :
        (keys : List Bytes)
        → NonEmptyKeys keys
        → cur_results ops keys id m ≡ ok (map (λ key. answer key id (current ∷ [])) keys)
    unfolding cur_results answer read_tables found is_valid
    cur_results-map [] n = refl
    cur_results-map ([] ∷ keys) n = absurd n
    cur_results-map ((x ∷ xs) ∷ keys) n =
        let cur = cur_get-first_visible x xs id m current h.current_lem in
        let ih = cur_results-map keys n in
        elim (valid_cases x xs id current) [
          | inl e ↦ rw (read_tables, cur, ih, e) refl
          | inr (e, q, v) ↦ rw (read_tables, cur, ih, q, v) refl
        ]

    frozen_results-map :
        (keys : List Bytes)
        → NonEmptyKeys keys
        → frozen_results ops (map (λ key. answer key id (current ∷ [])) keys) id m
          ≡ ok (map (λ key. answer key id (current ∷ frozen)) keys)
    unfolding frozen_results frozen_get_ answer found read_tables is_valid
    frozen_results-map [] n = refl
    frozen_results-map ([] ∷ keys) n = absurd n
    frozen_results-map ((x ∷ xs) ∷ keys) n =
        let old = frozen_get-read_tables x xs id m.frozen_tables frozen h.frozen_lem in
        let ih = frozen_results-map keys n in
        elim (valid_cases x xs id current) [
          | inr (e, q, v) ↦ rw (read_tables, q, ih) refl
          | inl e ↦ elim (read_tables_cases x xs id frozen) [
            | inl k ↦ rw (read_tables, e, old, ih, k) refl
            | inr (f, q, v) ↦ rw (read_tables, e, old, ih, q, v) refl
          ]
        ]

    all_found-map :
        (keys : List Bytes)
        → all_found (map (λ key. answer key id (current ∷ [])) keys) ≡ true
        → map (λ key. answer key id (current ∷ [])) keys
          ≡ map (λ key. answer key id (current ∷ frozen)) keys
    unfolding all_found has_value answer found read_tables
    all_found-map [] a = refl
    all_found-map (key ∷ keys) a = seen (first_visible key id current) refl (all_found-map keys)
      where
        seen :
            (r : Option Entry)
            → first_visible key id current ≡ r
            → (all_found (map (λ k. answer k id (current ∷ [])) keys) ≡ true
                → map (λ k. answer k id (current ∷ [])) keys
                  ≡ map (λ k. answer k id (current ∷ frozen)) keys)
            → map (λ k. answer k id (current ∷ [])) (key ∷ keys)
              ≡ map (λ k. answer k id (current ∷ frozen)) (key ∷ keys)
        seen none e ih =
            let missing : all_found (map (λ k. answer k id (current ∷ [])) (key ∷ keys)) ≡ false =
              rw (read_tables, e) refl in
            absurd (cc (a, missing))
        seen (some (k, v, i)) e ih =
            let others : all_found (map (λ k. answer k id (current ∷ [])) (key ∷ keys))
                ≡ all_found (map (λ k. answer k id (current ∷ [])) keys) =
              rw (read_tables, e) refl in
            rw (read_tables, e) (ap (λ t. (key, some (v, i)) ∷ t) (ih (sym others ∙ a)))

    get_batch-map :
        (keys : List Bytes)
        → NonEmptyKeys keys
        → get_batch ops keys id m ≡ ok (map (λ key. answer key id (current ∷ frozen)) keys)
    unfolding get_batch
    get_batch-map keys n =
        elim (Bool-cases (all_found (map (λ key. answer key id (current ∷ [])) keys))) [
          | inl e ↦ rw (cur_results-map keys n, e) (ap ok (all_found-map keys e))
          | inr e ↦ rw (cur_results-map keys n, e) (frozen_results-map keys n)
        ]

  -- One lookup for each of the keys.
  unfoldable pub get_each :
      List Bytes → ℕ → MemTable T → Outcome (List (Bytes × Option (Bytes × ℕ)))
  get_each [] id m = ok []
  get_each (key ∷ keys) id m = do
    result ← get ops key id m
    results ← get_each keys id m
    ok ((key, found result) ∷ results)

  get_each-map :
      (m : MemTable T) (current : List Entry) (frozen : List (List Entry)) (id : ℕ)
      (keys : List Bytes)
      → MemStands m current frozen
      → NonEmptyKeys keys
      → get_each keys id m ≡ ok (map (λ key. answer key id (current ∷ frozen)) keys)
  unfolding get_each answer
  get_each-map m current frozen id [] h n = refl
  get_each-map m current frozen id ([] ∷ keys) h n = absurd n
  get_each-map m current frozen id ((x ∷ xs) ∷ keys) h n =
      rw (get-read_tables m current frozen x xs id h, get_each-map m current frozen id keys h n)
        refl

  -- On a memory table that stands for known entries, for keys that are not empty, `get_batch`, with
  -- its one pass over the current table and the other over what is left, answers what a lookup of each
  -- key answers. A key of the batch whose newest visible version is a removal is answered by the
  -- empty value and the id of the removal, not by nothing.
  pub get_batch-get_each :
      (m : MemTable T) (current : List Entry) (frozen : List (List Entry)) (keys : List Bytes)
      (id : ℕ)
      → MemStands m current frozen
      → NonEmptyKeys keys
      → (get_batch ops keys id m ≡ get_each keys id m)
        × ((x : ℕ) (xs : Bytes) (before behind : List Bytes) (i : ℕ)
            → keys ≡ before ++ (x ∷ xs) ∷ behind
            → read_tables (x ∷ xs) id (current ∷ frozen) ≡ some (x ∷ xs, [], i)
            → (front back : List (Bytes × Option (Bytes × ℕ))) × (get_batch ops keys id m
                ≡ ok (front ++ (x ∷ xs, some ([], i)) ∷ back)))
  unfolding answer found
  get_batch-get_each m current frozen keys id h n = (
    get_batch-map m current frozen id h keys n ∙ sym (get_each-map m current frozen id keys h n),
    λ x xs before behind i e r. (
      map (λ key. answer key id (current ∷ frozen)) before,
      map (λ key. answer key id (current ∷ frozen)) behind,
      get_batch-map m current frozen id h keys n
          ∙ ap (λ t. ok (map (λ key. answer key id (current ∷ frozen)) t)) e
          ∙ ap ok (map-append (λ key. answer key id (current ∷ frozen)) before ((x ∷ xs) ∷ behind))
          ∙ ap
              (λ t. ok (
                map (λ key. answer key id (current ∷ frozen)) before
                ++ (x ∷ xs, found t) ∷ map (λ key. answer key id (current ∷ frozen)) behind))
              r,
    ),
  )
