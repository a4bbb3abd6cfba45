-- ===== src/MemTable/Oldest.antt =====
-- `flush_last`: which entries are written.
use mini_redis.Common.{ℕ, ◌≡◌, refl, sym, ap, ◌∙◌, List, [], ◌∷◌, ◌++◌, false}
use mini_redis.Common.{some, Outcome, ok, ◌>>=◌, ◌==◌}
use mini_redis.Common.{foldl, pop_back, pop_back-append}
use mini_redis.Common.Keys.{Bytes}
use mini_redis.MemTable.Table.{Entry, TableOps, TableLaws, first_visible}
use mini_redis.MemTable.{MemTable, frozen_cur_table, pop_oldest, take_oldest, add_all, flush_last}
use mini_redis.MemTable.Reads.{read_tables, AllStand, MemStands}

module _ {ℓ κ} {D : Type κ} {T : Type ℓ} (ops : TableOps D T) (laws : TableLaws ops) where
  pop_back-AllStand :
      (t : T) (ts : List T) (es : List Entry) (tables : List (List Entry))
      → AllStand ops laws (t ∷ ts) (es ∷ tables)
      → AllStand ops laws (pop_back t ts).0 (pop_back es tables).0
        × laws.Stands (pop_back t ts).1 (pop_back es tables).1
  pop_back-AllStand t [] es [] (h, hs) = (tt, h)
  pop_back-AllStand t [] es (fs ∷ tables) (h, hs) = absurd hs
  pop_back-AllStand t (u ∷ ts) es [] (h, hs) = absurd hs
  pop_back-AllStand t (u ∷ ts) es (fs ∷ tables) (h, hs) =
      let (k, l) = pop_back-AllStand u ts fs tables hs in ((h, k), l)

  -- What is taken from the memory table: its oldest entries, and what stays.
  pub record Taken (seed : D) (m : MemTable T) (current : List Entry) (frozen : List (List Entry))
      : Type ℓ where
    pub after : MemTable T
    pub table : T
    pub current' : List Entry
    pub frozen' : List (List Entry)
    pub oldest : List Entry
    pub taken : take_oldest ops seed m ≡ some (after, table)
    pub stands : MemStands ops laws after current' frozen'
    pub written : laws.Stands table oldest
    pub reads :
        (key : Bytes) (id : ℕ)
        → read_tables key id (current' ∷ (frozen' ++ oldest ∷ []))
          ≡ read_tables key id (current ∷ frozen)

  take_oldest-Taken :
      (seed : D) (m : MemTable T) (current : List Entry) (frozen : List (List Entry))
      → MemStands ops laws m current frozen
      → (m.frozen_tables ≡ [] → (ops.get_size m.current_table == 0) ≡ false)
      → Taken seed m current frozen
  unfolding take_oldest read_tables pop_oldest frozen_cur_table first_visible
  take_oldest-Taken seed m current frozen h n = go m.frozen_tables frozen refl refl h.frozen_lem
    where
      go :
          (ts : List T) (tables : List (List Entry))
          → m.frozen_tables ≡ ts
          → frozen ≡ tables
          → AllStand ops laws ts tables
          → Taken seed m current frozen
      go [] [] e f k = record {
        after = (pop_oldest ops (frozen_cur_table ops seed m) m.current_table []).0;
        table = m.current_table;
        current' = [];
        frozen' = [];
        oldest = current;
        taken = rw (take_oldest, e, n e) refl;
        stands = record { current_lem = laws.new_table_lem seed; frozen_lem = tt };
        written = h.current_lem;
        reads = λ key id. sym (ap (λ fs. read_tables key id (current ∷ fs)) f);
      }
      go [] (es ∷ tables) e f k = absurd k
      go (t ∷ ts) [] e f k = absurd k
      go (t ∷ ts) (es ∷ tables) e f k =
          let (rest, last) = pop_back-AllStand t ts es tables k in
          record {
            after = (pop_oldest ops m t ts).0;
            table = (pop_back t ts).1;
            current' = current;
            frozen' = (pop_back es tables).0;
            oldest = (pop_back es tables).1;
            taken = rw (take_oldest, e) refl;
            stands = record { current_lem = h.current_lem; frozen_lem = rest };
            written = last;
            reads = λ key id.
                ap (λ fs. read_tables key id (current ∷ fs)) (pop_back-append es tables ∙ sym f);
          }

  add_all-foldl {α β} :
      {B : Type α} {S : Type β} (add : B → Bytes → Bytes → ℕ → B)
      (build : B → ℕ → Bytes → Outcome S) (builder : B) (entries : List Entry)
      → add_all ops add build builder entries
        ≡ foldl (λ b (key, value, id). add b key value id) builder entries
  unfolding add_all
  add_all-foldl add build builder [] = refl
  add_all-foldl add build builder ((k, v, t) ∷ entries) =
      add_all-foldl add build (add builder k v t) entries

  -- When there is a frozen table or the current one is not empty, each entry of the oldest table is
  -- added to the builder, from the first to the last, and the answer is what is then built, also
  -- where building throws; the table is taken in each case, and with its entries behind the tables
  -- that stay every lookup answers what it answered.
  pub flush_last-Taken {α β} :
      {B : Type α} {S : Type β} (add : B → Bytes → Bytes → ℕ → B)
      (build : B → ℕ → Bytes → Outcome S) (seed : D) (builder : B) (path : Bytes) (sst_id : ℕ)
      (m : MemTable T) (current : List Entry) (frozen : List (List Entry))
      → MemStands ops laws m current frozen
      → (m.frozen_tables ≡ [] → (ops.get_size m.current_table == 0) ≡ false)
      → (k : Taken seed m current frozen) × (flush_last ops add build seed builder path sst_id m ≡ (
        build (foldl (λ b (key, value, id). add b key value id) builder k.oldest) sst_id path
            >>= λ sst. ok (some sst),
        k.after,
      ))
  unfolding flush_last
  flush_last-Taken add build seed builder path sst_id m current frozen h n =
      let k = take_oldest-Taken seed m current frozen h n in
      (
        k,
        rw
            (
              flush_last,
              k.taken,
              laws.flush_lem k.table k.oldest k.written,
              add_all-foldl add build builder k.oldest,
            )
            refl,
      )
