-- ===== src/SkipList/Table.antt =====
-- The skip list as a table of the memory table.
use mathlib.Core.Path.{subst}
use mini_redis.Common.{
  ℕ, ◌+◌, ◌≤◌, ◌<◌, ◌≡◌, refl, sym, ap, ◌∙◌, inl, inr, List, [], ◌∷◌, Bool, ◌&&◌, ◌||◌, arith,
}
use mini_redis.Common.{Bool-cases, none, some, Outcome, ok, fault, ok-inj, ◌>>=◌, leb, ◌==◌, length}
use mini_redis.Common.Keys.{Bytes, bytes_eq}
use mini_redis.MemTable.Table.{Entry, TableOps, TableLaws, put_version, first_visible}
use mini_redis.SkipList.{empty_list, put, get, entry_at, get_size, flush, clear}
use mini_redis.SkipList.Node.{SkipListNode, SkipList, load, forward_at, new_node}
use mini_redis.SkipList.Chain.{bare, Item, Chain, first_ptr}
use mini_redis.SkipList.Heap.{Balanced, load-store_same, load-store_other, eq_of_==}
use mini_redis.SkipList.Lookup.{Holds, contents, find_version, get-find_version, flush-contents}
use mini_redis.SkipList.Added.{level_at-replicate, level_at-none}
use mini_redis.SkipList.Refines.{put-put_version}

-- A head without pointers is an empty list.
lone-Holds :
    (s : SkipList)
    → load s s.head ≡ ok (new_node [] [] s.max_level 0)
    → 0 < s.current_level
    → s.current_level ≤ s.max_level
    → s.head < s.fresh
    → Balanced s
    → Holds s []
unfolding first_ptr
lone-Holds s l some_level fit old bal = record {
  chain = (at 0 (omega (arith, some_level, fit)), λ i b e. absurd (leads i b e));
  sorted = tt;
  some_level = some_level;
  levels_fit = fit;
  head_levels = λ i h. (none, at i h);
  old = tt;
  old_head = old;
  room = omega (arith, old);
  balanced = bal;
  top = λ i x y. at i y;
}
  where
    at : (i : ℕ) → i < s.max_level → forward_at s s.head i ≡ ok none
    at i h = unfold forward_at new_node in (rw l (level_at-replicate s.max_level i h))

    leads : (i b : ℕ) → forward_at s s.head i ≡ ok (some b) → ⊥
    leads i b e =
        level_at-none s.max_level i b (unfold forward_at new_node in (sym (rw l refl) ∙ e))

new_node-eq :
    (level : ℕ) (n : SkipListNode)
    → new_node [] [] level 0 ≡ n
    → length n.forward ≡ length n.backward
unfolding new_node
new_node-eq level n e = rw (← e) refl

pub empty_list-Holds : (max_level : ℕ) → 0 < max_level → Holds (empty_list max_level) []
unfolding empty_list load
empty_list-Holds max_level h =
    lone-Holds (empty_list max_level) refl (omega arith) h (omega arith) balanced
  where
    balanced : Balanced (empty_list max_level)
    balanced a n e = elim (Bool-cases (a == 0)) [
      | inl first ↦
          let here : load (empty_list max_level) a ≡ ok (new_node [] [] max_level 0) =
            rw (load, first) refl in
          new_node-eq max_level n (ok-inj (sym here ∙ e))
      | inr other ↦
          let missing : load (empty_list max_level) a ≡ fault = rw (load, other) refl in
          absurd (cc (missing, e))
    ]

-- After `clear` a well-formed list is empty, and well-formed.
pub clear-Holds : (s : SkipList) (items : List Item) → Holds s items → Holds (clear s) []
unfolding clear load
clear-Holds s items h =
    lone-Holds (clear s) (load-store_same s s.fresh (new_node [] [] s.max_level 0)) h.some_level
      h.levels_fit (omega arith) balanced
  where
    balanced : Balanced (clear s)
    balanced a n e = elim (Bool-cases (a == s.fresh)) [
      | inl same ↦ new_node-eq s.max_level n (
          ok-inj (
            sym (load-store_same s s.fresh (new_node [] [] s.max_level 0))
            ∙ ap (load (clear s)) (sym (eq_of_== a s.fresh same))
            ∙ e))
      | inr other ↦
          h.balanced a n
            (sym (load-store_other s s.fresh a (new_node [] [] s.max_level 0) other) ∙ e)
    ]

entry_at-first_visible :
    (s : SkipList) (a : ℕ) (items : List Item) (key : Bytes) (id : ℕ)
    → Chain s a items
    → entry_at s (find_version key id items) ≡ ok (first_visible key id (contents items))
unfolding entry_at find_version first_visible contents bare
entry_at-first_visible s a [] key id c = refl
entry_at-first_visible s a ((b, v) ∷ items) key id (r, (n, ld, q), c) =
    let ih = entry_at-first_visible s b items key id c in
    subst
      (λ (w : SkipListNode).
        entry_at s (find_version key id ((b, w) ∷ items))
        ≡ ok (first_visible key id (contents ((b, w) ∷ items))))
      q
      (elim (Bool-cases (bytes_eq n.key key && ((id == 0) || leb n.tranc_id id))) [
        | inl e ↦ rw (e, ld) refl
        | inr e ↦ rw e ih
      ])

-- On a well-formed list a transaction's lookup comes to its end and shows the first version of the
-- key that it sees.
pub get-first_visible :
    (s : SkipList) (items : List Item) (key : Bytes) (id : ℕ)
    → Holds s items
    → (get key id s >>= λ p. entry_at s p) ≡ ok (first_visible key id (contents items))
get-first_visible s items key id h =
    rw (get-find_version s items key id h) (entry_at-first_visible s s.head items key id h.chain)

-- A skip list with the draws of its generator.
pub record DrawnList : Type 0 where
  pub list : SkipList
  pub draws : ℕ → List Bool × List Bool

unfoldable pub put_drawn : Bytes → Bytes → ℕ → DrawnList → Outcome DrawnList
put_drawn key value tranc_id t = do
  let (coins, bits) = t.draws 0
  s ← put key value tranc_id coins bits t.list
  ok (record { list = s; draws = λ n. t.draws (n + 1) })

abbrev pub skip_list_ops : TableOps (ℕ → List Bool × List Bool) DrawnList
skip_list_ops = record {
  new_table = λ seed. record { list = empty_list 16; draws = seed };
  put = put_drawn;
  get = λ key tranc_id t. get key tranc_id t.list >>= λ p. entry_at t.list p;
  get_size = λ t. get_size t.list;
  flush = λ t. flush t.list;
  clear = λ t. record t { list = clear t.list };
}

abbrev pub Stands : DrawnList → List Entry → Type 0
Stands t entries = (items : List Item) × Holds t.list items × (contents items ≡ entries)

-- The skip list is such a table: each operation comes to its end and does what the sorted list of
-- the entries does.
pub skip_list-TableLaws : TableLaws skip_list_ops
unfolding put_drawn
skip_list-TableLaws = record {
  Stands = Stands;
  new_table_lem = λ seed. ([], empty_list-Holds 16 (omega arith), unfold contents in refl);
  put_lem = λ t entries key value id (items, h, e).
      let k = put-put_version t.list items key value id (t.draws 0).0 (t.draws 0).1 h in
      (
        record { list = k.after; draws = λ n. t.draws (n + 1) },
        rw k.answer refl,
        (k.items, k.holds, k.entries_eq ∙ ap (put_version (key, value, id)) e),
      );
  get_lem = λ t entries key id (items, h, e).
      get-first_visible t.list items key id h ∙ ap (λ es. ok (first_visible key id es)) e;
  flush_lem = λ t entries (items, h, e). flush-contents t.list items h ∙ ap ok e;
  clear_lem = λ t entries (items, h, e). ([], clear-Holds t.list items h, unfold contents in refl);
}
