-- ===== src/SkipList/Put.antt =====
-- `put` of a version that is not there.
use mathlib.Core.Path.{subst}
use mini_redis.Common.{
  ℕ, ◌+◌, ◌-◌, ◌≤◌, ◌<◌, ◌≡◌, refl, sym, ap, ◌∙◌, List, [], ◌∷◌, ◌++◌, Bool, true, arith,
}
use mini_redis.Common.{
  none, ok, All, All-append, length, length-append, replicate, length-replicate, ltb,
}
use mini_redis.Common.{All-before, All-behind}
use mini_redis.Common.Keys.{Bytes}
use mini_redis.SkipList.{add_node, put_new}
use mini_redis.SkipList.Node.{SkipListNode, SkipList, load, forward_at, new_node, node_lt}
use mini_redis.SkipList.Chain.{bare, Item, IsReadable, Chain}
use mini_redis.SkipList.Order.{IsSorted, IsSorted-insert}
use mini_redis.SkipList.Search.{Stops, Stopped}
use mini_redis.SkipList.Heap.{Same}
use mini_redis.SkipList.Frame.{forward_at-load, Chain-load}
use mini_redis.SkipList.Levels.{link-Chain}
use mini_redis.SkipList.Lookup.{Holds}
use mini_redis.SkipList.Added.{
  load-added, IsAt-added, forward_at-added, no_pointers, Balanced-added,
}
use mini_redis.SkipList.Updates.{Spot-old, old_before, old_rest, Stopped-AllReady}

All-mono :
    (m n : ℕ) (items : List Item)
    → m ≤ n
    → All (λ (x : Item). x.0 < m) items
    → All (λ (x : Item). x.0 < n) items
All-mono m n [] l h = tt
All-mono m n (x ∷ items) l (h, hs) = (omega (arith, h), All-mono m n items l hs)

module _ (key value : Bytes) (height id : ℕ) (s : SkipList) (items : List Item)
    (h : Holds s items) where
  abbrev node : SkipListNode
  node = new_node key value height id

  abbrev added : SkipList
  added = add_node node s

  -- The linked list with the new level.
  linked_Holds :
      (s' : SkipList) (before behind : List Item)
      → s.current_level ≤ height
      → height ≤ s.max_level
      → Same added s'
      → Chain s' s.head (before ++ (s.fresh, bare node) ∷ behind)
      → ((b j : ℕ) → IsReadable added j b → IsReadable s' j b)
      → ((b j : ℕ) → height ≤ j → forward_at s' b j ≡ forward_at added b j)
      → items ≡ before ++ behind
      → All (λ (x : Item). node_lt x.1 node ≡ true) before
      → All (λ (x : Item). node_lt node x.1 ≡ true) behind
      → Holds (record s' { current_level = height }) (before ++ (s.fresh, bare node) ∷ behind)
  unfolding add_node load forward_at node_lt bare
  linked_Holds s' before behind l m kept chain keep over parts below above =
      let same = load-added key value height id s in
      let old = subst (λ (t : List Item). All (λ (x : Item). x.0 < s.fresh) t) parts h.old in
      let old' =
        All-append _ before ((s.fresh, bare node) ∷ behind)
          (All-mono s.fresh (s.fresh + 1) before (omega arith) (All-before _ before behind old))
          (
            omega arith,
            All-mono s.fresh (s.fresh + 1) behind (omega arith) (All-behind _ before behind old),
          ) in
      let whole = before ++ (s.fresh, bare node) ∷ behind in
      let final = record s' { current_level = height } in
      record {
        chain =
            subst (λ (t : ℕ). Chain final t whole) (sym kept.head)
              (Chain-load s' final (s.fresh + 1) (λ c x. refl) s.head whole
                (omega (arith, h.old_head)) old' chain);
        sorted =
            IsSorted-insert before behind s.fresh (bare node)
              (subst (λ (t : List Item). IsSorted t) parts h.sorted) below above;
        some_level = omega (arith, h.some_level);
        levels_fit = omega (arith, kept.max_level);
        head_levels = λ i x.
            subst (λ (t : ℕ). IsReadable final i t) (sym kept.head)
              (keep s.head i (
                let (q, e) = h.head_levels i (omega (arith, x, kept.max_level)) in
                (q, forward_at-load s added s.fresh same s.head i h.old_head ∙ e)));
        old = subst (λ (t : ℕ). All (λ (x : Item). x.0 < t) whole) (sym kept.fresh) old';
        old_head = omega (arith, kept.head, kept.fresh, h.old_head);
        room = omega (
          arith,
          kept.fresh,
          h.room,
          ap length parts,
          length-append before behind,
          length-append before ((s.fresh, bare node) ∷ behind),
        );
        balanced = λ a n. kept.balanced (Balanced-added key value height id s h.balanced) a n;
        top = λ i x y.
            ap (λ t. forward_at final t i) kept.head
            ∙ over s.head i x
            ∙ forward_at-load s added s.fresh same s.head i h.old_head
            ∙ h.top i (omega (arith, l, x)) (omega (arith, kept.max_level, y));
      }

  pub put_new-Holds :
      (bits : List Bool) (u : ℕ) (us : List ℕ)
      → s.current_level ≤ height
      → height ≤ s.max_level
      → (last : Stops s (λ n. node_lt n node) 0 s.head items u)
      → Stopped s (λ n. node_lt n node) s.head items 1 us
      → 1 + length us ≡ s.current_level
      → All (λ (x : Item). node_lt node x.1 ≡ true) last.rest
      → (s' : SkipList) × (put_new node height bits (u ∷ us) s ≡ ok s')
        × Holds s' (last.passed ++ (s.fresh, bare node) ∷ last.rest)
  unfolding put_new
  put_new-Holds bits u us l m last st e above =
      let same = load-added key value height id s in
      let old_passed = old_before key value height id s items h (λ n. node_lt n node) u last in
      let old_post = old_rest key value height id s items h (λ n. node_lt n node) u last in
      let u_old = Spot-old s.fresh s.head u last.passed h.old_head old_passed last.spot in
      let heads = us ++ replicate (height - s.current_level) s.head in
      let size : 1 + length heads ≡ height = omega (
        arith,
        e,
        length-append us (replicate (height - s.current_level) s.head),
        length-replicate (height - s.current_level) s.head,
      ) in
      let ready =
        Stopped-AllReady key value height id s items h (λ n. node_lt n node) u last
          (height - s.current_level) 1 us e (omega arith) st in
      let (s', linked, kept, chain, keep, over) =
        link-Chain added s.fresh u (bare node) last.rest
          (Balanced-added key value height id s h.balanced)
          (Chain-load s added s.fresh same u last.rest u_old old_post last.chain)
          (IsAt-added key value height id s) (no_pointers key value height id s)
          (none, forward_at-added key value height id s 0 (omega (arith, h.some_level))) u_old
          old_post s.head last.passed (ltb s.current_level height) bits heads
          (Chain-load s added s.fresh same s.head (last.passed ++ last.rest) h.old_head
            (subst (λ (t : List Item). All (λ (x : Item). x.0 < s.fresh) t) last.parts h.old)
            (subst (λ (t : List Item). Chain s s.head t) last.parts h.chain))
          last.spot h.old_head old_passed
          (λ j a b. (none, forward_at-added key value height id s j (omega (arith, size, b))))
          ready in
      (
        record s' { current_level = height },
        rw linked refl,
        linked_Holds s' last.passed last.rest l m kept chain keep
            (λ b j x. over b j (omega (arith, size, x))) last.parts last.below above,
      )
