-- ===== src/SkipList/Updates.antt =====
-- The array `update` of `put`: a node to link behind for each level of the new node.
use mathlib.Core.Path.{subst}
use mini_redis.Common.{ℕ, zero, suc, ◌+◌, ◌≤◌, ◌<◌, ◌≡◌, sym, ◌∙◌, List, [], ◌∷◌, ◌++◌, Bool, arith}
use mini_redis.Common.{All, length, replicate}
use mini_redis.Common.{All-before, All-behind}
use mini_redis.Common.Keys.{Bytes}
use mini_redis.SkipList.{add_node}
use mini_redis.SkipList.Node.{SkipListNode, SkipList, load, new_node}
use mini_redis.SkipList.Chain.{Item, IsReadable, Chain, Chain-Reaches, Below}
use mini_redis.SkipList.Search.{Spot, Stops, Stopped}
use mini_redis.SkipList.Frame.{forward_at-load, Has-load, Chain-load}
use mini_redis.SkipList.Split.{Stops-Blocked, between, Spot-mid, Has-past}
use mini_redis.SkipList.Levels.{Ready, AllReady}
use mini_redis.SkipList.Lookup.{Holds}
use mini_redis.SkipList.Added.{load-added}

pub Spot-old :
    (n a p : ℕ) (items : List Item)
    → a < n
    → All (λ (x : Item). x.0 < n) items
    → Spot a items p
    → p < n
Spot-old n a p [] l h k = subst (λ (t : ℕ). t < n) k l
Spot-old n a p ((b, v) ∷ items) l (h, hs) k = Spot-old n b p items h hs k

module _ (key value : Bytes) (height id : ℕ) (s : SkipList) (items : List Item) (h : Holds s items)
    (less : SkipListNode → Bool) (u : ℕ) (last : Stops s less 0 s.head items u) where
  abbrev added : SkipList
  added = add_node (new_node key value height id) s

  same : (c : ℕ) → c < s.fresh → load added c ≡ load s c
  same = load-added key value height id s

  parts_old : All (λ (x : Item). x.0 < s.fresh) (last.passed ++ last.rest)
  parts_old = subst (λ (t : List Item). All (λ (x : Item). x.0 < s.fresh) t) last.parts h.old

  pub old_before : All (λ (x : Item). x.0 < s.fresh) last.passed
  old_before = All-before _ last.passed last.rest parts_old

  pub old_rest : All (λ (x : Item). x.0 < s.fresh) last.rest
  old_rest = All-behind _ last.passed last.rest parts_old

  readable : (j p : ℕ) → p < s.fresh → IsReadable s j p → IsReadable added j p
  readable j p l (q, e) = (q, forward_at-load s added s.fresh same p j l ∙ e)

  Stops-Ready : (j p : ℕ) → Stops s less j s.head items p → Ready added s.fresh u last.rest j p
  Stops-Ready j p st =
      let (mid, f, g) =
        between less st.passed st.rest last.passed last.rest (sym st.parts ∙ last.parts) st.below
          (Stops-Blocked s less s.head items u last) in
      let old_passed =
        subst (λ (t : List Item). All (λ (x : Item). x.0 < s.fresh) t) f old_before in
      let old_mid = All-behind _ st.passed mid old_passed in
      let old =
        Spot-old s.fresh s.head p st.passed h.old_head (All-before _ st.passed mid old_passed)
          st.spot in
      let below_mid =
        All-behind _ st.passed mid (subst (λ (t : List Item). Below less t) f last.below) in
      let chain_s = subst (λ (t : List Item). Chain s p t) g st.chain in
      record {
        mid = mid;
        chain =
            Chain-load s added s.fresh same p (mid ++ last.rest) old
              (subst (λ (t : List Item). All (λ (x : Item). x.0 < s.fresh) t) g
                (All-behind _ st.passed st.rest
                  (subst (λ (t : List Item). All (λ (x : Item). x.0 < s.fresh) t) st.parts h.old)))
              chain_s;
        spot =
            Spot-mid s.head p u st.passed mid
              (subst (λ (t : List Item). Spot s.head t u) f last.spot) st.spot;
        level = readable j p old st.level;
        after = λ b e.
            let e' = sym (forward_at-load s added s.fresh same p j old) ∙ e in
            Has-load s added s.fresh same j b last.rest old_rest (
              Has-past s less j b p mid last.rest chain_s (λ v at. st.blocked b v e' at) below_mid
                ((Chain-Reaches s p (mid ++ last.rest) chain_s).1 j b e'));
        old = old;
        old_mid = old_mid;
      }

  head_Ready :
      (j : ℕ) → s.current_level ≤ j → j < s.max_level → Ready added s.fresh u last.rest j s.head
  head_Ready j l m = record {
    mid = last.passed;
    chain =
        subst (λ (t : List Item). Chain added s.head t) last.parts
          (Chain-load s added s.fresh same s.head items h.old_head h.old h.chain);
    spot = last.spot;
    level = readable j s.head h.old_head (h.head_levels j m);
    after = λ b e.
        absurd (cc (forward_at-load s added s.fresh same s.head j h.old_head, e, h.top j l m));
    old = h.old_head;
    old_mid = old_before;
  }

  heads_Ready :
      (k j : ℕ)
      → s.current_level ≤ j
      → j + k ≤ s.max_level
      → AllReady added s.fresh u last.rest j (replicate k s.head)
  heads_Ready zero j l m = tt
  heads_Ready (suc k) j l m =
      (head_Ready j l (omega arith), heads_Ready k (suc j) (omega arith) (omega arith))

  pub Stopped-AllReady :
      (k j : ℕ) (us : List ℕ)
      → j + length us ≡ s.current_level
      → s.current_level + k ≤ s.max_level
      → Stopped s less s.head items j us
      → AllReady added s.fresh u last.rest j (us ++ replicate k s.head)
  Stopped-AllReady k j [] e l st = heads_Ready k j (omega arith) (omega arith)
  Stopped-AllReady k j (p ∷ us) e l (st, sts) =
      (Stops-Ready j p st, Stopped-AllReady k (suc j) us (omega arith) l sts)
