-- ===== src/SkipList/Levels.antt =====
-- The loop of `put` over all the levels of a new node.
use mathlib.Core.Path.{subst}
use mini_redis.Common.{some-inj}
use mini_redis.Common.{ℕ, suc, ◌+◌, ◌≤◌, ◌<◌, ◌≡◌, sym, ◌∙◌, List, [], ◌∷◌, ◌++◌, Bool, arith}
use mini_redis.Common.{some, ok, All, length}
use mini_redis.SkipList.{link, later_bits}
use mini_redis.SkipList.Node.{SkipListNode, SkipList, forward_at}
use mini_redis.SkipList.Chain.{Item, IsAt, IsReadable, first_ptr, Has, Chain, Chain-Reaches}
use mini_redis.SkipList.Search.{Spot}
use mini_redis.SkipList.Heap.{Balanced, Same, Same-trans}
use mini_redis.SkipList.Linked.{Linked, Linked-IsReadable, link_level-ok}
use mini_redis.SkipList.Frame.{Has-mono}
use mini_redis.SkipList.Insert.{Chain-node, Chain-insert}
use mini_redis.SkipList.Link.{AllAhead, link-Kept}

-- A node that the search stopped at on level `j`, with what it skips up to `u`.
pub record Ready (s : SkipList) (node u : ℕ) (post : List Item) (j p : ℕ) : Type 0 where
  pub mid : List Item
  pub chain : Chain s p (mid ++ post)
  pub spot : Spot p mid u
  pub level : IsReadable s j p
  pub after : (b : ℕ) → forward_at s p j ≡ ok (some b) → Has s j b post
  pub old : p < node
  pub old_mid : All (λ (x : Item). x.0 < node) mid

abbrev pub AllReady : SkipList → ℕ → ℕ → List Item → ℕ → List ℕ → Type 0
AllReady s node u post j [] = Unit {0}
AllReady s node u post j (p ∷ ps) = Ready s node u post j p × AllReady s node u post (suc j) ps

module _ (s : SkipList) (node u : ℕ) (v : SkipListNode) (post : List Item) (bal : Balanced s)
    (chain_u : Chain s u post) (at : IsAt s (node, v))
    (fresh_node : (i b : ℕ) → forward_at s node i ≡ ok (some b) → ⊥)
    (readable : IsReadable s 0 node) (u_old : u < node)
    (old : All (λ (x : Item). x.0 < node) post) where
  AllReady-Ahead :
      (s' : SkipList)
      → Same s s'
      → Linked node u 0 (first_ptr post) s s'
      → (j : ℕ) (ps : List ℕ) → 0 < j
      → AllReady s node u post j ps
      → AllAhead s' j ((node, v) ∷ post) post ps
  AllReady-Ahead s' same w j [] l h = tt
  AllReady-Ahead s' same w j (p ∷ ps) l (h, hs) = (
    record {
      mid = h.mid;
      chain =
          Chain-insert s s' node u v post w same chain_u (same.keeps node v at)
            (λ i b. fresh_node (suc i) b) readable u_old old p h.mid h.chain h.spot h.old h.old_mid;
      level = Linked-IsReadable node u 0 (first_ptr post) s s' w j p h.level;
      after = λ b e.
          Has-mono s s' j b post (Linked-IsReadable node u 0 (first_ptr post) s s' w j b)
            (h.after b (sym (w p j ∙ (ground arith)) ∙ e));
    },
    AllReady-Ahead s' same w (suc j) ps (omega arith) hs,
  )

  -- The new node comes in before what was behind `u`, on its other levels too.
  pub link-Chain :
      (head : ℕ) (before : List Item) (taller : Bool) (bits : List Bool) (us : List ℕ)
      → Chain s head (before ++ post)
      → Spot head before u
      → head < node
      → All (λ (x : Item). x.0 < node) before
      → ((j : ℕ) → 1 ≤ j → j < 1 + length us → IsReadable s j node)
      → AllReady s node u post 1 us
      → (s' : SkipList) × (link node 0 taller bits (u ∷ us) s ≡ ok s')
        × Same s s'
        × Chain s' head (before ++ (node, v) ∷ post)
        × ((b j : ℕ) → IsReadable s j b → IsReadable s' j b)
        × ((b j : ℕ) → 1 + length us ≤ j → forward_at s' b j ≡ forward_at s b j)
  unfolding link first_ptr
  link-Chain head before taller bits us c sp l olds rs hs =
      let e = (Chain-Reaches s u post chain_u).0 in
      let (s1, l1, same, w) =
        link_level-ok s node u 0 (first_ptr post) bal e readable (first_readable post chain_u) in
      let keep = Linked-IsReadable node u 0 (first_ptr post) s s1 w in
      let insert =
        Chain-insert s s1 node u v post w same chain_u (same.keeps node v at)
          (λ i b. fresh_node (suc i) b) readable u_old old in
      let behind =
        Chain-node s s1 node u v post w same chain_u (same.keeps node v at)
          (λ i b. fresh_node (suc i) b) readable u_old old in
      let (s2, l2, k) =
        link-Kept node v post s1 0 taller (later_bits bits) us (same.balanced bal) behind
          (λ j a b. keep j node (rs j (omega arith) (omega arith)))
          (AllReady-Ahead s1 same w 1 us (omega arith) hs) in
      (
        s2,
        rw l1 l2,
        Same-trans s s1 s2 same k.same,
        k.chains head (before ++ (node, v) ∷ post) (insert head before c sp l olds),
        λ b j r. k.readable b j (keep j b r),
        λ b j x. k.above b j (omega arith) ∙ w b j ∙ (ground arith),
      )
    where
      first_readable :
          (xs : List Item) → Chain s u xs → (b : ℕ) → first_ptr xs ≡ some b → IsReadable s 0 b
      first_readable [] c b h = absurd (cc)
      first_readable ((a, x) ∷ xs) (r, y, c) b h =
          subst (λ (t : ℕ). IsReadable s 0 t) (some-inj h)
            (first_ptr xs, (Chain-Reaches s a xs c).0)
