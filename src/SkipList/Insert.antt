-- ===== src/SkipList/Insert.antt =====
-- A new node on level 0: what stands behind each node then.
use mathlib.Core.Path.{subst}
use mini_redis.Common.{ok-inj, some-inj}
use mini_redis.Common.{
  ℕ, zero, suc, ◌+◌, ◌<◌, ◌≡◌, refl, sym, ap, ◌∙◌, inl, inr, List, [], ◌∷◌, ◌++◌, true, false,
  arith,
}
use mini_redis.Common.{Bool-cases, some, ok, ◌==◌, All, length, length-append}
use mini_redis.SkipList.Node.{SkipListNode, SkipList, forward_at}
use mini_redis.SkipList.Chain.{
  Item, IsAt, IsReadable, first_ptr, Has, Reaches, Chain, Chain-Reaches,
}
use mini_redis.SkipList.Search.{Spot}
use mini_redis.SkipList.Heap.{Same, eq_of_==}
use mini_redis.SkipList.Linked.{Linked, Linked-IsReadable}
use mini_redis.SkipList.Frame.{Chain-unique, Has-mono, Has-insert}

module _ (s s' : SkipList) (node u : ℕ) (v : SkipListNode) (post : List Item)
    (linked : Linked node u 0 (first_ptr post) s s') (same : Same s s')
    (chain_u : Chain s u post) where
  has' : (i b : ℕ) (items : List Item) → Has s i b items → Has s' i b items
  has' i b items =
      Has-mono s s' i b items (Linked-IsReadable node u 0 (first_ptr post) s s' linked i b)

  -- The node does not stand where another list is behind it.
  not_u :
      (a : ℕ) (items : List Item)
      → Chain s a items
      → (length items ≡ length post → ⊥)
      → (a == u) ≡ false
  not_u a items c h = elim (Bool-cases (a == u)) [
    | inr e ↦ e
    | inl e ↦ absurd (
        h (
          ap length (
            Chain-unique s u items post (subst (λ (t : ℕ). Chain s t items) (eq_of_== a u e) c)
              chain_u)))
  ]

  unchanged : (a j : ℕ) → (a == u) ≡ false → a < node → forward_at s' a j ≡ forward_at s a j
  unchanged a j h l =
      let other : (a == node) ≡ false = ground arith in linked a j ∙ rw (h, other) refl

  Chain-frame :
      (a : ℕ) (items : List Item)
      → Chain s a items
      → length items < length post
      → a < node
      → All (λ (x : Item). x.0 < node) items
      → Chain s' a items
  Chain-frame a [] c l m h =
      let w = λ (j : ℕ). unchanged a j (not_u a [] c (λ e. omega (arith, e, l))) m in
      (w 0 ∙ c.0, λ i b e. has' i b [] (c.1 i b (sym (w i) ∙ e)))
  Chain-frame a ((b, x) ∷ items) (r, at, c) l m (h, hs) =
      let w = λ (j : ℕ).
        unchanged a j (not_u a ((b, x) ∷ items) (r, at, c) (λ e. omega (arith, e, l))) m in
      (
        (w 0 ∙ r.0, λ i d e. has' i d ((b, x) ∷ items) (r.1 i d (sym (w i) ∙ e))),
        same.keeps b x at,
        Chain-frame b items c (omega (arith, l)) h hs,
      )

  module _ (at : IsAt s' (node, v))
      (other_levels : (i b : ℕ) → forward_at s node (suc i) ≡ ok (some b) → ⊥)
      (readable : IsReadable s 0 node) (u_old : u < node)
      (old : All (λ (x : Item). x.0 < node) post) where
    at_node : (i : ℕ) → forward_at s' node (suc i) ≡ forward_at s node (suc i)
    at_node i = linked node (suc i) ∙ (ground arith)

    at_node_zero : forward_at s' node 0 ≡ ok (first_ptr post)
    at_node_zero =
        let a : (node == u) ≡ false = ground arith in
        let b : (node == node) ≡ true = ground arith in linked node 0 ∙ rw (a, b) refl

    -- Behind the new node is what was behind `u`.
    pub Chain-node : Chain s' node post
    Chain-node = go post refl
      where
        levels : (i b : ℕ) → forward_at s' node i ≡ ok (some b) → Has s' i b post
        levels zero b h = has' 0 b post (
            (Chain-Reaches s u post chain_u).1 0 b
              ((Chain-Reaches s u post chain_u).0 ∙ sym at_node_zero ∙ h))
        levels (suc i) b h = absurd (other_levels i b (sym (at_node i) ∙ h))

        first : (xs : List Item) → post ≡ xs → Reaches s' node xs
        first xs e = (
          at_node_zero ∙ ap (λ t. ok (first_ptr t)) e,
          λ i b h. subst (λ (t : List Item). Has s' i b t) e (levels i b h),
        )

        go : (xs : List Item) → post ≡ xs → Chain s' node xs
        go [] e = first [] e
        go ((b, x) ∷ xs) e =
            let (r, y, c) = subst (λ (t : List Item). Chain s u t) e chain_u in
            let (h, hs) = subst (λ (t : List Item). All (λ (z : Item). z.0 < node) t) e old in
            (
              first ((b, x) ∷ xs) e,
              same.keeps b x y,
              Chain-frame b xs c (omega (arith, ap length e)) h hs,
            )

    readable' : IsReadable s' 0 node
    readable' = Linked-IsReadable node u 0 (first_ptr post) s s' linked 0 node readable

    -- Behind `u` is the new node.
    Reaches-u : Reaches s' u ((node, v) ∷ post)
    unfolding first_ptr
    Reaches-u = (zeroth, levels)
      where
        zeroth : forward_at s' u 0 ≡ ok (some node)
        zeroth = linked u 0 ∙ (ground arith)

        levels : (i b : ℕ) → forward_at s' u i ≡ ok (some b) → Has s' i b ((node, v) ∷ post)
        levels zero b e =
            let q : node ≡ b = some-inj (ok-inj (sym zeroth ∙ e)) in
            inl (sym q, subst (λ (t : ℕ). IsReadable s' 0 t) q readable')
        levels (suc i) b e = inr (
            has' (suc i) b post (
              (Chain-Reaches s u post chain_u).1 (suc i) b
                (sym (linked u (suc i) ∙ (ground arith)) ∙ e)))

    -- Behind a node up to `u` the new node comes in before what was behind `u`.
    pub Chain-insert :
        (a : ℕ) (mid : List Item)
        → Chain s a (mid ++ post)
        → Spot a mid u
        → a < node
        → All (λ (x : Item). x.0 < node) mid
        → Chain s' a (mid ++ (node, v) ∷ post)
    unfolding first_ptr
    Chain-insert a [] c sp l h =
        subst (λ (t : ℕ). Chain s' t ((node, v) ∷ post)) (sym sp) (Reaches-u, at, Chain-node)
    Chain-insert a ((b, x) ∷ mid) (r, y, c) sp l (h, hs) =
        let longer : length ((b, x) ∷ mid ++ post) ≡ suc (length mid + length post) =
          ap suc (length-append mid post) in
        let w = λ (j : ℕ).
          unchanged a j (not_u a ((b, x) ∷ mid ++ post) (r, y, c) (λ e. omega (arith, e, longer)))
            l in
        (
          (
            w 0 ∙ r.0,
            λ i d e.
                Has-insert s' i d (node, v) ((b, x) ∷ mid) post
                  (has' i d ((b, x) ∷ mid ++ post) (r.1 i d (sym (w i) ∙ e))),
          ),
          same.keeps b x y,
          Chain-insert b mid c sp h hs,
        )
