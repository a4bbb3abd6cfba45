-- ===== src/SkipList/Link.antt =====
-- The loop of `put` over the levels, behind the first.
use mathlib.Core.Path.{subst}
use mini_redis.Common.{ok-inj, some-inj}
use mini_redis.Common.{
  ℕ, suc, ◌+◌, ◌≤◌, ◌<◌, ◌≡◌, refl, sym, ap, ◌∙◌, inl, inr, List, [], ◌∷◌, ◌++◌, Bool, false, ◌&&◌,
  ◌||◌, arith,
}
use mini_redis.Common.{Bool-cases, some, ok, ◌==◌, length}
use mini_redis.SkipList.{link_level, link, first_bit, later_bits}
use mini_redis.SkipList.Node.{Ptr, SkipListNode, SkipList, forward_at}
use mini_redis.SkipList.Chain.{Item, IsReadable, Has, Chain, Chain-Reaches}
use mini_redis.SkipList.Heap.{Balanced, Same, Same-refl, Same-trans}
use mini_redis.SkipList.Linked.{Linked, Linked-IsReadable, link_level-ok}
use mini_redis.SkipList.Frame.{Chain-unique, Has-mono}

pub Has-append :
    (s : SkipList) (i b : ℕ) (before behind : List Item)
    → Has s i b behind
    → Has s i b (before ++ behind)
Has-append s i b [] behind h = h
Has-append s i b ((c, w) ∷ before) behind h = inr (Has-append s i b before behind h)

-- What is behind each node does not change when a later level is linked.
module _ (s s' : SkipList) (node u i : ℕ) (next : Ptr) (linked : Linked node u (suc i) next s s')
    (same : Same s s') (new_u : (items : List Item) → Chain s u items → Has s' (suc i) node items)
    (new_node : (items : List Item) (b : ℕ)
      → Chain s node items
      → next ≡ some b
      → Has s' (suc i) b items) where
  levels :
      (a : ℕ) (items : List Item)
      → Chain s a items
      → (j b : ℕ) → forward_at s' a j ≡ ok (some b)
      → Has s' j b items
  levels a items c j b e = elim (Bool-cases ((a == u) && (j == suc i))) [
    | inl h ↦
        let au : a ≡ u = ground arith in
        let ji : j ≡ suc i = ground arith in
        let q : node ≡ b = some-inj (ok-inj (sym (linked a j ∙ rw h refl) ∙ e)) in
        rw (← q, ji) (new_u items (subst (λ (t : ℕ). Chain s t items) au c))
    | inr h ↦ elim (Bool-cases ((a == node) && (j == suc i))) [
      | inl k ↦
          let an : a ≡ node = ground arith in
          let ji : j ≡ suc i = ground arith in
          let q : next ≡ some b = ok-inj (sym (linked a j ∙ rw (h, k) refl) ∙ e) in
          rw ji (new_node items b (subst (λ (t : ℕ). Chain s t items) an c) q)
      | inr k ↦
          Has-mono s s' j b items (Linked-IsReadable node u (suc i) next s s' linked j b)
            ((Chain-Reaches s a items c).1 j b (sym (linked a j ∙ rw (h, k) refl) ∙ e))
    ]
  ]

  zeroth : (a : ℕ) → forward_at s' a 0 ≡ forward_at s a 0
  zeroth a = linked a 0 ∙ (ground arith)

  pub Chain-link : (a : ℕ) (items : List Item) → Chain s a items → Chain s' a items
  Chain-link a [] c = (zeroth a ∙ c.0, levels a [] c)
  Chain-link a ((b, x) ∷ items) (r, at, c) = (
    (zeroth a ∙ r.0, levels a ((b, x) ∷ items) (r, at, c)),
    same.keeps b x at,
    Chain-link b items c,
  )

-- A node to link behind: what follows it, and that its pointer passes over `mid`.
pub record Ahead (s : SkipList) (j : ℕ) (whole post : List Item) (u : ℕ) : Type 0 where
  pub mid : List Item
  pub chain : Chain s u (mid ++ whole)
  pub level : IsReadable s j u
  pub after : (b : ℕ) → forward_at s u j ≡ ok (some b) → Has s j b post

abbrev pub AllAhead : SkipList → ℕ → List Item → List Item → List ℕ → Type 0
AllAhead s j whole post [] = Unit {0}
AllAhead s j whole post (u ∷ us) = Ahead s j whole post u × AllAhead s (suc j) whole post us

-- What the loop over the levels from `i` to before `n` keeps.
pub record Kept (i n : ℕ) (s s' : SkipList) : Type 0 where
  pub same : Same s s'
  pub chains : (a : ℕ) (items : List Item) → Chain s a items → Chain s' a items
  pub readable : (b j : ℕ) → IsReadable s j b → IsReadable s' j b
  pub above : (b j : ℕ) → n ≤ j → forward_at s' b j ≡ forward_at s b j

Kept-refl : (i n : ℕ) (s : SkipList) → Kept i n s s
Kept-refl i n s = record {
  same = Same-refl s;
  chains = λ a items c. c;
  readable = λ b j r. r;
  above = λ b j l. refl;
}

module _ (node : ℕ) (v : SkipListNode) (post : List Item) where
  AllAhead-Linked :
      (s s' : SkipList) (u i : ℕ) (next : Ptr)
      → Linked node u i next s s'
      → ((a : ℕ) (items : List Item) → Chain s a items → Chain s' a items)
      → (j : ℕ) (us : List ℕ) → i < j
      → AllAhead s j ((node, v) ∷ post) post us
      → AllAhead s' j ((node, v) ∷ post) post us
  AllAhead-Linked s s' u i next w k j [] l h = tt
  AllAhead-Linked s s' u i next w k j (p ∷ us) l (h, hs) = (
    record {
      mid = h.mid;
      chain = k p (h.mid ++ ((node, v) ∷ post)) h.chain;
      level = Linked-IsReadable node u i next s s' w j p h.level;
      after = λ b e.
          Has-mono s s' j b post (Linked-IsReadable node u i next s s' w j b)
            (h.after b (sym (w p j ∙ (ground arith)) ∙ e));
    },
    AllAhead-Linked s s' u i next w k (suc j) us (omega arith) hs,
  )

  -- One level behind the first.
  level-ok :
      (s : SkipList) (i : ℕ) (u : ℕ)
      → Balanced s
      → Chain s node post
      → IsReadable s (suc i) node
      → Ahead s (suc i) ((node, v) ∷ post) post u
      → (next : Ptr) × (s' : SkipList) × (link_level node u (suc i) s ≡ ok s')
        × Kept (suc i) (suc (suc i)) s s'
        × Linked node u (suc i) next s s'
  level-ok s i u bal c r h =
      let (next, e) = h.level in
      let target : (b : ℕ) → next ≡ some b → Has s (suc i) b post =
        λ b q. h.after b (e ∙ ap ok q) in
      let (s', l, same, w) =
        link_level-ok s node u (suc i) next bal e r
          (λ b q. Has-readable s (suc i) b post (target b q)) in
      let keep = Linked-IsReadable node u (suc i) next s s' w in
      (
        next,
        s',
        l,
        record {
          same = same;
          chains =
              Chain-link s s' node u i next w same
                (λ items d.
                  subst (λ (t : List Item). Has s' (suc i) node t)
                    (Chain-unique s u (h.mid ++ ((node, v) ∷ post)) items h.chain d)
                    (Has-append s' (suc i) node h.mid ((node, v) ∷ post)
                      (inl (refl, keep (suc i) node r))))
                (λ items b d q.
                  subst (λ (t : List Item). Has s' (suc i) b t) (Chain-unique s node post items c d)
                    (Has-mono s s' (suc i) b post (keep (suc i) b) (target b q)));
          readable = λ b j. keep j b;
          above = λ b j le. w b j ∙ (ground arith);
        },
        w,
      )
    where
      Has-readable :
          (s : SkipList) (i b : ℕ) (items : List Item) → Has s i b items → IsReadable s i b
      Has-readable s i b [] h = absurd h
      Has-readable s i b ((c, x) ∷ items) (inl (e, r)) = r
      Has-readable s i b ((c, x) ∷ items) (inr h) = Has-readable s i b items h

  pub link-Kept :
      (s : SkipList) (i : ℕ) (taller : Bool) (bits : List Bool) (us : List ℕ)
      → Balanced s
      → Chain s node post
      → ((j : ℕ) → suc i ≤ j → j < suc i + length us → IsReadable s j node)
      → AllAhead s (suc i) ((node, v) ∷ post) post us
      → (s' : SkipList) × (link node (suc i) taller bits us s ≡ ok s')
        × Kept (suc i) (suc i + length us) s s'
  unfolding link
  link-Kept s i taller bits [] bal c r h = (s, refl, Kept-refl (suc i) (suc i + 0) s)
  link-Kept s i taller bits (u ∷ us) bal c r (h, hs) =
      elim (Bool-cases (taller || first_bit bits)) [
        | inr stop ↦ (s, rw (behind, stop) refl, Kept-refl (suc i) (suc i + length (u ∷ us)) s)
        | inl go ↦
            let (next, s1, l, k, w) =
              level-ok s i u bal c (r (suc i) (omega arith) (omega arith)) h in
            let (s2, l2, k2) =
              link-Kept s1 (suc i) taller (later_bits bits) us (k.same.balanced bal)
                (k.chains node post c)
                (λ j a b. k.readable node j (r j (omega arith) (omega arith)))
                (AllAhead-Linked s s1 u (suc i) next w k.chains (suc (suc i)) us (omega arith)
                  hs) in
            (
              s2,
              rw (behind, go, l, next_level) l2,
              record {
                same = Same-trans s s1 s2 k.same k2.same;
                chains = λ a items x. k2.chains a items (k.chains a items x);
                readable = λ b j x. k2.readable b j (k.readable b j x);
                above = λ b j x. k2.above b j (omega arith) ∙ k.above b j (omega arith);
              },
            )
      ]
    where
      behind : (suc i == 0) ≡ false
      behind = ground arith

      next_level : suc i + 1 ≡ suc (suc i)
      next_level = omega arith
