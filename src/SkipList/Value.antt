-- ===== src/SkipList/Value.antt =====
-- `put` of a version that is there: the node gets the new value.
use mathlib.Core.Path.{subst}
use mini_redis.Common.{ok-inj}
use mini_redis.Common.{
  ℕ, ◌≤◌, ◌<◌, ◌≡◌, refl, sym, ap, ◌∙◌, inl, inr, List, [], ◌∷◌, ◌++◌, true, false, arith,
}
use mini_redis.Common.{Bool-cases, ok, All, ◌==◌, length, length-append}
use mini_redis.Common.Keys.{Bytes}
use mini_redis.SkipList.{put_value}
use mini_redis.SkipList.Node.{SkipListNode, SkipList, load, store, forward_at, node_lt}
use mini_redis.SkipList.Chain.{bare, Item, IsAt, first_ptr, Has, Reaches, Chain}
use mini_redis.SkipList.Order.{IsSorted}
use mini_redis.SkipList.Heap.{Balanced, load-store_same, load-store_other, eq_of_==}
use mini_redis.SkipList.Frame.{Chain-unique, Has-mono}
use mini_redis.SkipList.Lookup.{Holds}

-- A list with another version of the same key and id at one place.
module _ (b : ℕ) (w w' : SkipListNode) (post : List Item) where
  abbrev pub old_items : List Item → List Item
  old_items before = before ++ (b, w) ∷ post

  abbrev pub new_items : List Item → List Item
  new_items before = before ++ (b, w') ∷ post

  pub All-replace :
      (P : Item → Type 0) (before : List Item)
      → (P (b, w) → P (b, w'))
      → All P (old_items before)
      → All P (new_items before)
  All-replace P [] k (h, hs) = (k h, hs)
  All-replace P (x ∷ before) k (h, hs) = (h, All-replace P before k hs)

  pub IsSorted-replace :
      (before : List Item)
      → ((x : SkipListNode) → node_lt x w ≡ true → node_lt x w' ≡ true)
      → ((x : SkipListNode) → node_lt w x ≡ true → node_lt w' x ≡ true)
      → IsSorted (old_items before)
      → IsSorted (new_items before)
  IsSorted-replace [] k l (h, s) = (later post h, s)
    where
      later :
          (xs : List Item)
          → All (λ (x : Item). node_lt w x.1 ≡ true) xs
          → All (λ (x : Item). node_lt w' x.1 ≡ true) xs
      later [] h = tt
      later (x ∷ xs) (h, hs) = (l x.1 h, later xs hs)
  IsSorted-replace ((a, v) ∷ before) k l (h, s) = (
    All-replace (λ (x : Item). node_lt v x.1 ≡ true) before (k v) h,
    IsSorted-replace before k l s,
  )

module _ (s : SkipList) (b : ℕ) (n : SkipListNode) (value : Bytes) (post : List Item)
    (ld : load s b ≡ ok n) (chain_b : Chain s b post) where
  abbrev written : SkipList
  written = put_value b n value s

  abbrev changed : SkipListNode
  changed = record n { value = value }

  load-same : load written b ≡ ok changed
  unfolding load put_value
  load-same = load-store_same s b changed

  load-other : (c : ℕ) → (c == b) ≡ false → load written c ≡ load s c
  unfolding load put_value
  load-other c h = load-store_other s b c changed h

  pub forward_at-put_value : (c j : ℕ) → forward_at written c j ≡ forward_at s c j
  unfolding forward_at
  forward_at-put_value c j = elim (Bool-cases (c == b)) [
    | inl e ↦ rw (eq_of_== c b e, load-same, ld) refl
    | inr e ↦ rw (load-other c e) refl
  ]

  not_b :
      (c : ℕ) (items : List Item)
      → Chain s c items
      → (length items ≡ length post → ⊥)
      → (c == b) ≡ false
  not_b c items k h = elim (Bool-cases (c == b)) [
    | inr e ↦ e
    | inl e ↦ absurd (
        h (
          ap length (
            Chain-unique s b items post (subst (λ (t : ℕ). Chain s t items) (eq_of_== c b e) k)
              chain_b)))
  ]

  has' : (i c : ℕ) (items : List Item) → Has s i c items → Has written i c items
  has' i c items = Has-mono s written i c items (λ (q, e). (q, forward_at-put_value c i ∙ e))

  reaches : (a : ℕ) (items : List Item) → Reaches s a items → Reaches written a items
  reaches a items (r, rs) = (
    forward_at-put_value a 0 ∙ r,
    λ i c e. has' i c items (rs i c (sym (forward_at-put_value a i) ∙ e)),
  )

  keeps : (c : ℕ) (v : SkipListNode) → (c == b) ≡ false → IsAt s (c, v) → IsAt written (c, v)
  keeps c v h (m, l, q) = (m, load-other c h ∙ l, q)

  Chain-after :
      (a : ℕ) (items : List Item)
      → length items ≤ length post
      → Chain s a items
      → Chain written a items
  Chain-after a [] l c = reaches a [] c
  Chain-after a ((c, v) ∷ items) l (r, at, k) = (
    reaches a ((c, v) ∷ items) r,
    keeps c v (not_b c items k (λ e. omega (arith, e, l))) at,
    Chain-after c items (omega (arith, l)) k,
  )

  Has-replace :
      (w' : SkipListNode) (i c : ℕ) (before : List Item)
      → Has written i c (before ++ (b, bare n) ∷ post)
      → Has written i c (before ++ (b, w') ∷ post)
  Has-replace w' i c [] h = h
  Has-replace w' i c (x ∷ before) (inl h) = inl h
  Has-replace w' i c (x ∷ before) (inr h) = inr (Has-replace w' i c before h)

  pub Chain-value :
      (a : ℕ) (before : List Item)
      → Chain s a (before ++ (b, bare n) ∷ post)
      → Chain written a (before ++ (b, bare changed) ∷ post)
  unfolding first_ptr
  Chain-value a [] (r, at, c) = (
    reaches a ((b, bare n) ∷ post) r,
    (changed, load-same, refl),
    Chain-after b post (omega arith) c,
  )
  Chain-value a ((c, v) ∷ before) (r, at, k) =
      let (p, ps) = reaches a ((c, v) ∷ before ++ (b, bare n) ∷ post) r in
      (
        (p, λ i d e. Has-replace (bare changed) i d ((c, v) ∷ before) (ps i d e)),
        keeps c v
            (not_b c (before ++ (b, bare n) ∷ post) k
              (λ e. omega (arith, e, length-append before ((b, bare n) ∷ post))))
            at,
        Chain-value c before k,
      )

pub put_value-Holds :
    (s : SkipList) (items before post : List Item) (b : ℕ) (n : SkipListNode) (value : Bytes)
    → Holds s items
    → load s b ≡ ok n
    → Chain s b post
    → items ≡ before ++ (b, bare n) ∷ post
    → Holds (put_value b n value s) (before ++ (b, bare (record n { value = value })) ∷ post)
unfolding put_value store load bare node_lt
put_value-Holds s items before post b n value h ld c parts =
    let w = bare n in
    let w' = bare (record n { value = value }) in
    let same = forward_at-put_value s b n value post ld c in
    record {
      chain =
          Chain-value s b n value post ld c s.head before
            (subst (λ (t : List Item). Chain s s.head t) parts h.chain);
      sorted =
          IsSorted-replace b w w' post before (λ x k. k) (λ x k. k)
            (subst (λ (t : List Item). IsSorted t) parts h.sorted);
      some_level = h.some_level;
      levels_fit = h.levels_fit;
      head_levels = λ i l. (let (q, e) = h.head_levels i l in (q, same s.head i ∙ e));
      old =
          All-replace b w w' post (λ (x : Item). x.0 < s.fresh) before (λ x. x)
            (subst (λ (t : List Item). All (λ (x : Item). x.0 < s.fresh) t) parts h.old);
      old_head = h.old_head;
      room = omega (
        arith,
        h.room,
        ap length parts,
        length-append before ((b, w) ∷ post),
        length-append before ((b, w') ∷ post),
      );
      balanced = balanced;
      top = λ i x y. same s.head i ∙ h.top i x y;
    }
  where
    balanced : Balanced (put_value b n value s)
    balanced a m l = elim (Bool-cases (a == b)) [
      | inl e ↦
          let q : record n { value = value } ≡ m = ok-inj (
            sym (load-same s b n value post ld c)
            ∙ ap (load (put_value b n value s)) (sym (eq_of_== a b e))
            ∙ l) in
          rw (← q) (h.balanced b n ld)
      | inr e ↦ h.balanced a m (sym (load-other s b n value post ld c a e) ∙ l)
    ]
