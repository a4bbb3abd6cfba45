-- ===== src/SkipList/Prefix.antt =====
-- The range of the keys with a prefix.
use mathlib.Core.Path.{subst}
use mini_redis.Common.{
  ℕ, zero, suc, ◌<◌, ◌≡◌, refl, sym, ap, ◌∙◌, inl, inr, List, [], ◌∷◌, ◌++◌, true, false, arith,
}
use mini_redis.Common.{Bool-cases, some, ok, All, ◌==◌, if◌then◌else◌, length, length-append}
use mini_redis.Common.Keys.{Bytes, bytes_eq, bytes_lt, compare_bytes}
use mini_redis.SkipList.Node.{Ptr, SkipListNode, SkipList, node_lt}
use mini_redis.MemTable.Table.{Entry}
use mini_redis.SkipList.Chain.{bare, Item, Chain, Chain-Reaches, Below, first_ptr}
use mini_redis.SkipList.Order.{
  IsSorted, IsSorted-behind, IsClosed-of, key_below_mono, node_lt-Precedes, Precedes,
}
use mini_redis.SkipList.Search.{IgnoresPointers, Stops-drop_less}
use mini_redis.SkipList.Frame.{Chain-unique}
use mini_redis.SkipList.Lookup.{Holds, contents, descend-Holds, not_below}
use mini_redis.SkipList.{rounds, key_below, begin_preffix}
use mini_redis.SkipList.Range.{has_prefix, skip_prefixed, end_preffix, ptr_eq, entries_between}

below-has_prefix : (p k : Bytes) → bytes_lt k p ≡ true → has_prefix p k ≡ false
unfolding has_prefix bytes_lt bytes_eq compare_bytes
below-has_prefix [] [] h = cc
below-has_prefix [] (y ∷ k) h = cc
below-has_prefix (x ∷ p) [] h = refl
below-has_prefix (x ∷ p) (y ∷ k) h = ground (arith, below-has_prefix p k)

between-has_prefix :
    (p k l : Bytes)
    → bytes_lt k p ≡ false
    → has_prefix p k ≡ false
    → bytes_lt k l ≡ true
    → has_prefix p l ≡ false
unfolding has_prefix bytes_lt bytes_eq compare_bytes
between-has_prefix [] k l h e m = absurd (cc)
between-has_prefix (x ∷ p) [] l h e m = absurd (cc)
between-has_prefix (x ∷ p) (y ∷ k) [] h e m = absurd (cc)
between-has_prefix (x ∷ p) (y ∷ k) (z ∷ l) h e m = ground (arith, between-has_prefix p k l)

unfoldable pub with_prefix : Bytes → List Entry → List Entry
with_prefix prefix [] = []
with_prefix prefix ((k, v, i) ∷ entries) =
    let rest = with_prefix prefix entries in if has_prefix prefix k then (k, v, i) ∷ rest else rest

-- The items from the first on whose key has the prefix, and those behind them.
unfoldable drop_prefixed : Bytes → List Item → List Item
drop_prefixed prefix [] = []
drop_prefixed prefix ((a, v) ∷ items) =
    let rest = drop_prefixed prefix items in
    if has_prefix prefix v.key then rest else (a, v) ∷ items

with_prefix-Below :
    (p : Bytes) (before behind : List Item)
    → Below (key_below p) before
    → with_prefix p (contents (before ++ behind)) ≡ with_prefix p (contents behind)
unfolding with_prefix contents key_below
with_prefix-Below p [] behind h = refl
with_prefix-Below p ((a, v) ∷ before) behind (h, hs) =
    rw (below-has_prefix p v.key h) (with_prefix-Below p before behind hs)

with_prefix-none :
    (p : Bytes) (items : List Item)
    → All (λ (x : Item). has_prefix p x.1.key ≡ false) items
    → with_prefix p (contents items) ≡ []
unfolding with_prefix contents
with_prefix-none p [] h = refl
with_prefix-none p ((a, v) ∷ items) (h, hs) = rw h (with_prefix-none p items hs)

others :
    (p : Bytes) (v : SkipListNode) (items : List Item)
    → key_below p v ≡ false
    → has_prefix p v.key ≡ false
    → All (λ (x : Item). node_lt v x.1 ≡ true) items
    → All (λ (x : Item). has_prefix p x.1.key ≡ false) items
unfolding key_below
others p v [] l h k = tt
others p v ((a, w) ∷ items) l h (k, ks) = (behind (node_lt-Precedes v w k), others p v items l h ks)
  where
    behind : Precedes v w → has_prefix p w.key ≡ false
    behind (inl m) = between-has_prefix p v.key w.key l h m
    behind (inr (e, m)) = rw (← e) h

skip_prefixed-drop :
    (s : SkipList) (fuel a : ℕ) (p : Bytes) (items : List Item)
    → length items < fuel
    → Chain s a items
    → skip_prefixed fuel s p (first_ptr items) ≡ ok (first_ptr (drop_prefixed p items))
unfolding skip_prefixed first_ptr drop_prefixed
skip_prefixed-drop s fuel a p [] f c = refl
skip_prefixed-drop s zero a p (x ∷ items) f c = absurd (omega arith)
skip_prefixed-drop s (suc fuel) a p ((b, v) ∷ items) f (r, (n, ld, q), c) =
    let ih = skip_prefixed-drop s fuel b p items (omega arith) c in
    let key : n.key ≡ v.key = unfold bare in ap (λ (x : SkipListNode). x.key) q in
    elim (Bool-cases (has_prefix p v.key)) [
      | inl e ↦ rw ((Chain-Reaches s b items c).0, ld, key, e) ih
      | inr e ↦ rw (ld, key, e) refl
    ]

Chain-dropped :
    (s : SkipList) (a d : ℕ) (w : SkipListNode) (p : Bytes) (items ys : List Item)
    → Chain s a items
    → drop_prefixed p items ≡ (d, w) ∷ ys
    → Chain s d ys × (length ys < length items)
unfolding drop_prefixed
Chain-dropped s a d w p [] ys c e = absurd (cc)
Chain-dropped s a d w p ((b, v) ∷ items) ys (r, at, c) e = elim (Bool-cases (has_prefix p v.key)) [
  | inl h ↦
      let same : drop_prefixed p ((b, v) ∷ items) ≡ drop_prefixed p items = rw h refl in
      let (k, l) = Chain-dropped s b d w p items ys c (sym same ∙ e) in (k, omega (arith, l))
  | inr h ↦
      let same : (b, v) ∷ items ≡ (d, w) ∷ ys = sym (rw h refl) ∙ e in
      let address : b ≡ d = cc in
      let tail : items ≡ ys = cc in
      (
        subst (λ (t : ℕ). Chain s t ys) address (subst (λ (t : List Item). Chain s b t) tail c),
        omega (arith, ap length tail),
      )
]

-- A node is not what is left of the items behind it.
not_dropped :
    (s : SkipList) (b : ℕ) (p : Bytes) (items : List Item)
    → Chain s b items
    → ptr_eq (some b) (first_ptr (drop_prefixed p items)) ≡ false
unfolding ptr_eq first_ptr
not_dropped s b p items c = go (drop_prefixed p items) refl
  where
    go : (xs : List Item) → drop_prefixed p items ≡ xs → ptr_eq (some b) (first_ptr xs) ≡ false
    go [] e = refl
    go ((d, w) ∷ ys) e = elim (Bool-cases (b == d)) [
      | inr h ↦ h
      | inl h ↦
          let (k, l) = Chain-dropped s b d w p items ys c e in
          let same : b ≡ d = ground arith in
          let k' = subst (λ (t : ℕ). Chain s t ys) (sym same) k in
          absurd (omega (arith, l, ap length (Chain-unique s b items ys c k')))
    ]

entries_between-with_prefix :
    (s : SkipList) (fuel a : ℕ) (p : Bytes) (items : List Item)
    → length items < fuel
    → Chain s a items
    → IsSorted items
    → All (λ (x : Item). key_below p x.1 ≡ false) items
    → entries_between fuel s (first_ptr items) (first_ptr (drop_prefixed p items))
      ≡ ok (with_prefix p (contents items))
unfolding entries_between first_ptr drop_prefixed with_prefix contents ptr_eq
entries_between-with_prefix s zero a p items f c k h = absurd (omega arith)
entries_between-with_prefix s (suc fuel) a p [] f c k h = refl
entries_between-with_prefix s (suc fuel) a p ((b, v) ∷ items) f (r, (n, ld, q), c) (k, ks) (h, hs) =
    let ih = entries_between-with_prefix s fuel b p items (omega arith) c ks hs in
    let key : n.key ≡ v.key = unfold bare in ap (λ (x : SkipListNode). x.key) q in
    let value : n.value ≡ v.value = unfold bare in ap (λ (x : SkipListNode). x.value) q in
    let id : n.tranc_id ≡ v.tranc_id = unfold bare in ap (λ (x : SkipListNode). x.tranc_id) q in
    elim (Bool-cases (has_prefix p v.key)) [
      | inl e ↦
          rw (e, not_dropped s b p items c, (Chain-Reaches s b items c).0, ld, ih, key, value, id)
            refl
      | inr e ↦
          let here : (b == b) ≡ true = ground arith in
          rw (e, here) (ap ok (sym (with_prefix-none p items (others p v items h e k))))
    ]

-- On a well-formed list the range from `begin_preffix` to `end_preffix` is found without a fault,
-- and a walk along it meets the entries whose key has the prefix, all of them and in order.
pub entries_between-preffix :
    (s : SkipList) (items : List Item) (prefix : Bytes)
    → Holds s items
    → (p q : Ptr) × (begin_preffix prefix s ≡ ok p)
      × (end_preffix prefix s ≡ ok q)
      × (entries_between (rounds s) s p q ≡ ok (with_prefix prefix (contents items)))
unfolding begin_preffix end_preffix
entries_between-preffix s items prefix h =
    let ignores : IgnoresPointers (key_below prefix) = unfold key_below bare in (λ n. refl) in
    let closed = IsClosed-of (key_below prefix) (key_below_mono prefix) items h.sorted in
    let (u, us, d, stopped, len, st) = descend-Holds s items (key_below prefix) ignores h closed in
    let rest_eq = Stops-drop_less s (key_below prefix) ignores s.head items u st in
    let above =
      subst (λ (t : List Item). All (λ (x : Item). key_below prefix x.1 ≡ false) t) (sym rest_eq)
        (not_below s prefix items closed) in
    let sorted : IsSorted st.rest =
      IsSorted-behind st.passed st.rest (subst (λ (t : List Item). IsSorted t) st.parts h.sorted) in
    let short : length st.rest < rounds s =
      unfold rounds in
      (omega (arith, h.room, ap length st.parts, length-append st.passed st.rest)) in
    let first = (Chain-Reaches s u st.rest st.chain).0 in
    (
      first_ptr st.rest,
      first_ptr (drop_prefixed prefix st.rest),
      rw (d, first) refl,
      rw (d, first) (skip_prefixed-drop s (rounds s) u prefix st.rest short st.chain),
      entries_between-with_prefix s (rounds s) u prefix st.rest short st.chain sorted above
          ∙ ap ok (
              sym (with_prefix-Below prefix st.passed st.rest st.below)
              ∙ ap (λ (t : List Item). with_prefix prefix (contents t)) (sym st.parts)),
    )
