-- ===== src/SkipList/Lookup.antt =====
-- `get` against the list of versions.
use mathlib.Core.Path.{subst}
use mini_redis.Common.{ok-inj}
use mini_redis.Common.{
  ℕ, zero, suc, ◌≤◌, ◌<◌, ◌≡◌, refl, sym, ap, ◌∙◌, inl, inr, List, [], ◌∷◌, ◌++◌, Bool, true, false,
  ◌&&◌, ◌||◌, arith,
}
use mini_redis.Common.{
  Bool-cases, none, some, ok, All, length, length-append, leb, ◌==◌, if◌then◌else◌,
}
use mini_redis.Common.Keys.{Bytes, bytes_eq, bytes_lt}
use mini_redis.SkipList.{
  descend, rounds, key_below, begin_preffix, visible_from, get, entries_from, flush,
}
use mini_redis.SkipList.Node.{Ptr, SkipListNode, SkipList, node_lt, load, forward_at}
use mini_redis.SkipList.Chain.{
  bare, Item, IsAt, IsReadable, first_ptr, Chain, Chain-Reaches, IsClosed, Below, drop_less,
}
use mini_redis.SkipList.Heap.{Balanced}
use mini_redis.SkipList.Order.{
  IsSorted, IsSorted-behind, IsClosed-of, key_below_mono, node_lt-Precedes, bytes_lt-ne,
  bytes_lt_trans, bytes_gt-ne, bytes_lt-total, Precedes,
}
use mini_redis.SkipList.Search.{IgnoresPointers, Stopped, descend-Stopped, Stops, Stops-drop_less}

-- What a skip list holds: the versions in order behind the head, which has every level.
pub record Holds (s : SkipList) (items : List Item) : Type 0 where
  pub chain : Chain s s.head items
  pub sorted : IsSorted items
  pub some_level : 0 < s.current_level
  pub levels_fit : s.current_level ≤ s.max_level
  pub head_levels : (i : ℕ) → i < s.max_level → IsReadable s i s.head
  pub old : All (λ (x : Item). x.0 < s.fresh) items
  pub old_head : s.head < s.fresh
  pub room : length items < s.fresh
  pub balanced : Balanced s
  pub top : (i : ℕ) → s.current_level ≤ i → i < s.max_level → forward_at s s.head i ≡ ok none

-- The address of the first version of the key that the transaction sees; 0 sees all.
unfoldable pub find_version : Bytes → ℕ → List Item → Ptr
find_version key id [] = none
find_version key id ((a, v) ∷ items) =
    let rest = find_version key id items in
    if bytes_eq v.key key && ((id == 0) || leb v.tranc_id id) then some a else rest

find_version-Below :
    (key : Bytes) (id : ℕ) (before behind : List Item)
    → Below (key_below key) before
    → find_version key id (before ++ behind) ≡ find_version key id behind
unfolding find_version key_below
find_version-Below key id [] behind h = refl
find_version-Below key id ((a, v) ∷ before) behind (h, hs) =
    rw (bytes_lt-ne v.key key h, find_version-Below key id before behind hs) refl

-- Behind a version with another key there is none of the key.
find_version-other :
    (key : Bytes) (id : ℕ) (items : List Item)
    → All (λ (x : Item). bytes_eq x.1.key key ≡ false) items
    → find_version key id items ≡ none
unfolding find_version
find_version-other key id [] h = refl
find_version-other key id ((a, v) ∷ items) (h, hs) = rw (h, find_version-other key id items hs) refl

others :
    (key : Bytes) (v : SkipListNode) (items : List Item)
    → bytes_lt key v.key ≡ true
    → All (λ (x : Item). node_lt v x.1 ≡ true) items
    → All (λ (x : Item). bytes_eq x.1.key key ≡ false) items
others key v [] h k = tt
others key v ((a, w) ∷ items) h (k, ks) =
    (bytes_gt-ne key w.key (above (node_lt-Precedes v w k)), others key v items h ks)
  where
    above : Precedes v w → bytes_lt key w.key ≡ true
    above (inl a) = bytes_lt_trans key v.key w.key h a
    above (inr (e, l)) = rw (← e) h

module _ (s : SkipList) where
  key-IsAt : (a : ℕ) (v n : SkipListNode) → load s a ≡ ok n → IsAt s (a, v) → bare n ≡ v
  key-IsAt a v n h (m, e, q) = ap bare (ok-inj (sym h ∙ e)) ∙ q

  visible_from-find_version :
      (fuel : ℕ) (p : ℕ) (key : Bytes) (id : ℕ) (items : List Item)
      → length items < fuel
      → Chain s p items
      → IsSorted items
      → All (λ (x : Item). key_below key x.1 ≡ false) items
      → visible_from fuel s key id (first_ptr items) ≡ ok (find_version key id items)
  unfolding visible_from find_version first_ptr key_below bare
  visible_from-find_version fuel p key id [] f c k h = refl
  visible_from-find_version zero p key id ((a, v) ∷ items) f c k h = absurd (omega arith)
  visible_from-find_version (suc fuel) p key id ((a, v) ∷ items) f (r, (n, ld, q), c) (k, ks)
        (h, hs) =
      subst
        (λ (w : SkipListNode).
          All (λ (x : Item). node_lt w x.1 ≡ true) items
          → key_below key w ≡ false
          → visible_from (suc fuel) s key id (some a) ≡ ok (find_version key id ((a, w) ∷ items)))
        q (seen (visible_from-find_version fuel a key id items (omega arith) c ks hs)) k h
    where
      seen :
          visible_from fuel s key id (first_ptr items) ≡ ok (find_version key id items)
          → All (λ (x : Item). node_lt (bare n) x.1 ≡ true) items
          → key_below key (bare n) ≡ false
          → visible_from (suc fuel) s key id (some a)
            ≡ ok (find_version key id ((a, bare n) ∷ items))
      seen ih k h = elim (Bool-cases (bytes_eq n.key key)) [
        | inr other ↦
            rw (ld, other)
              (ap ok (
                sym (
                  find_version-other key id items
                    (others key (bare n) items (bytes_lt-total n.key key h other) k))))
        | inl same ↦ elim (Bool-cases ((id == 0) || leb n.tranc_id id)) [
          | inl sees ↦ rw (ld, same, sees) refl
          | inr hidden ↦ rw ((Chain-Reaches s a items c).0, ld, same, hidden) ih
        ]
      ]

  pub not_below :
      (key : Bytes) (items : List Item)
      → IsClosed (key_below key) items
      → All (λ (x : Item). key_below key x.1 ≡ false) (drop_less (key_below key) items)
  unfolding drop_less
  not_below key [] k = tt
  not_below key ((a, v) ∷ items) (h, k) = elim (Bool-cases (key_below key v)) [
    | inl e ↦ rw e (not_below key items k)
    | inr e ↦ rw e (e, h e)
  ]

-- The search from the head comes to its end on every level.
pub descend-Holds :
    (s : SkipList) (items : List Item) (less : SkipListNode → Bool)
    → IgnoresPointers less
    → Holds s items
    → IsClosed less items
    → (p : ℕ) × (us : List ℕ) × (descend (rounds s) s less s.current_level s.head ≡ ok (p, us))
      × Stopped s less s.head items 0 us
      × (length us ≡ s.current_level)
      × Stops s less 0 s.head items p
unfolding rounds
descend-Holds s items less ig h k = from_level s.current_level h.some_level h.levels_fit
  where
    from_level :
        (n : ℕ)
        → 0 < n
        → n ≤ s.max_level
        → (p : ℕ) × (us : List ℕ) × (descend (rounds s) s less n s.head ≡ ok (p, us))
          × Stopped s less s.head items 0 us
          × (length us ≡ n)
          × Stops s less 0 s.head items p
    from_level zero l m = absurd (omega arith)
    from_level (suc i) l m =
        descend-Stopped s less ig (rounds s) i s.head items (omega (arith, h.room)) h.chain
          (h.head_levels i (omega arith)) k

-- The lookup comes to its end, and answers the address of the first version of the key that the
-- transaction sees.
pub get-find_version :
    (s : SkipList) (items : List Item) (key : Bytes) (id : ℕ)
    → Holds s items
    → get key id s ≡ ok (find_version key id items)
unfolding get begin_preffix rounds
get-find_version s items key id h =
    let closed = IsClosed-of (key_below key) (key_below_mono key) items h.sorted in
    let (p, us, d, stopped, len, st) =
      descend-Holds s items (key_below key) (unfold key_below bare in (λ n. refl)) h closed in
    let rest_eq =
      Stops-drop_less s (key_below key) (unfold key_below bare in (λ n. refl)) s.head items p st in
    let sorted : IsSorted st.rest =
      IsSorted-behind st.passed st.rest (subst (λ (t : List Item). IsSorted t) st.parts h.sorted) in
    let above =
      subst (λ (t : List Item). All (λ (x : Item). key_below key x.1 ≡ false) t) (sym rest_eq)
        (not_below s key items closed) in
    let found =
      visible_from-find_version s (rounds s) p key id st.rest
        (omega (arith, h.room, ap length st.parts, length-append st.passed st.rest)) st.chain sorted
        above in
    let same : find_version key id st.rest ≡ find_version key id items =
      sym (find_version-Below key id st.passed st.rest st.below)
      ∙ ap (find_version key id) (sym st.parts) in
    rw (get, begin_preffix, d, (Chain-Reaches s p st.rest st.chain).0) (found ∙ ap ok same)

-- The key, the value and the transaction of each version.
unfoldable pub contents : List Item → List (Bytes × Bytes × ℕ)
contents [] = []
contents ((a, v) ∷ items) = (v.key, v.value, v.tranc_id) ∷ contents items

entries_from-contents :
    (s : SkipList) (fuel p : ℕ) (items : List Item)
    → length items < fuel
    → Chain s p items
    → entries_from fuel s (first_ptr items) ≡ ok (contents items)
unfolding entries_from contents first_ptr bare
entries_from-contents s fuel p [] f c = refl
entries_from-contents s zero p ((a, v) ∷ items) f c = absurd (omega arith)
entries_from-contents s (suc fuel) p ((a, v) ∷ items) f (r, (n, ld, q), c) =
    rw
      (
        (Chain-Reaches s a items c).0,
        ld,
        entries_from-contents s fuel a items (omega arith) c,
        ← ap (λ (x : SkipListNode). x.key) q,
        ← ap (λ (x : SkipListNode). x.value) q,
        ← ap (λ (x : SkipListNode). x.tranc_id) q,
      )
      refl

-- On a well-formed list `flush` comes to its end and answers all that the list holds, in order.
pub flush-contents :
    (s : SkipList) (items : List Item) → Holds s items → flush s ≡ ok (contents items)
unfolding flush rounds
flush-contents s items h =
    rw ((Chain-Reaches s s.head items h.chain).0)
      (entries_from-contents s (rounds s) s.head items (omega (arith, h.room)) h.chain)
