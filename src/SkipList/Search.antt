-- ===== src/SkipList/Search.antt =====
-- The search through the levels.
use mathlib.Core.Path.{subst}
use mini_redis.Common.{ok-inj, some-inj}
use mini_redis.Common.{
  ℕ, zero, suc, ◌+◌, ◌<◌, ◌≡◌, refl, sym, ap, ◌∙◌, inl, inr, List, [], ◌∷◌, ◌++◌, append_assoc,
  Bool, true, false, arith,
}
use mini_redis.Common.{Bool-cases, none, some, ok, All-append, length, length-append}
use mini_redis.SkipList.{walk, descend}
use mini_redis.SkipList.Node.{SkipListNode, SkipList, load, forward_at}
use mini_redis.SkipList.Chain.{
  bare, Item, IsAt, IsReadable, first_ptr, Chain, Chain-Reaches, IsClosed, IsClosed-behind, Below,
  Below-before, drop_less, drop_less-Below, Has-Leads, IsReadable-down,
}

-- The test does not look at the pointers of a node.
abbrev pub IgnoresPointers : (SkipListNode → Bool) → Type 0
IgnoresPointers less = (n : SkipListNode) → less n ≡ less (bare n)

-- `p` is the last of the items, or the node before them.
abbrev pub Spot : ℕ → List Item → ℕ → Type 0
Spot a [] p = a ≡ p
Spot a ((b, v) ∷ items) p = Spot b items p

Spot-append : (a c p : ℕ) (xs ys : List Item) → Spot a xs c → Spot c ys p → Spot a (xs ++ ys) p
Spot-append a c p [] ys h k = subst (λ (t : ℕ). Spot t ys p) (sym h) k
Spot-append a c p ((b, v) ∷ xs) ys h k = Spot-append b c p xs ys h k

Spot-snoc : (a b : ℕ) (xs : List Item) (v : SkipListNode) → Spot a (xs ++ (b, v) ∷ []) b
Spot-snoc a b [] v = refl
Spot-snoc a b ((c, w) ∷ xs) v = Spot-snoc c b xs v

-- Where the walk on level `i` from `a` stops: all behind it on the level is not below.
pub record Stops (s : SkipList) (less : SkipListNode → Bool) (i a : ℕ) (items : List Item) (p : ℕ)
    : Type 0 where
  pub passed : List Item
  pub rest : List Item
  pub parts : items ≡ passed ++ rest
  pub below : Below less passed
  pub spot : Spot a passed p
  pub chain : Chain s p rest
  pub level : IsReadable s i p
  pub blocked :
      (b : ℕ) (v : SkipListNode) → forward_at s p i ≡ ok (some b) → IsAt s (b, v) → less v ≡ false

-- Seen from before the items that were passed already.
pub Stops-after :
    (s : SkipList) (less : SkipListNode → Bool) (i a c : ℕ) (before behind : List Item) (p : ℕ)
    → Below less before
    → Spot a before c
    → Stops s less i c behind p
    → Stops s less i a (before ++ behind) p
Stops-after s less i a c before behind p h sp k = record {
  passed = before ++ k.passed;
  rest = k.rest;
  parts = ap (λ t. before ++ t) k.parts ∙ sym (append_assoc before k.passed k.rest);
  below = All-append _ before k.passed h k.below;
  spot = Spot-append a c p before k.passed sp k.spot;
  chain = k.chain;
  level = k.level;
  blocked = k.blocked;
}

-- The nodes that the levels from `i` on stop at.
abbrev pub Stopped : SkipList → (SkipListNode → Bool) → ℕ → List Item → ℕ → List ℕ → Type 0
Stopped s less a items i [] = Unit {0}
Stopped s less a items i (u ∷ us) = Stops s less i a items u × Stopped s less a items (suc i) us

Stopped-after :
    (s : SkipList) (less : SkipListNode → Bool) (i a c : ℕ) (before behind : List Item)
    (us : List ℕ)
    → Below less before
    → Spot a before c
    → Stopped s less c behind i us
    → Stopped s less a (before ++ behind) i us
Stopped-after s less i a c before behind [] h sp k = tt
Stopped-after s less i a c before behind (u ∷ us) h sp (k, ks) = (
  Stops-after s less i a c before behind u h sp k,
  Stopped-after s less (suc i) a c before behind us h sp ks,
)

Stopped-snoc :
    (s : SkipList) (less : SkipListNode → Bool) (a : ℕ) (items : List Item) (i n : ℕ) (us : List ℕ)
    (u : ℕ)
    → Stopped s less a items i us
    → i + length us ≡ n
    → Stops s less n a items u
    → Stopped s less a items i (us ++ u ∷ [])
Stopped-snoc s less a items i n [] u h e k =
    (subst (λ (t : ℕ). Stops s less t a items u) (omega arith) k, tt)
Stopped-snoc s less a items i n (v ∷ us) u (h, hs) e k =
    (h, Stopped-snoc s less a items (suc i) n us u hs (omega arith) k)

module _ (s : SkipList) (less : SkipListNode → Bool) (ignores : IgnoresPointers less) where
  stop_here :
      (i : ℕ) (a : ℕ) (items : List Item)
      → Chain s a items
      → IsReadable s i a
      → ((b : ℕ) (v : SkipListNode)
          → forward_at s a i ≡ ok (some b)
          → IsAt s (b, v)
          → less v ≡ false)
      → Stops s less i a items a
  stop_here i a items c l h = record {
    passed = [];
    rest = items;
    parts = refl;
    below = tt;
    spot = refl;
    chain = c;
    level = l;
    blocked = h;
  }

  less-IsAt : (b : ℕ) (v n : SkipListNode) → load s b ≡ ok n → IsAt s (b, v) → less n ≡ less v
  less-IsAt b v n h (m, e, q) =
      let same : n ≡ m = ok-inj (sym h ∙ e) in ap less same ∙ ignores m ∙ ap less q

  pub walk-Stops :
      (fuel i a : ℕ) (items : List Item)
      → length items < fuel
      → Chain s a items
      → IsReadable s i a
      → IsClosed less items
      → (p : ℕ) × (walk fuel s less i a ≡ ok p) × Stops s less i a items p
  unfolding walk
  walk-Stops zero i a items f c l k = absurd (omega arith)
  walk-Stops (suc fuel) i a items f c (none, e) k =
      (a, rw e refl, stop_here i a items c (none, e) (λ b v h. absurd (cc (h, e))))
  walk-Stops (suc fuel) i a items f c (some b, e) k =
      let d = Has-Leads s a i b items c ((Chain-Reaches s a items c).1 i b e) in
      let (n, ld, q) = d.at in
      let k' = subst (λ (t : List Item). IsClosed less t) d.parts k in
      elim (Bool-cases (less n)) [
        | inr stop ↦ (
          a,
          rw (e, ld, stop) refl,
          stop_here i a items c (some b, e)
              (λ b' v h at.
                sym (less-IsAt b' v n (ap (load s) (some-inj (sym (ok-inj (sym e ∙ h)))) ∙ ld) at)
                ∙ stop),
        )
        | inl go ↦
            let below : less d.version ≡ true = sym (less-IsAt b d.version n ld d.at) ∙ go in
            let shorter : length items ≡ length d.before + suc (length d.behind) =
              ap length d.parts ∙ length-append d.before ((b, d.version) ∷ d.behind) in
            let (p, w, st) =
              walk-Stops fuel i b d.behind (omega arith) d.chain d.level
                (IsClosed-behind less d.before ((b, d.version) ∷ d.behind) k').1 in
            (
              p,
              rw (e, ld, go) w,
              subst (λ (t : List Item). Stops s less i a t p)
                  (append_assoc d.before ((b, d.version) ∷ []) d.behind ∙ sym d.parts)
                  (Stops-after s less i a b (d.before ++ (b, d.version) ∷ []) d.behind p
                    (All-append _ d.before ((b, d.version) ∷ [])
                      (Below-before less d.before d.behind b d.version k' below) (below, tt))
                    (Spot-snoc a b d.before d.version) st),
            )
      ]

  pub descend-Stopped :
      (fuel i a : ℕ) (items : List Item)
      → length items < fuel
      → Chain s a items
      → IsReadable s i a
      → IsClosed less items
      → (p : ℕ) × (us : List ℕ) × (descend fuel s less (suc i) a ≡ ok (p, us))
        × Stopped s less a items 0 us
        × (length us ≡ suc i)
        × Stops s less 0 a items p
  unfolding descend
  descend-Stopped fuel zero a items f c l k =
      let (p, w, st) = walk-Stops fuel 0 a items f c l k in
      (p, p ∷ [], rw w refl, (st, tt), refl, st)
  descend-Stopped fuel (suc i) a items f c l k =
      let (p, w, st) = walk-Stops fuel (suc i) a items f c l k in
      let size : length items ≡ length st.passed + length st.rest =
        ap length st.parts ∙ length-append st.passed st.rest in
      let (last, us, d, stopped, len, end) =
        descend-Stopped fuel i p st.rest (omega arith) st.chain (IsReadable-down s i p st.level) (
          IsClosed-behind less st.passed st.rest
            (subst (λ (t : List Item). IsClosed less t) st.parts k)) in
      (
        last,
        us ++ p ∷ [],
        rw (w, d) refl,
        Stopped-snoc s less a items 0 (suc i) us p
            (subst (λ (t : List Item). Stopped s less a t 0 us) (sym st.parts)
              (Stopped-after s less 0 a p st.passed st.rest us st.below st.spot stopped))
            (omega (arith, len)) st,
        omega (arith, len, length-append us (p ∷ [])),
        subst (λ (t : List Item). Stops s less 0 a t last) (sym st.parts)
            (Stops-after s less 0 a p st.passed st.rest last st.below st.spot end),
      )

  -- On level 0 the walk stops at the last node that is below.
  pub Stops-drop_less :
      (a : ℕ) (items : List Item) (p : ℕ) (k : Stops s less 0 a items p)
      → k.rest ≡ drop_less less items
  unfolding drop_less first_ptr
  Stops-drop_less a items p k =
      at_rest k.rest k.chain k.blocked
      ∙ sym (drop_less-Below less k.passed k.rest k.below)
      ∙ ap (drop_less less) (sym k.parts)
    where
      at_rest :
          (rest : List Item)
          → Chain s p rest
          → ((b : ℕ) (v : SkipListNode)
              → forward_at s p 0 ≡ ok (some b)
              → IsAt s (b, v)
              → less v ≡ false)
          → rest ≡ drop_less less rest
      at_rest [] c h = refl
      at_rest ((b, v) ∷ rest) (r, at, c) h =
          let stop : less v ≡ false = h b v (r.0 ∙ ap ok first) at in rw stop refl
        where
          first : first_ptr ((b, v) ∷ rest) ≡ some b
          first = refl
