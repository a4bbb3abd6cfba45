-- ===== src/SkipList/Chain.antt =====
-- What the levels of a skip list hold: along level 0 the versions in order, and on every level
-- pointers to later nodes that have the level too.
use mathlib.Core.Path.{subst}
use mini_redis.Common.{
  ℕ, zero, suc, ◌≡◌, ◌⊎◌, refl, sym, ap, inl, inr, List, [], ◌∷◌, ◌++◌, Bool, true, false, arith,
}
use mini_redis.Common.{Bool-cases, Outcome-cases, none, some, ok, All, if◌then◌else◌}
use mini_redis.SkipList.Node.{Ptr, SkipListNode, SkipList, load, forward_at, level_at}

-- A node without its pointers.
unfoldable pub bare : SkipListNode → SkipListNode
bare n = record n { forward = []; backward = [] }

-- An address with the version that stands there.
abbrev pub Item : Type 0
Item = ℕ × SkipListNode

abbrev pub IsAt : SkipList → Item → Type 0
IsAt s (a, v) = (n : SkipListNode) × (load s a ≡ ok n) × (bare n ≡ v)

abbrev pub IsReadable : SkipList → ℕ → ℕ → Type 0
IsReadable s i b = (q : Ptr) × (forward_at s b i ≡ ok q)

unfoldable pub first_ptr : List Item → Ptr
first_ptr [] = none
first_ptr ((a, v) ∷ items) = some a

-- One of the items is at `b`, and the node has level `i`.
abbrev pub Has : SkipList → ℕ → ℕ → List Item → Type 0
Has s i b [] = ⊥
Has s i b ((c, v) ∷ items) = ((b ≡ c) × IsReadable s i b) ⊎ Has s i b items

-- The pointers of a node lead to the items behind it, that of level 0 to the first.
abbrev pub Reaches : SkipList → ℕ → List Item → Type 0
Reaches s a items =
    (forward_at s a 0 ≡ ok (first_ptr items))
    × ((i b : ℕ) → forward_at s a i ≡ ok (some b) → Has s i b items)

-- The items stand behind the node at `a`, in this order.
abbrev pub Chain : SkipList → ℕ → List Item → Type 0
Chain s a [] = Reaches s a []
Chain s a ((b, v) ∷ items) = Reaches s a ((b, v) ∷ items) × IsAt s (b, v) × Chain s b items

pub Chain-Reaches : (s : SkipList) (a : ℕ) (items : List Item) → Chain s a items → Reaches s a items
Chain-Reaches s a [] c = c
Chain-Reaches s a (x ∷ items) (r, at, c) = r

-- From a test on, nodes are not below what is searched for.
abbrev pub IsClosed : (SkipListNode → Bool) → List Item → Type 0
IsClosed less [] = Unit {0}
IsClosed less ((a, v) ∷ items) =
    (less v ≡ false → All (λ (x : Item). less x.1 ≡ false) items) × IsClosed less items

unfoldable pub drop_less : (SkipListNode → Bool) → List Item → List Item
drop_less less [] = []
drop_less less ((a, v) ∷ items) =
    let rest = drop_less less items in if less v then rest else (a, v) ∷ items

-- Where a pointer leads: the items up to its node, and those behind it.
pub record Leads (s : SkipList) (i b : ℕ) (items : List Item) : Type 0 where
  pub before : List Item
  pub version : SkipListNode
  pub behind : List Item
  pub parts : items ≡ before ++ ((b, version) ∷ behind)
  pub at : IsAt s (b, version)
  pub chain : Chain s b behind
  pub level : IsReadable s i b

pub Has-Leads :
    (s : SkipList) (a i b : ℕ) (items : List Item)
    → Chain s a items
    → Has s i b items
    → Leads s i b items
Has-Leads s a i b [] c h = absurd h
Has-Leads s a i b ((d, v) ∷ items) (r, at, c) (inl (e, l)) =
    subst (λ (t : ℕ). Leads s i t ((d, v) ∷ items)) (sym e)
      (record {
        before = [];
        version = v;
        behind = items;
        parts = refl;
        at = at;
        chain = c;
        level = subst (λ (t : ℕ). IsReadable s i t) e l;
      })
Has-Leads s a i b ((d, v) ∷ items) (r, at, c) (inr h) =
    let k = Has-Leads s d i b items c h in
    record {
      before = (d, v) ∷ k.before;
      version = k.version;
      behind = k.behind;
      parts = ap (λ t. (d, v) ∷ t) k.parts;
      at = k.at;
      chain = k.chain;
      level = k.level;
    }

abbrev pub Below : (SkipListNode → Bool) → List Item → Type 0
Below less items = All (λ (x : Item). less x.1 ≡ true) items

-- What stands before a node that is below is below.
pub Below-before :
    (less : SkipListNode → Bool) (before behind : List Item) (b : ℕ) (v : SkipListNode)
    → IsClosed less (before ++ ((b, v) ∷ behind))
    → less v ≡ true
    → Below less before
Below-before less [] behind b v k h = tt
Below-before less ((a, w) ∷ before) behind b v (k, ks) h = (
  elim (Bool-cases (less w)) [
    | inl e ↦ e
    | inr e ↦ absurd (cc (last_of less before behind b v (k e), h))
  ],
  Below-before less before behind b v ks h,
)
  where
    last_of :
        (less : SkipListNode → Bool) (before behind : List Item) (b : ℕ) (v : SkipListNode)
        → All (λ (x : Item). less x.1 ≡ false) (before ++ ((b, v) ∷ behind))
        → less v ≡ false
    last_of less [] behind b v (h, hs) = h
    last_of less (x ∷ before) behind b v (h, hs) = last_of less before behind b v hs

pub IsClosed-behind :
    (less : SkipListNode → Bool) (before behind : List Item)
    → IsClosed less (before ++ behind)
    → IsClosed less behind
IsClosed-behind less [] behind k = k
IsClosed-behind less ((a, w) ∷ before) behind (k, ks) = IsClosed-behind less before behind ks

pub drop_less-Below :
    (less : SkipListNode → Bool) (before behind : List Item)
    → Below less before
    → drop_less less (before ++ behind) ≡ drop_less less behind
unfolding drop_less
drop_less-Below less [] behind h = refl
drop_less-Below less ((a, w) ∷ before) behind (h, hs) =
    rw (h, drop_less-Below less before behind hs) refl

level_at-down :
    (ps : List Ptr) (i : ℕ) (q : Ptr)
    → level_at ps (suc i) ≡ ok q
    → (p : Ptr) × (level_at ps i ≡ ok p)
unfolding level_at
level_at-down [] i q h = cc
level_at-down (p ∷ ps) zero q h = (p, refl)
level_at-down (p ∷ []) (suc i) q h = absurd (cc)
level_at-down (p ∷ r ∷ ps) (suc i) q h = level_at-down (r ∷ ps) i q h

pub IsReadable-down : (s : SkipList) (i a : ℕ) → IsReadable s (suc i) a → IsReadable s i a
unfolding forward_at
IsReadable-down s i a (q, e) = elim (Outcome-cases (load s a)) [
  | inl (n, l) ↦ let (p, f) = level_at-down n.forward i q (ground (arith, l, e)) in (p, rw l f)
  | inr (inl l) ↦ absurd (ground (arith, l, e))
  | inr (inr (inl l)) ↦ absurd (ground (arith, l, e))
  | inr (inr (inr l)) ↦ absurd (ground (arith, l, e))
]
