-- ===== src/SkipList/Split.antt =====
-- Where the search stops on the higher levels, seen from where it stops on level 0.
use mathlib.Core.Path.{subst}
use mini_redis.Common.{ℕ, ◌≡◌, refl, sym, inl, inr, List, [], ◌∷◌, ◌++◌, Bool, false}
use mini_redis.SkipList.Node.{SkipListNode, SkipList}
use mini_redis.SkipList.Chain.{Item, IsAt, first_ptr, Has, Chain, Below}
use mini_redis.SkipList.Search.{Spot, Stops}

-- The first of the items is not below.
abbrev pub Blocked : (SkipListNode → Bool) → List Item → Type 0
Blocked less [] = Unit {0}
Blocked less ((a, v) ∷ items) = less v ≡ false

pub Stops-Blocked :
    (s : SkipList) (less : SkipListNode → Bool) (a : ℕ) (items : List Item) (p : ℕ)
    (k : Stops s less 0 a items p)
    → Blocked less k.rest
unfolding first_ptr
Stops-Blocked s less a items p k = go k.rest k.chain
  where
    go : (rest : List Item) → Chain s p rest → Blocked less rest
    go [] c = tt
    go ((b, v) ∷ rest) (r, at, c) = k.blocked b v r.0 at

-- A stop before the last one that is below: what is between them.
pub between :
    (less : SkipListNode → Bool) (passed rest before post : List Item)
    → passed ++ rest ≡ before ++ post
    → Below less passed
    → Blocked less post
    → (mid : List Item) × (before ≡ passed ++ mid) × (rest ≡ mid ++ post)
between less [] rest before post e h k = (before, refl, e)
between less ((a, v) ∷ passed) rest [] [] e h k = absurd (cc)
between less ((a, v) ∷ passed) rest [] ((b, w) ∷ post) e (h, hs) k =
    let same : v ≡ w = cc in absurd (cc (h, k, same))
between less (x ∷ passed) rest (y ∷ before) post e (h, hs) k =
    let tails : passed ++ rest ≡ before ++ post = cc in
    let heads : x ≡ y = cc in
    let (mid, f, g) = between less passed rest before post tails hs k in
    (mid, rw (heads, f) refl, g)

pub Spot-mid : (a c p : ℕ) (xs ys : List Item) → Spot a (xs ++ ys) p → Spot a xs c → Spot c ys p
Spot-mid a c p [] ys h k = subst (λ (t : ℕ). Spot t ys p) k h
Spot-mid a c p ((b, v) ∷ xs) ys h k = Spot-mid b c p xs ys h k

-- A pointer to a node that is not below leads past those that are.
pub Has-past :
    (s : SkipList) (less : SkipListNode → Bool) (i b a : ℕ) (mid post : List Item)
    → Chain s a (mid ++ post)
    → ((v : SkipListNode) → IsAt s (b, v) → less v ≡ false)
    → Below less mid
    → Has s i b (mid ++ post)
    → Has s i b post
Has-past s less i b a [] post c h k m = m
Has-past s less i b a ((d, v) ∷ mid) post (r, at, c) h (k, ks) (inl (e, l)) =
    absurd (cc (h v (subst (λ (t : ℕ). IsAt s (t, v)) (sym e) at), k))
Has-past s less i b a ((d, v) ∷ mid) post (r, at, c) h (k, ks) (inr m) =
    Has-past s less i b d mid post c h ks m
