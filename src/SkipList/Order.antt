-- ===== src/SkipList/Order.antt =====
-- The order of the versions in a skip list.
use mini_redis.Common.{
  ℕ, ◌<◌, ◌≡◌, ◌⊎◌, sym, ◌∙◌, inl, inr, List, [], ◌∷◌, ◌++◌, Bool, true, false, arith,
}
use mini_redis.Common.{Bool-cases, All}
use mini_redis.Common.Keys.{
  Bytes, bytes_eq, bytes_lt, bytes_eq_iff, bytes_eq_refl, compare_bytes_trans, compare_bytes-gt,
}
use mini_redis.SkipList.{key_below, is_version}
use mini_redis.SkipList.Node.{SkipListNode, node_lt}
use mini_redis.SkipList.Chain.{Item, IsClosed}

pub bytes_lt_trans :
    (a b c : Bytes) → bytes_lt a b ≡ true → bytes_lt b c ≡ true → bytes_lt a c ≡ true
unfolding bytes_lt
bytes_lt_trans a b c h k = ground (arith, compare_bytes_trans a b c)

pub bytes_lt-ne : (a b : Bytes) → bytes_lt a b ≡ true → bytes_eq a b ≡ false
unfolding bytes_lt bytes_eq
bytes_lt-ne a b h = ground arith

pub bytes_lt_irrefl : (a : Bytes) → bytes_lt a a ≡ false
unfolding bytes_lt bytes_eq
bytes_lt_irrefl a = ground (arith, bytes_eq_refl a)

pub bytes_gt-ne : (a b : Bytes) → bytes_lt a b ≡ true → bytes_eq b a ≡ false
bytes_gt-ne a b h = elim (Bool-cases (bytes_eq b a)) [
  | inr e ↦ e
  | inl e ↦ absurd (cc ((bytes_eq_iff b a).0 e, h, bytes_lt_irrefl a))
]

-- What `node_lt` says of the keys and the ids.
abbrev pub Precedes : SkipListNode → SkipListNode → Type 0
Precedes v w = (bytes_lt v.key w.key ≡ true) ⊎ ((v.key ≡ w.key) × (w.tranc_id < v.tranc_id))

pub node_lt-Precedes : (v w : SkipListNode) → node_lt v w ≡ true → Precedes v w
unfolding node_lt
node_lt-Precedes v w h = elim (Bool-cases (bytes_eq v.key w.key)) [
  | inl e ↦ inr ((bytes_eq_iff v.key w.key).0 e, ground arith)
  | inr e ↦ inl (ground arith)
]

pub Precedes-node_lt : (v w : SkipListNode) → Precedes v w → node_lt v w ≡ true
unfolding node_lt
Precedes-node_lt v w (inl h) = rw (bytes_lt-ne v.key w.key h) h
Precedes-node_lt v w (inr (e, l)) = rw ((bytes_eq_iff v.key w.key).1 e) (ground arith)

pub node_lt_trans :
    (u v w : SkipListNode) → node_lt u v ≡ true → node_lt v w ≡ true → node_lt u w ≡ true
node_lt_trans u v w h k =
    Precedes-node_lt u w (chain (node_lt-Precedes u v h) (node_lt-Precedes v w k))
  where
    chain : Precedes u v → Precedes v w → Precedes u w
    chain (inl a) (inl b) = inl (bytes_lt_trans u.key v.key w.key a b)
    chain (inl a) (inr (e, l)) = inl (rw (← e) a)
    chain (inr (e, l)) (inl b) = inl (rw e b)
    chain (inr (e, l)) (inr (f, m)) = inr (e ∙ f, omega arith)

pub bytes_lt-total :
    (a b : Bytes) → bytes_lt a b ≡ false → bytes_eq a b ≡ false → bytes_lt b a ≡ true
unfolding bytes_lt bytes_eq
bytes_lt-total a b h k = ground (arith, compare_bytes-gt a b)

-- Of two versions that differ in the key or the id one precedes the other.
pub node_lt-total :
    (v w : SkipListNode)
    → node_lt v w ≡ false
    → is_version w.key w.tranc_id v ≡ false
    → node_lt w v ≡ true
unfolding is_version node_lt
node_lt-total v w h d = elim (Bool-cases (bytes_eq v.key w.key)) [
  | inl e ↦ Precedes-node_lt w v (inr (sym ((bytes_eq_iff v.key w.key).0 e), ground arith))
  | inr e ↦ Precedes-node_lt w v (inl (bytes_lt-total v.key w.key (ground arith) e))
]

abbrev pub IsSorted : List Item → Type 0
IsSorted [] = Unit {0}
IsSorted ((a, v) ∷ items) = All (λ (x : Item). node_lt v x.1 ≡ true) items × IsSorted items

pub IsSorted-behind : (before behind : List Item) → IsSorted (before ++ behind) → IsSorted behind
IsSorted-behind [] behind s = s
IsSorted-behind ((a, v) ∷ before) behind (h, s) = IsSorted-behind before behind s

-- What is monotone in the order is closed.
pub IsClosed-of :
    (less : SkipListNode → Bool)
    → ((v w : SkipListNode) → node_lt v w ≡ true → less v ≡ false → less w ≡ false)
    → (items : List Item) → IsSorted items
    → IsClosed less items
IsClosed-of less mono [] s = tt
IsClosed-of less mono ((a, v) ∷ items) (h, s) =
    (λ e. later items h e, IsClosed-of less mono items s)
  where
    later :
        (xs : List Item)
        → All (λ (x : Item). node_lt v x.1 ≡ true) xs
        → less v ≡ false
        → All (λ (x : Item). less x.1 ≡ false) xs
    later [] h e = tt
    later (x ∷ xs) (h, hs) e = (mono v x.1 h e, later xs hs e)

pub key_below_mono :
    (key : Bytes) (v w : SkipListNode)
    → node_lt v w ≡ true
    → key_below key v ≡ false
    → key_below key w ≡ false
unfolding key_below
key_below_mono key v w h e = elim (Bool-cases (bytes_lt w.key key)) [
  | inr f ↦ f
  | inl f ↦ absurd (contra (node_lt-Precedes v w h) f)
]
  where
    contra : Precedes v w → bytes_lt w.key key ≡ true → ⊥
    contra (inl a) f = cc (bytes_lt_trans v.key w.key key a f, e)
    contra (inr (q, l)) f = cc (e, q, f)

pub node_lt_mono :
    (n v w : SkipListNode) → node_lt v w ≡ true → node_lt v n ≡ false → node_lt w n ≡ false
node_lt_mono n v w h e = elim (Bool-cases (node_lt w n)) [
  | inr f ↦ f
  | inl f ↦ absurd (cc (node_lt_trans v w n h f, e))
]

-- A version between those that precede it and those that it precedes.
pub IsSorted-insert :
    (before behind : List Item) (a : ℕ) (v : SkipListNode)
    → IsSorted (before ++ behind)
    → All (λ (x : Item). node_lt x.1 v ≡ true) before
    → All (λ (x : Item). node_lt v x.1 ≡ true) behind
    → IsSorted (before ++ (a, v) ∷ behind)
IsSorted-insert [] behind a v s h k = (k, s)
IsSorted-insert ((b, w) ∷ before) behind a v (g, s) (h, hs) k =
    (All-insert before g, IsSorted-insert before behind a v s hs k)
  where
    All-insert :
        (xs : List Item)
        → All (λ (x : Item). node_lt w x.1 ≡ true) (xs ++ behind)
        → All (λ (x : Item). node_lt w x.1 ≡ true) (xs ++ (a, v) ∷ behind)
    All-insert [] g = (h, g)
    All-insert (x ∷ xs) (g, gs) = (g, All-insert xs gs)

-- What the first of sorted items does not precede, precedes them all unless it is the first.
pub first-Precedes :
    (b : ℕ) (v w : SkipListNode) (items : List Item)
    → IsSorted ((b, w) ∷ items)
    → node_lt w v ≡ false
    → is_version v.key v.tranc_id w ≡ false
    → All (λ (x : Item). node_lt v x.1 ≡ true) ((b, w) ∷ items)
first-Precedes b v w items (h, s) l d = let first = node_lt-total w v l d in (first, others items h)
  where
    others :
        (xs : List Item)
        → All (λ (x : Item). node_lt w x.1 ≡ true) xs
        → All (λ (x : Item). node_lt v x.1 ≡ true) xs
    others [] h = tt
    others (x ∷ xs) (h, hs) = (node_lt_trans v w x.1 (node_lt-total w v l d) h, others xs hs)
