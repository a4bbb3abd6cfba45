-- ===== src/SkipList/Frame.antt =====
-- Chains after writes to pointers.
use mathlib.Core.Path.{subst}
use mini_redis.Common.{ok-inj, some-inj}
use mini_redis.Common.{ℕ, ◌<◌, ◌≡◌, refl, sym, ap, ◌∙◌, inl, inr, List, [], ◌∷◌, ◌++◌, arith}
use mini_redis.Common.{All}
use mini_redis.SkipList.Node.{SkipList, load, forward_at}
use mini_redis.SkipList.Chain.{bare, Item, IsReadable, first_ptr, Has, Chain}

-- What stands behind a node is determined by the heap.
pub Chain-unique :
    (s : SkipList) (u : ℕ) (xs ys : List Item) → Chain s u xs → Chain s u ys → xs ≡ ys
unfolding first_ptr
Chain-unique s u [] [] c d = refl
Chain-unique s u [] ((b, w) ∷ ys) c (r, at, d) = absurd (cc (c.0, r.0))
Chain-unique s u ((a, v) ∷ xs) [] (r, at, c) d = absurd (cc (d.0, r.0))
Chain-unique s u ((a, v) ∷ xs) ((b, w) ∷ ys) (r, (n, l, q), c) (r', (m, k, p), d) =
    let same : a ≡ b = some-inj (ok-inj (sym r.0 ∙ r'.0)) in
    let node : n ≡ m = ok-inj (sym l ∙ ap (load s) same ∙ k) in
    let version : v ≡ w = sym q ∙ ap bare node ∙ p in
    let rest = Chain-unique s a xs ys c (subst (λ (t : ℕ). Chain s t ys) (sym same) d) in cc

pub Has-mono :
    (s s' : SkipList) (i b : ℕ) (items : List Item)
    → (IsReadable s i b → IsReadable s' i b)
    → Has s i b items
    → Has s' i b items
Has-mono s s' i b [] k h = absurd h
Has-mono s s' i b ((c, v) ∷ items) k (inl (e, r)) = inl (e, k r)
Has-mono s s' i b ((c, v) ∷ items) k (inr h) = inr (Has-mono s s' i b items k h)

pub Has-insert :
    (s : SkipList) (i b : ℕ) (x : Item) (before behind : List Item)
    → Has s i b (before ++ behind)
    → Has s i b (before ++ (x ∷ behind))
Has-insert s i b (a, v) [] behind h = inr h
Has-insert s i b x ((c, w) ∷ before) behind (inl h) = inl h
Has-insert s i b x ((c, w) ∷ before) behind (inr h) = inr (Has-insert s i b x before behind h)

-- The nodes below `n` are as they were.
module _ (s s' : SkipList) (n : ℕ) (same : (c : ℕ) → c < n → load s' c ≡ load s c) where
  pub forward_at-load : (c j : ℕ) → c < n → forward_at s' c j ≡ forward_at s c j
  unfolding forward_at
  forward_at-load c j l = rw (same c l) refl

  pub Has-load :
      (i b : ℕ) (items : List Item)
      → All (λ (x : Item). x.0 < n) items
      → Has s i b items
      → Has s' i b items
  Has-load i b [] h k = absurd k
  Has-load i b ((c, v) ∷ items) (h, hs) (inl (e, (q, r))) =
      inl (e, (q, forward_at-load b i (omega (arith, h, e)) ∙ r))
  Has-load i b ((c, v) ∷ items) (h, hs) (inr k) = inr (Has-load i b items hs k)

  pub Chain-load :
      (a : ℕ) (items : List Item)
      → a < n
      → All (λ (x : Item). x.0 < n) items
      → Chain s a items
      → Chain s' a items
  Chain-load a [] l h (r, rs) = (
    forward_at-load a 0 l ∙ r,
    λ i b e. Has-load i b [] tt (rs i b (sym (forward_at-load a i l) ∙ e)),
  )
  Chain-load a ((b, v) ∷ items) l (h, hs) ((r, rs), (m, ld, q), c) = (
    (
      forward_at-load a 0 l ∙ r,
      λ i d e. Has-load i d ((b, v) ∷ items) (h, hs) (rs i d (sym (forward_at-load a i l) ∙ e)),
    ),
    (m, same b h ∙ ld, q),
    Chain-load b items h hs c,
  )
