-- ===== src/SkipList/Heap.antt =====
-- What a write to one pointer leaves as it was.
use mini_redis.Common.{ok-inj}
use mini_redis.Common.{
  ℕ, zero, suc, ◌<◌, ◌≡◌, refl, sym, ap, ◌∙◌, inl, inr, List, [], ◌∷◌, true, false, ◌&&◌, arith,
}
use mini_redis.Common.{Bool-cases, ok, >>=-eq-ok, ◌==◌, length, if◌then◌else◌}
use mini_redis.SkipList.Node.{
  Ptr, SkipListNode, SkipList, store, load, level_at, set_level, forward_at, set_forward,
  set_backward,
}
use mini_redis.SkipList.Chain.{bare, IsAt, IsReadable}

pub level_at-lt : (ps : List Ptr) (i : ℕ) (q : Ptr) → level_at ps i ≡ ok q → i < length ps
unfolding level_at
level_at-lt [] i q h = absurd (cc)
level_at-lt (p ∷ ps) zero q h = omega arith
level_at-lt (p ∷ ps) (suc i) q h = omega (arith, level_at-lt ps i q h)

pub level_at-ok : (ps : List Ptr) (i : ℕ) → i < length ps → (q : Ptr) × (level_at ps i ≡ ok q)
unfolding level_at
level_at-ok [] i h = absurd (omega arith)
level_at-ok (p ∷ ps) zero h = (p, refl)
level_at-ok (p ∷ ps) (suc i) h = level_at-ok ps i (omega arith)

set_level-ok :
    (ps : List Ptr) (i : ℕ) (q : Ptr)
    → i < length ps
    → (ps' : List Ptr) × (set_level ps i q ≡ ok ps')
      × (length ps' ≡ length ps)
      × ((j : ℕ) → level_at ps' j ≡ (if j == i then ok q else level_at ps j))
unfolding set_level level_at
set_level-ok [] i q h = absurd (omega arith)
set_level-ok (p ∷ ps) zero q h = (q ∷ ps, refl, refl, at)
  where
    at : (j : ℕ) → level_at (q ∷ ps) j ≡ (if j == 0 then ok q else level_at (p ∷ ps) j)
    at zero = refl
    at (suc j) = ground arith
set_level-ok (p ∷ ps) (suc i) q h =
    let (ps', e, l, f) = set_level-ok ps i q (omega arith) in
    (p ∷ ps', rw e refl, ap suc l, at ps' f)
  where
    at :
        (ps' : List Ptr)
        → ((j : ℕ) → level_at ps' j ≡ (if j == i then ok q else level_at ps j))
        → (j : ℕ) → level_at (p ∷ ps') j ≡ (if j == suc i then ok q else level_at (p ∷ ps) j)
    at ps' f zero = ground arith
    at ps' f (suc j) = ground (arith, f j)

-- Every node has as many pointers back as forward.
abbrev pub Balanced : SkipList → Type 0
Balanced s = (a : ℕ) (n : SkipListNode) → load s a ≡ ok n → length n.forward ≡ length n.backward

-- Only pointers were written.
pub record Same (s s' : SkipList) : Type 0 where
  pub keeps : (a : ℕ) (v : SkipListNode) → IsAt s (a, v) → IsAt s' (a, v)
  pub balanced : Balanced s → Balanced s'
  pub head : s'.head ≡ s.head
  pub fresh : s'.fresh ≡ s.fresh
  pub max_level : s'.max_level ≡ s.max_level
  pub current_level : s'.current_level ≡ s.current_level
  pub size_bytes : s'.size_bytes ≡ s.size_bytes

pub Same-refl : (s : SkipList) → Same s s
Same-refl s = record {
  keeps = λ a v h. h;
  balanced = λ b. b;
  head = refl;
  fresh = refl;
  max_level = refl;
  current_level = refl;
  size_bytes = refl;
}

pub Same-trans : (r s t : SkipList) → Same r s → Same s t → Same r t
Same-trans r s t h k = record {
  keeps = λ a v x. k.keeps a v (h.keeps a v x);
  balanced = λ b. k.balanced (h.balanced b);
  head = k.head ∙ h.head;
  fresh = k.fresh ∙ h.fresh;
  max_level = k.max_level ∙ h.max_level;
  current_level = k.current_level ∙ h.current_level;
  size_bytes = k.size_bytes ∙ h.size_bytes;
}

pub eq_of_== : (a b : ℕ) → (a == b) ≡ true → a ≡ b
eq_of_== a b h = ground arith

pub load-store_same : (s : SkipList) (a : ℕ) (n : SkipListNode) → load (store a n s) a ≡ ok n
unfolding load store
load-store_same s a n = ground arith

pub load-store_other :
    (s : SkipList) (a b : ℕ) (n : SkipListNode) → (b == a) ≡ false → load (store a n s) b ≡ load s b
unfolding load store
load-store_other s a b n h = rw (load, store, h) refl

-- The node at `a` with other pointers, as many as before.
Same-store :
    (s : SkipList) (a : ℕ) (n m : SkipListNode)
    → load s a ≡ ok n
    → bare m ≡ bare n
    → length m.forward ≡ length n.forward
    → length m.backward ≡ length n.backward
    → Same s (store a m s)
Same-store s a n m h e f g = record {
  keeps = λ b v (k, ld, q). elim (Bool-cases (b == a)) [
    | inl same ↦
        let at = eq_of_== b a same in
        let kn : k ≡ n = ok-inj (sym ld ∙ ap (load s) at ∙ h) in
        (m, ap (load (store a m s)) at ∙ load-store_same s a m, e ∙ ap bare (sym kn) ∙ q)
    | inr other ↦ (k, load-store_other s a b m other ∙ ld, q)
  ];
  balanced = λ bal b k ld. elim (Bool-cases (b == a)) [
    | inl same ↦
        let km : k ≡ m =
          ok-inj (sym ld ∙ ap (load (store a m s)) (eq_of_== b a same) ∙ load-store_same s a m) in
        ap (λ (x : SkipListNode). length x.forward) km
        ∙ f
        ∙ bal a n h
        ∙ sym g
        ∙ sym (ap (λ (x : SkipListNode). length x.backward) km)
    | inr other ↦ bal b k (sym (load-store_other s a b m other) ∙ ld)
  ];
  head = unfold store in refl;
  fresh = unfold store in refl;
  max_level = unfold store in refl;
  current_level = unfold store in refl;
  size_bytes = unfold store in refl;
}

-- The pointer at `a` on level `i` is `q` now, and every other is as it was.
abbrev pub Wrote : ℕ → ℕ → Ptr → SkipList → SkipList → Type 0
Wrote a i q s s' =
    (b j : ℕ) → forward_at s' b j ≡ (if (b == a) && (j == i) then ok q else forward_at s b j)

load-of-readable :
    (s : SkipList) (a i : ℕ)
    → IsReadable s i a
    → (n : SkipListNode) × (load s a ≡ ok n) × (i < length n.forward)
unfolding forward_at
load-of-readable s a i (q, e) =
    let (n, l, k) = >>=-eq-ok (load s a) (λ (x : SkipListNode). level_at x.forward i) e in
    (n, l, level_at-lt n.forward i q k)

pub set_forward-ok :
    (s : SkipList) (a i : ℕ) (q : Ptr)
    → IsReadable s i a
    → (s' : SkipList) × (set_forward a i q s ≡ ok s') × Same s s' × Wrote a i q s s'
unfolding set_forward forward_at
set_forward-ok s a i q r =
    let (n, l, k) = load-of-readable s a i r in
    let (ps, e, len, f) = set_level-ok n.forward i q k in
    let m = record n { forward = ps } in
    (
      store a m s,
      rw (l, e) refl,
      Same-store s a n m l (unfold bare in refl) len refl,
      λ b j. elim (Bool-cases (b == a)) [
        | inl same ↦ let at = eq_of_== b a same in rw (same, at, load-store_same s a m, l) (f j)
        | inr other ↦ rw (other, load-store_other s a b m other) refl
      ],
    )

pub set_backward-ok :
    (s : SkipList) (a i : ℕ) (q : Ptr)
    → Balanced s
    → IsReadable s i a
    → (s' : SkipList) × (set_backward a i q s ≡ ok s')
      × Same s s'
      × ((b j : ℕ) → forward_at s' b j ≡ forward_at s b j)
unfolding set_backward forward_at
set_backward-ok s a i q bal r =
    let (n, l, k) = load-of-readable s a i r in
    let (ps, e, len, f) = set_level-ok n.backward i q (omega (arith, bal a n l)) in
    let m = record n { backward = ps } in
    (
      store a m s,
      rw (l, e) refl,
      Same-store s a n m l (unfold bare in refl) refl len,
      λ b j. elim (Bool-cases (b == a)) [
        | inl same ↦ let at = eq_of_== b a same in rw (at, load-store_same s a m, l) refl
        | inr other ↦ rw (load-store_other s a b m other) refl
      ],
    )

pub Wrote-IsReadable :
    (a i : ℕ) (q : Ptr) (s s' : SkipList)
    → Wrote a i q s s'
    → (j b : ℕ) → IsReadable s j b
    → IsReadable s' j b
Wrote-IsReadable a i q s s' w j b (r, e) = elim (Bool-cases ((b == a) && (j == i))) [
  | inl h ↦ (q, w b j ∙ rw h refl)
  | inr h ↦ (r, w b j ∙ rw h e)
]
