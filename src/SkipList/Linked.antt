-- ===== src/SkipList/Linked.antt =====
-- A level that is linked: the new node between two others.
use mini_redis.Common.{ℕ, ◌≡◌, refl, ap, ◌∙◌, inl, inr, ◌&&◌}
use mini_redis.Common.{Bool-cases, none, some, ok, ◌==◌, if◌then◌else◌}
use mini_redis.SkipList.{back_link, link_level}
use mini_redis.SkipList.Node.{Ptr, SkipList, forward_at}
use mini_redis.SkipList.Chain.{IsReadable}
use mini_redis.SkipList.Heap.{
  Balanced, Same, Same-refl, Same-trans, set_forward-ok, set_backward-ok, Wrote-IsReadable,
}

-- After a level was linked: the new node behind `u`, and `next` behind the new node.
abbrev pub Linked : ℕ → ℕ → ℕ → Ptr → SkipList → SkipList → Type 0
Linked node u i next s s' =
    (b j : ℕ)
    → forward_at s' b j ≡ (
        if (b == u) && (j == i)
        then ok (some node)
        else if (b == node) && (j == i)
        then ok next
        else forward_at s b j)

pub Linked-IsReadable :
    (node u i : ℕ) (next : Ptr) (s s' : SkipList)
    → Linked node u i next s s'
    → (j b : ℕ) → IsReadable s j b
    → IsReadable s' j b
Linked-IsReadable node u i next s s' w j b (r, e) = elim (Bool-cases ((b == u) && (j == i))) [
  | inl h ↦ (some node, w b j ∙ rw h refl)
  | inr h ↦ elim (Bool-cases ((b == node) && (j == i))) [
    | inl k ↦ (next, w b j ∙ rw (h, k) refl)
    | inr k ↦ (r, w b j ∙ rw (h, k) e)
  ]
]

back_link-ok :
    (s : SkipList) (next : Ptr) (i : ℕ) (q : Ptr)
    → Balanced s
    → ((b : ℕ) → next ≡ some b → IsReadable s i b)
    → (s' : SkipList) × (back_link next i q s ≡ ok s')
      × Same s s'
      × ((b j : ℕ) → forward_at s' b j ≡ forward_at s b j)
unfolding back_link
back_link-ok s none i q bal r = (s, refl, Same-refl s, λ b j. refl)
back_link-ok s (some b) i q bal r = set_backward-ok s b i q bal (r b refl)

pub link_level-ok :
    (s : SkipList) (node u i : ℕ) (next : Ptr)
    → Balanced s
    → forward_at s u i ≡ ok next
    → IsReadable s i node
    → ((b : ℕ) → next ≡ some b → IsReadable s i b)
    → (s' : SkipList) × (link_level node u i s ≡ ok s') × Same s s' × Linked node u i next s s'
unfolding link_level
link_level-ok s node u i next bal e rn rb =
    let (s1, e1, m1, w1) = set_forward-ok s node i next rn in
    let (s2, e2, m2, w2) =
      back_link-ok s1 next i (some node) (m1.balanced bal)
        (λ b h. Wrote-IsReadable node i next s s1 w1 i b (rb b h)) in
    let r1 = Wrote-IsReadable node i next s s1 w1 i u (next, e) in
    let (s3, e3, m3, w3) = set_forward-ok s2 u i (some node) (r1.0, w2 u i ∙ r1.1) in
    let r2 = Wrote-IsReadable node i next s s1 w1 i node rn in
    let (s4, e4, m4, w4) =
      set_backward-ok s3 node i (some u) (m3.balanced (m2.balanced (m1.balanced bal)))
        (Wrote-IsReadable u i (some node) s2 s3 w3 i node (r2.0, w2 node i ∙ r2.1)) in
    (
      s4,
      rw (e, e1, e2, e3) e4,
      Same-trans s s1 s4 m1 (Same-trans s1 s2 s4 m2 (Same-trans s2 s3 s4 m3 m4)),
      λ b j.
          w4 b j
          ∙ w3 b j
          ∙ ap (λ t. if (b == u) && (j == i) then ok (some node) else t) (w2 b j ∙ w1 b j),
    )
