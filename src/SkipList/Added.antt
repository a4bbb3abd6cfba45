-- ===== src/SkipList/Added.antt =====
-- The list with the new node of `put` on the heap, not linked yet.
use mini_redis.Common.{ok-inj}
use mini_redis.Common.{ℕ, zero, suc, ◌<◌, ◌≡◌, refl, sym, ap, ◌∙◌, inl, inr, false, arith}
use mini_redis.Common.{Bool-cases, none, some, ok, ◌==◌, replicate, length-replicate}
use mini_redis.Common.Keys.{Bytes}
use mini_redis.SkipList.{add_node}
use mini_redis.SkipList.Node.{SkipList, load, store, forward_at, level_at, new_node}
use mini_redis.SkipList.Chain.{bare, IsAt}
use mini_redis.SkipList.Heap.{Balanced, load-store_same, load-store_other, eq_of_==}
use mini_redis.SkipList.Split.{}

pub level_at-replicate : (n i : ℕ) → i < n → level_at (replicate n none) i ≡ ok none
unfolding level_at
level_at-replicate zero i h = absurd (omega arith)
level_at-replicate (suc n) zero h = refl
level_at-replicate (suc n) (suc i) h = level_at-replicate n i (omega arith)

pub level_at-none : (n i b : ℕ) → level_at (replicate n none) i ≡ ok (some b) → ⊥
unfolding level_at
level_at-none zero i b h = cc
level_at-none (suc n) zero b h = cc
level_at-none (suc n) (suc i) b h = level_at-none n i b h

module _ (key value : Bytes) (height id : ℕ) (s : SkipList) where
  abbrev added : SkipList
  added = add_node (new_node key value height id) s

  pub load-added_node : load added s.fresh ≡ ok (new_node key value height id)
  unfolding add_node load
  load-added_node = load-store_same s s.fresh (new_node key value height id)

  pub load-added : (c : ℕ) → c < s.fresh → load added c ≡ load s c
  unfolding add_node load
  load-added c l =
      let other : (c == s.fresh) ≡ false = ground arith in
      load-store_other s s.fresh c (new_node key value height id) other

  pub IsAt-added : IsAt added (s.fresh, bare (new_node key value height id))
  IsAt-added = (new_node key value height id, load-added_node, refl)

  pub forward_at-added : (i : ℕ) → i < height → forward_at added s.fresh i ≡ ok none
  unfolding forward_at new_node
  forward_at-added i l = rw load-added_node (level_at-replicate height i l)

  pub no_pointers : (i b : ℕ) → forward_at added s.fresh i ≡ ok (some b) → ⊥
  unfolding forward_at new_node
  no_pointers i b h = level_at-none height i b (sym (rw load-added_node refl) ∙ h)

  pub Balanced-added : Balanced s → Balanced added
  unfolding load add_node store new_node
  Balanced-added bal a n ld = elim (Bool-cases (a == s.fresh)) [
    | inl e ↦
        let q : new_node key value height id ≡ n =
          ok-inj (sym load-added_node ∙ ap (load added) (sym (eq_of_== a s.fresh e)) ∙ ld) in
        rw (← q) (length-replicate height none ∙ sym (length-replicate height none))
    | inr e ↦ bal a n (sym (load-store_other s s.fresh a (new_node key value height id) e) ∙ ld)
  ]
