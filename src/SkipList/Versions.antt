-- ===== src/SkipList/Versions.antt =====
-- `put` and `get` against a sorted list of entries.
use mini_redis.Common.{
  ℕ, ◌+◌, ◌≤◌, ◌≡◌, refl, inl, inr, List, [], ◌∷◌, ◌++◌, Bool, true, false, ◌&&◌, arith,
}
use mini_redis.Common.{Bool-cases, ltb}
use mini_redis.Common.Keys.{Bytes, bytes_eq_iff}
use mini_redis.MemTable.Table.{put_version}
use mini_redis.SkipList.{is_version, random_level}
use mini_redis.SkipList.Node.{SkipListNode, node_lt}
use mini_redis.SkipList.Chain.{Item, Below}
use mini_redis.SkipList.Split.{Blocked}
use mini_redis.SkipList.Lookup.{contents}

pub contents-new :
    (a : ℕ) (n : SkipListNode) (before post : List Item)
    → Below (λ m. node_lt m n) before
    → Blocked (λ m. node_lt m n) post
    → Blocked (is_version n.key n.tranc_id) post
    → contents (before ++ (a, n) ∷ post)
      ≡ put_version (n.key, n.value, n.tranc_id) (contents (before ++ post))
unfolding contents put_version node_lt is_version
contents-new a n [] [] h k l = refl
contents-new a n [] ((b, w) ∷ post) h k l = rw (k, l) refl
contents-new a n ((b, w) ∷ before) post (h, hs) k l =
    rw (h, contents-new a n before post hs k l) refl

pub contents-changed :
    (b : ℕ) (n w : SkipListNode) (value : Bytes) (before post : List Item)
    → Below (λ m. node_lt m n) before
    → node_lt w n ≡ false
    → is_version n.key n.tranc_id w ≡ true
    → contents (before ++ (b, record w { value = value }) ∷ post)
      ≡ put_version (n.key, value, n.tranc_id) (contents (before ++ (b, w) ∷ post))
unfolding contents put_version node_lt is_version
contents-changed b n w value [] post h k l =
    let key : w.key ≡ n.key = (bytes_eq_iff w.key n.key).0 (ground arith) in
    let id : w.tranc_id ≡ n.tranc_id = ground arith in rw (k, l, key, id) refl
contents-changed b n w value ((c, x) ∷ before) post (h, hs) k l =
    rw (h, contents-changed b n w value before post hs k l) refl

pub random_level-le : (m l : ℕ) (coins : List Bool) → l ≤ m → random_level m l coins ≤ m
unfolding random_level
random_level-le m l [] h = h
random_level-le m l (coin ∷ coins) h = elim (Bool-cases (coin && ltb l m)) [
  | inl e ↦ rw e (random_level-le m (l + 1) coins (ground arith))
  | inr e ↦ rw e h
]
