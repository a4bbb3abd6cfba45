-- ===== src/SkipList/Node.antt =====
-- The nodes of a skip list on their heap (include/skiplist/skiplist.h): a pointer is an address, and a
-- read or a write through one that has no node, or not the level, is the outcome `fault`.
use mini_redis.Common.{ℕ, zero, suc, List, [], ◌∷◌, Bool}
use mini_redis.Common.{
  Option, none, some, Outcome, ok, fault, ◌>>=◌, ltb, ◌==◌, if◌then◌else◌, replicate,
}
use mini_redis.Common.Keys.{Bytes, bytes_eq, bytes_lt}

abbrev pub Ptr : Type 0
Ptr = Option ℕ

pub record SkipListNode : Type 0 where
  pub key : Bytes
  pub value : Bytes
  pub tranc_id : ℕ
  pub forward : List Ptr
  pub backward : List Ptr

pub record SkipList : Type 0 where
  pub heap : ℕ → Option SkipListNode
  pub fresh : ℕ
  pub head : ℕ
  pub max_level : ℕ
  pub current_level : ℕ
  pub size_bytes : ℕ

unfoldable pub new_node : Bytes → Bytes → ℕ → ℕ → SkipListNode
new_node key value level tranc_id = record {
  key = key;
  value = value;
  tranc_id = tranc_id;
  forward = replicate level none;
  backward = replicate level none;
}

-- operator<: of one key the greater id comes first.
unfoldable pub node_lt : SkipListNode → SkipListNode → Bool
node_lt a b = if bytes_eq a.key b.key then ltb b.tranc_id a.tranc_id else bytes_lt a.key b.key

unfoldable pub store : ℕ → SkipListNode → SkipList → SkipList
store a n s = record s { heap = λ p. if p == a then some n else s.heap p }

unfoldable pub load : SkipList → ℕ → Outcome SkipListNode
load s a = elim (s.heap a) [ none ↦ fault | some n ↦ ok n ]

-- v[i] and v[i] = x on the arrays of pointers.
unfoldable pub level_at : List Ptr → ℕ → Outcome Ptr
level_at [] i = fault
level_at (p ∷ ps) zero = ok p
level_at (p ∷ ps) (suc i) = level_at ps i

unfoldable pub set_level : List Ptr → ℕ → Ptr → Outcome (List Ptr)
set_level [] i q = fault
set_level (p ∷ ps) zero q = ok (q ∷ ps)
set_level (p ∷ ps) (suc i) q = do rest ← set_level ps i q; ok (p ∷ rest)

-- a->forward_[i]
unfoldable pub forward_at : SkipList → ℕ → ℕ → Outcome Ptr
unfolding load level_at
forward_at s a i = load s a >>= λ n. level_at n.forward i

unfoldable pub set_forward : ℕ → ℕ → Ptr → SkipList → Outcome SkipList
unfolding load set_level store
set_forward a i q s = do
  n ← load s a
  ps ← set_level n.forward i q
  ok (store a (record n { forward = ps }) s)

unfoldable pub set_backward : ℕ → ℕ → Ptr → SkipList → Outcome SkipList
unfolding load set_level store
set_backward a i q s = do
  n ← load s a
  ps ← set_level n.backward i q
  ok (store a (record n { backward = ps }) s)
