-- ===== src/SkipList.antt =====
-- The skip list (src/skiplist/skipList.cpp, include/skiplist/skiplist.h): nodes on a heap, linked
-- level by level. A pointer is an address, a null one is `none`; a read of an address with no node,
-- or of a level that a node does not have, is the outcome `fault`. The random draws are arguments.
pub mod Node
pub mod Chain
pub mod Heap
pub mod Linked
pub mod Frame
pub mod Order
pub mod Search
pub mod Lookup
pub mod Insert
pub mod Link
pub mod Levels
pub mod Split
pub mod Added
pub mod Updates
pub mod Put
pub mod Value
pub mod Versions
pub mod Refines
pub mod Table
pub mod Range
pub mod Prefix
mod Examples
use mini_redis.Common.{
  ℕ, zero, suc, ◌+◌, ◌-◌, ◌/◌, ◌%◌, ◌^◌, List, [], ◌∷◌, ◌++◌, Bool, true, false, ◌&&◌, ◌||◌, not,
}
use mini_redis.Common.{
  Option, none, some, Outcome, ok, throws, fault, unfinished, ◌>>=◌, ltb, leb, ◌==◌, if◌then◌else◌,
  length, replicate, take,
}
use mini_redis.Common.Keys.{Bytes, bytes_eq, bytes_lt}
use mini_redis.SkipList.Node.{
  Ptr, SkipListNode, SkipList, new_node, node_lt, store, load, level_at, set_level, forward_at,
  set_forward, set_backward,
}

-- The head is at address 0 of a new list.
unfoldable pub empty_list : ℕ → SkipList
unfolding new_node
empty_list max_level = record {
  heap = λ p. if p == 0 then some (new_node [] [] max_level 0) else none;
  fresh = 1;
  head = 0;
  max_level = max_level;
  current_level = 1;
  size_bytes = 0;
}

-- The coins are the draws of `dis_01`, which are 0 past the end.
unfoldable pub random_level : ℕ → ℕ → List Bool → ℕ
random_level max_level level [] = level
random_level max_level level (coin ∷ coins) =
    let rest = random_level max_level (level + 1) coins in
    if coin && ltb level max_level then rest else level

-- while (current->forward_[i] && less(*current->forward_[i])) current = current->forward_[i];
unfoldable pub walk : ℕ → SkipList → (SkipListNode → Bool) → ℕ → ℕ → Outcome ℕ
unfolding forward_at load
walk zero s less i current = unfinished
walk (suc fuel) s less i current = forward_at s current i >>= λ next. elim next [
  | none ↦ ok current
  | some b ↦
      load s b >>= λ n. (let rest = walk fuel s less i b in if less n then rest else ok current)
]

-- The walks from level `i - 1` down to level 0, with the node that each level stops at, the
-- lowest level first.
unfoldable pub descend : ℕ → SkipList → (SkipListNode → Bool) → ℕ → ℕ → Outcome (ℕ × List ℕ)
unfolding walk
descend fuel s less zero current = ok (current, [])
descend fuel s less (suc i) current = do
  stop ← walk fuel s less i current
  (last, update) ← descend fuel s less i stop
  ok (last, update ++ stop ∷ [])

-- More rounds than there are nodes.
unfoldable pub rounds : SkipList → ℕ
rounds s = s.fresh + 1

-- if (node->forward_[i]) node->forward_[i]->set_backward(i, q);
unfoldable pub back_link : Ptr → ℕ → Ptr → SkipList → Outcome SkipList
back_link none i q s = ok s
back_link (some b) i q s = set_backward b i q s

-- The new node between `u` and what follows it at level `i`.
unfoldable pub link_level : ℕ → ℕ → ℕ → SkipList → Outcome SkipList
unfolding forward_at set_forward set_backward back_link
link_level node u i s = do
  next ← forward_at s u i
  s ← set_forward node i next s
  s ← back_link next i (some node) s
  s ← set_forward u i (some node) s
  set_backward node i (some u) s

unfoldable pub first_bit : List Bool → Bool
first_bit [] = false
first_bit (b ∷ bits) = b

unfoldable pub later_bits : List Bool → List Bool
later_bits [] = []
later_bits (b ∷ bits) = bits

-- The loop over the levels from `i` on, up to the first that is left out. `bits` are those of
-- `random_bits` from `i` on.
unfoldable pub link : ℕ → ℕ → Bool → List Bool → List ℕ → SkipList → Outcome SkipList
unfolding link_level first_bit later_bits
link node i taller bits [] s = ok s
link node i taller bits (u ∷ update) s =
    let rest = λ (s' : SkipList). link node (i + 1) taller (later_bits bits) update s' in
    if (i == 0) || (taller || first_bit bits) then link_level node u i s >>= rest else ok s

unfoldable pub max : ℕ → ℕ → ℕ
max a b = if ltb a b then b else a

-- The node that the search stops before holds the key and the id.
unfoldable pub is_version : Bytes → ℕ → SkipListNode → Bool
is_version key tranc_id n = bytes_eq n.key key && (n.tranc_id == tranc_id)

unfoldable pub add_node : SkipListNode → SkipList → SkipList
unfolding store
add_node n s = record (store s.fresh n s) {
  fresh = s.fresh + 1;
  size_bytes = (s.size_bytes + length n.key + length n.value + 8) % 2 ^ 64;
}

-- `new_level` nodes to link behind: those of the search, and the head on the levels above.
unfoldable pub put_new : SkipListNode → ℕ → List Bool → List ℕ → SkipList → Outcome SkipList
unfolding link add_node
put_new n new_level bits update s = do
  let heads = update ++ replicate (new_level - s.current_level) s.head
  linked ← link s.fresh 0 (ltb s.current_level new_level) bits heads (add_node n s)
  ok (record linked { current_level = new_level })

-- A version that is there gets the new value, and the size the difference, modulo 2 ^ 64.
unfoldable pub put_value : ℕ → SkipListNode → Bytes → SkipList → SkipList
unfolding store
put_value a n value s = record (store a (record n { value = value }) s) {
  size_bytes = (s.size_bytes + (length value + 2 ^ 64 - length n.value)) % 2 ^ 64;
}

unfoldable pub put : Bytes → Bytes → ℕ → List Bool → List Bool → SkipList → Outcome SkipList
unfolding random_level max rounds descend forward_at load is_version put_new put_value node_lt
put key value tranc_id coins bits s = do
  let new_level = max (random_level s.max_level 1 coins) s.current_level
  let node = new_node key value new_level tranc_id
  (last, update) ← descend (rounds s) s (λ n. node_lt n node) s.current_level s.head
  next ← forward_at s last 0
  elim next [
    | none ↦ put_new node new_level bits update s
    | some b ↦ load s b >>= λ n.
        (if is_version key tranc_id n
          then ok (put_value b n value s)
          else put_new node new_level bits update s)
  ]

-- while (current && current->key_ == key) of `get`, to the first version that is visible.
unfoldable pub visible_from : ℕ → SkipList → Bytes → ℕ → Ptr → Outcome Ptr
unfolding load forward_at
visible_from fuel s key tranc_id none = ok none
visible_from zero s key tranc_id (some a) = unfinished
visible_from (suc fuel) s key tranc_id (some a) = do
  n ← load s a
  let rest = forward_at s a 0 >>= λ next. visible_from fuel s key tranc_id next
  if not (bytes_eq n.key key)
      then ok none
      else if (tranc_id == 0) || leb n.tranc_id tranc_id
      then ok (some a)
      else rest

unfoldable pub key_below : Bytes → SkipListNode → Bool
key_below key n = bytes_lt n.key key

-- The first node whose key is not below: `begin_preffix`.
unfoldable pub begin_preffix : Bytes → SkipList → Outcome Ptr
unfolding descend rounds forward_at key_below
begin_preffix preffix s = do
  (last, update) ← descend (rounds s) s (key_below preffix) s.current_level s.head
  forward_at s last 0

-- The iterator that `get` answers is the address of the node.
unfoldable pub get : Bytes → ℕ → SkipList → Outcome Ptr
unfolding begin_preffix visible_from rounds
get key tranc_id s = do first ← begin_preffix key s; visible_from (rounds s) s key tranc_id first

-- What an iterator shows: nothing at the end.
unfoldable pub entry_at : SkipList → Ptr → Outcome (Option (Bytes × Bytes × ℕ))
unfolding load
entry_at s none = ok none
entry_at s (some a) = load s a >>= λ n. ok (some (n.key, n.value, n.tranc_id))

-- Along level 0.
unfoldable pub entries_from : ℕ → SkipList → Ptr → Outcome (List (Bytes × Bytes × ℕ))
unfolding load forward_at
entries_from fuel s none = ok []
entries_from zero s (some a) = unfinished
entries_from (suc fuel) s (some a) = do
  n ← load s a
  next ← forward_at s a 0
  rest ← entries_from fuel s next
  ok ((n.key, n.value, n.tranc_id) ∷ rest)

unfoldable pub flush : SkipList → Outcome (List (Bytes × Bytes × ℕ))
unfolding entries_from forward_at rounds
flush s = do first ← forward_at s s.head 0; entries_from (rounds s) s first

unfoldable pub get_size : SkipList → ℕ
get_size s = s.size_bytes

-- A new head; the level stays. The old nodes are unreachable.
unfoldable pub clear : SkipList → SkipList
unfolding store new_node
clear s = record (store s.fresh (new_node [] [] s.max_level 0) s) {
  head = s.fresh;
  fresh = s.fresh + 1;
  size_bytes = 0;
}
