-- ===== src/SkipList/Range.antt =====
-- The end of a prefix and the walk along a range (src/skiplist/skipList.cpp).
use mini_redis.Common.{ℕ, zero, suc, List, [], ◌∷◌, Bool, true, false}
use mini_redis.Common.{
  none, some, Outcome, ok, unfinished, ◌>>=◌, ◌==◌, if◌then◌else◌, length, take,
}
use mini_redis.Common.Keys.{Bytes, bytes_eq}
use mini_redis.SkipList.Node.{Ptr, SkipList, load, forward_at}
use mini_redis.SkipList.{rounds, begin_preffix}

unfoldable pub has_prefix : Bytes → Bytes → Bool
has_prefix prefix key = bytes_eq (take (length prefix) key) prefix

unfoldable pub skip_prefixed : ℕ → SkipList → Bytes → Ptr → Outcome Ptr
unfolding load forward_at has_prefix
skip_prefixed fuel s prefix none = ok none
skip_prefixed zero s prefix (some a) = unfinished
skip_prefixed (suc fuel) s prefix (some a) = do
  n ← load s a
  let rest = forward_at s a 0 >>= λ next. skip_prefixed fuel s prefix next
  if has_prefix prefix n.key then rest else ok (some a)

-- The search is that of `begin_preffix`.
unfoldable pub end_preffix : Bytes → SkipList → Outcome Ptr
unfolding begin_preffix skip_prefixed rounds
end_preffix prefix s = do
  current ← begin_preffix prefix s
  skip_prefixed (rounds s) s prefix current

unfoldable pub ptr_eq : Ptr → Ptr → Bool
ptr_eq none none = true
ptr_eq none (some b) = false
ptr_eq (some a) none = false
ptr_eq (some a) (some b) = a == b

-- for (auto iter = begin; iter != end; ++iter); past the end of the list `++` stays there.
unfoldable pub entries_between : ℕ → SkipList → Ptr → Ptr → Outcome (List (Bytes × Bytes × ℕ))
unfolding load forward_at ptr_eq
entries_between zero s p q = if ptr_eq p q then ok [] else unfinished
entries_between (suc fuel) s none q =
    let rest = entries_between fuel s none q in if ptr_eq none q then ok [] else rest
entries_between (suc fuel) s (some a) q =
    let rest = λ (next : Ptr). entries_between fuel s next q in
    if ptr_eq (some a) q then ok [] else (do
      n ← load s a
      next ← forward_at s a 0
      entries ← rest next
      ok ((n.key, n.value, n.tranc_id) ∷ entries))
