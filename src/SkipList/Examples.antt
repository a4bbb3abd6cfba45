-- ===== src/SkipList/Examples.antt =====
-- Runs of the skip list, and the theorems on lists that they lead to.
use mini_redis.Common.{◌≡◌, refl, List, [], ◌∷◌, Bool, true, false, arith}
use mini_redis.Common.{ok, ◌>>=◌}
use mini_redis.Common.Keys.{bytes_eq, bytes_lt, compare_bytes}
use mini_redis.MemTable.Table.{put_version, first_visible}
use mini_redis.SkipList.{empty_list, put, get, entry_at, flush, clear}
use mini_redis.SkipList.Lookup.{Holds, contents, flush-contents}
use mini_redis.SkipList.Node.{Ptr}
use mini_redis.SkipList.{begin_preffix, rounds}
use mini_redis.SkipList.Range.{end_preffix, entries_between}
use mini_redis.SkipList.Prefix.{with_prefix, entries_between-preffix}
use mini_redis.SkipList.Refines.{Answers, put-put_version}
use mini_redis.SkipList.Table.{empty_list-Holds, clear-Holds, get-first_visible}

abbrev coins : List Bool
coins = true ∷ false ∷ []

-- Key 5 is put twice, by transactions 1 and 3; key 2 comes before it.
three_puts :
    (do
      s ← put (5 ∷ []) (50 ∷ []) 1 coins [] (empty_list 4)
      s ← put (2 ∷ []) (20 ∷ []) 2 [] (true ∷ true ∷ []) s
      s ← put (5 ∷ []) (53 ∷ []) 3 [] (true ∷ true ∷ []) s
      flush s)
    ≡ ok ((2 ∷ [], 20 ∷ [], 2) ∷ (5 ∷ [], 53 ∷ [], 3) ∷ (5 ∷ [], 50 ∷ [], 1) ∷ [])
unfolding put empty_list flush bytes_eq compare_bytes bytes_lt
three_puts = refl

one_put :
    Answers
      (put (5 ∷ []) (50 ∷ []) 1 coins [] (empty_list 4))
      (put_version (5 ∷ [], 50 ∷ [], 1) (contents []))
one_put =
    put-put_version (empty_list 4) [] (5 ∷ []) (50 ∷ []) 1 coins []
      (empty_list-Holds 4 (omega arith))

put-put_version_example :
    Answers
      (put (5 ∷ []) (53 ∷ []) 3 [] (true ∷ true ∷ []) one_put.after)
      (put_version (5 ∷ [], 53 ∷ [], 3) (contents one_put.items))
put-put_version_example =
    put-put_version one_put.after one_put.items (5 ∷ []) (53 ∷ []) 3 [] (true ∷ true ∷ [])
      one_put.holds

get-first_visible_example :
    (get (5 ∷ []) 2 one_put.after >>= λ p. entry_at one_put.after p)
    ≡ ok (first_visible (5 ∷ []) 2 (contents one_put.items))
get-first_visible_example = get-first_visible one_put.after one_put.items (5 ∷ []) 2 one_put.holds

flush-contents_example : flush one_put.after ≡ ok (contents one_put.items)
flush-contents_example = flush-contents one_put.after one_put.items one_put.holds

clear-Holds_example : Holds (clear one_put.after) []
clear-Holds_example = clear-Holds one_put.after one_put.items one_put.holds

entries_between-preffix_example :
    (p q : Ptr) × (begin_preffix (5 ∷ []) one_put.after ≡ ok p)
    × (end_preffix (5 ∷ []) one_put.after ≡ ok q)
    × (entries_between (rounds one_put.after) one_put.after p q
        ≡ ok (with_prefix (5 ∷ []) (contents one_put.items)))
entries_between-preffix_example =
    entries_between-preffix one_put.after one_put.items (5 ∷ []) one_put.holds
