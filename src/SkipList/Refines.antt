-- ===== src/SkipList/Refines.antt =====
-- The skip list implements the sorted list of entries.
use mathlib.Core.Path.{subst}
use mini_redis.Common.{
  ℕ, ◌+◌, ◌≤◌, ◌≡◌, refl, sym, ap, ◌∙◌, inl, inr, List, [], ◌∷◌, ◌++◌, Bool, true, false, arith,
}
use mini_redis.Common.{Bool-cases, none, some, Outcome, ok, ◌>>=◌, All, if◌then◌else◌, length}
use mini_redis.Common.Keys.{Bytes}
use mini_redis.MemTable.Table.{Entry, put_version}
use mini_redis.SkipList.{is_version, put_new, put_value, put, random_level, max}
use mini_redis.SkipList.Node.{Ptr, SkipListNode, SkipList, load, new_node, node_lt}
use mini_redis.SkipList.Chain.{bare, Item, Chain, Chain-Reaches, first_ptr, drop_less}
use mini_redis.SkipList.Order.{IsSorted, IsSorted-behind, IsClosed-of, node_lt_mono, first-Precedes}
use mini_redis.SkipList.Search.{IgnoresPointers, Stops, Stopped, Stops-drop_less}
use mini_redis.SkipList.Split.{Blocked, Stops-Blocked}
use mini_redis.SkipList.Lookup.{Holds, contents, descend-Holds}
use mini_redis.SkipList.Put.{put_new-Holds}
use mini_redis.SkipList.Value.{put_value-Holds}
use mini_redis.SkipList.Versions.{contents-new, contents-changed, random_level-le}

-- What a put leaves: a well-formed list of the entries.
pub record Answers (r : Outcome SkipList) (entries : List Entry) : Type 0 where
  pub after : SkipList
  pub items : List Item
  pub answer : r ≡ ok after
  pub holds : Holds after items
  pub entries_eq : contents items ≡ entries

module _ (s : SkipList) (items : List Item) (h : Holds s items) (key value : Bytes) (id : ℕ)
    (height : ℕ) (low : s.current_level ≤ height) (high : height ≤ s.max_level) where
  abbrev node : SkipListNode
  node = new_node key value height id

  less : SkipListNode → Bool
  less n = node_lt n node

  -- What `put` does behind the last node that precedes the new one.
  unfoldable place : List Bool → List ℕ → Ptr → Outcome SkipList
  place bits us none = put_new node height bits us s
  place bits us (some b) = load s b >>= λ n.
      (if is_version key id n then ok (put_value b n value s) else put_new node height bits us s)

  place-new :
      (bits : List Bool) (u : ℕ) (us : List ℕ) (last : Stops s less 0 s.head items u)
      → Stopped s less s.head items 1 us
      → 1 + length us ≡ s.current_level
      → Blocked (is_version key id) last.rest
      → Answers
          (put_new node height bits (u ∷ us) s)
          (put_version (key, value, id) (contents items))
  unfolding less bare new_node node_lt
  place-new bits u us last st e new =
      let sorted : IsSorted last.rest =
        IsSorted-behind last.passed last.rest
          (subst (λ (t : List Item). IsSorted t) last.parts h.sorted) in
      let (s', p, hold) =
        put_new-Holds key value height id s items h bits u us low high last st e
          (above last.rest sorted (Stops-Blocked s less s.head items u last) new) in
      record {
        after = s';
        items = last.passed ++ (s.fresh, bare node) ∷ last.rest;
        answer = p;
        holds = hold;
        entries_eq =
            contents-new s.fresh (bare node) last.passed last.rest last.below
              (Stops-Blocked s less s.head items u last) new
            ∙ ap (λ (t : List Item). put_version (key, value, id) (contents t)) (sym last.parts);
      }
    where
      above :
          (rest : List Item)
          → IsSorted rest
          → Blocked less rest
          → Blocked (is_version key id) rest
          → All (λ (x : Item). node_lt node x.1 ≡ true) rest
      above [] k b n = tt
      above ((b, w) ∷ rest) k f n = first-Precedes b node w rest k f n

  place-Answers :
      (bits : List Bool) (u : ℕ) (us : List ℕ) (last : Stops s less 0 s.head items u)
      → Stopped s less s.head items 1 us
      → 1 + length us ≡ s.current_level
      → (rest : List Item) → last.rest ≡ rest
      → Answers
          (place bits (u ∷ us) (first_ptr rest))
          (put_version (key, value, id) (contents items))
  unfolding place first_ptr less bare new_node is_version
  place-Answers bits u us last st e [] q =
      place-new bits u us last st e
        (subst (λ (t : List Item). Blocked (is_version key id) t) (sym q) tt)
  place-Answers bits u us last st e ((b, w) ∷ post) q =
      let (r, (n, ld, v), c) = subst (λ (t : List Item). Chain s u t) q last.chain in
      elim (Bool-cases (is_version key id n)) [
        | inr new ↦
            rw (ld, new)
              (place-new bits u us last st e (
                subst (λ (t : List Item). Blocked (is_version key id) t) (sym q)
                  (subst (λ (t : SkipListNode). is_version key id t ≡ false) v new)))
        | inl known ↦
            let parts : items ≡ last.passed ++ (b, bare n) ∷ post =
              last.parts ∙ ap (λ t. last.passed ++ t) (q ∙ ap (λ t. (b, t) ∷ post) (sym v)) in
            let not_less : node_lt (bare n) node ≡ false = rw v (
              subst (λ (t : List Item). Blocked less t) q
                (Stops-Blocked s less s.head items u last)) in
            record {
              after = put_value b n value s;
              items = last.passed ++ (b, bare (record n { value = value })) ∷ post;
              answer = rw (ld, known) refl;
              holds = put_value-Holds s items last.passed post b n value h ld c parts;
              entries_eq =
                  contents-changed b node (bare n) value last.passed post last.below not_less known
                  ∙ ap (λ (t : List Item). put_version (key, value, id) (contents t)) (sym parts);
            }
      ]

-- On a well-formed list that holds known entries `put` comes to its end without a fault, whatever
-- the random draws are, and leaves a well-formed list of the entries with the new one at its place.
pub put-put_version :
    (s : SkipList) (items : List Item) (key value : Bytes) (id : ℕ) (coins bits : List Bool)
    → Holds s items
    → Answers (put key value id coins bits s) (put_version (key, value, id) (contents items))
unfolding put place less
put-put_version s items key value id coins bits h =
    let node = new_node key value height id in
    let closed = IsClosed-of (λ n. node_lt n node) (node_lt_mono node) items h.sorted in
    let ignores : IgnoresPointers (λ n. node_lt n node) = unfold node_lt bare in (λ n. refl) in
    let (p, us, d, stopped, len, st) =
      descend-Holds s items (λ n. node_lt n node) ignores h closed in
    let end_rest = Stops-drop_less s (λ n. node_lt n node) ignores s.head items p st in
    rw (d, (Chain-Reaches s p st.rest st.chain).0, end_rest) (placed us stopped len)
  where
    height : ℕ
    height = max (random_level s.max_level 1 coins) s.current_level

    low : s.current_level ≤ height
    low = unfold max in (ground arith)

    high : height ≤ s.max_level
    high =
        unfold max in
        (ground (
          arith,
          h.levels_fit,
          random_level-le s.max_level 1 coins (omega (arith, h.some_level, h.levels_fit)),
        ))

    placed :
        (us : List ℕ)
        → Stopped s (λ n. node_lt n (new_node key value height id)) s.head items 0 us
        → length us ≡ s.current_level
        → Answers
            (place s items h key value id height low high bits us
              (first_ptr (drop_less (λ n. node_lt n (new_node key value height id)) items)))
            (put_version (key, value, id) (contents items))
    placed [] st e = absurd (omega (arith, e, h.some_level))
    placed (u ∷ us) (st, sts) e =
        let ignores : IgnoresPointers (λ n. node_lt n (new_node key value height id)) =
          unfold node_lt bare in (λ n. refl) in
        place-Answers s items h key value id height low high bits u us st sts (omega (arith, e))
          (drop_less (λ n. node_lt n (new_node key value height id)) items)
          (Stops-drop_less s (λ n. node_lt n (new_node key value height id)) ignores s.head items u
            st)
