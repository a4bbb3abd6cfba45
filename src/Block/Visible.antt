-- ===== src/Block/Visible.antt =====
-- The search returns the newest visible entry of a key.
use mini_redis.Block.Entries.{length-offsets}
use mathlib.Core.Path.{subst}
use mini_redis.Common.{
  ℕ, zero, suc, ◌+◌, ◌-◌, ◌/◌, ◌≤◌, ◌<◌, ◌≡◌, refl, sym, inl, inr, List, [], ◌∷◌, false, arith,
}
use mini_redis.Common.{
  ok, Option, none, some, ltb, ◌==◌, ltb→lt, Bool-cases, Ordering-cases, length, get_elem?,
  get_elem?-lt, get_elem?-some, Ordering,
}
use mini_redis.Common.Keys.{Bytes, compare_bytes, compare_bytes-gt, eq_of_compare_bytes}
use mini_redis.Block.{Block, Entry}
use mini_redis.Block.Entries.{Represents}
use mini_redis.Block.Access.{offset_at-entry, get_value_at-entry, compare_key_at-entry}
use mini_redis.Block.Search.{search_loop, get_idx_binary, get_value_binary}
use mini_redis.Block.Ordered.{
  IsSearchable, IsOrdered, HasShortIds, IsNewest, NoneVisible, Finds, earlier_or_at, split_at,
  same_entry, less_before, greater_after, lt_ne, gt_ne,
}
use mini_redis.Block.Adjust.{Found, adjust_idx_by_tranc_id-Found}

module _ (b : Block) (es : List Entry) (r : Represents b es) (o : IsSearchable es) (key : Bytes)
    (tranc_id : ℕ) where
  -- The keys left of `left` are smaller, those from `right_end` on are greater.
  record Bracket (left right_end : ℕ) : Type 0 where
    low :
        (j : ℕ) (c : Entry)
        → j < left
        → get_elem? es j ≡ some c
        → compare_bytes c.key key ≡ Ordering.lt
    high :
        (j : ℕ) (c : Entry)
        → right_end ≤ j
        → get_elem? es j ≡ some c
        → compare_bytes key c.key ≡ Ordering.lt

  Bracket-none :
      (left right_end : ℕ) → right_end ≤ left → Bracket left right_end → NoneVisible es key tranc_id
  Bracket-none left right_end h k j c hc ck = elim (split_at left j) [
    | inl lt ↦ absurd (lt_ne es o key c.key (k.low j c lt hc) ck)
    | inr ge ↦ absurd (gt_ne es o key c.key (k.high j c (omega arith) hc) ck)
  ]

  search_loop-Found :
      (fuel left right_end : ℕ)
      → left ≤ right_end
      → right_end < left + fuel
      → right_end ≤ length es
      → Bracket left right_end
      → Found b es r o key tranc_id (search_loop fuel b key tranc_id left right_end)
  unfolding search_loop
  search_loop-Found zero left right_end g f h k = absurd (omega arith)
  search_loop-Found (suc fuel) left right_end g f h k = elim (Bool-cases (ltb left right_end)) [
    | inr end ↦ (none, rw end refl, Bracket-none left right_end (ground arith) k)
    | inl inside ↦
        let lt = ltb→lt left right_end inside in
        let mid = left + (right_end - 1 - left) / 2 in
        let (d, hd) = get_elem?-lt es mid (omega arith) in
        elim (Ordering-cases (compare_bytes d.key key)) [
          | inl less ↦
              let (x, m, n) =
                search_loop-Found fuel (mid + 1) right_end (omega arith) (omega arith) h (record {
                  low = λ j c l hc. elim (earlier_or_at j mid (omega arith)) [
                    | inl at ↦
                        subst (λ (x : Entry). compare_bytes x.key key ≡ Ordering.lt)
                          (same_entry es j mid c d at hc hd) less
                    | inr before ↦ less_before es o key j mid c d hc hd before less
                  ];
                  high = k.high;
                }) in
              (
                x,
                rw
                    (
                      inside,
                      offset_at-entry b es mid d r hd,
                      compare_key_at-entry b es mid d r hd key,
                      less,
                    )
                    m,
                n,
              )
          | inr (inl same) ↦
              let (x, m, n) =
                adjust_idx_by_tranc_id-Found b es r o key tranc_id mid d hd
                  (eq_of_compare_bytes d.key key same) in
              (
                x,
                rw
                    (
                      inside,
                      offset_at-entry b es mid d r hd,
                      compare_key_at-entry b es mid d r hd key,
                      same,
                    )
                    m,
                n,
              )
          | inr (inr greater) ↦
              let above = (compare_bytes-gt d.key key).0 greater in
              let (x, m, n) =
                search_loop-Found fuel left mid (omega arith) (omega arith) (omega arith) (record {
                  low = k.low;
                  high = λ j c l hc. elim (earlier_or_at mid j (omega arith)) [
                    | inl at ↦
                        subst (λ (x : Entry). compare_bytes key x.key ≡ Ordering.lt)
                          (same_entry es j mid c d (sym at) hc hd) above
                    | inr after ↦ greater_after es o key mid j d c hd hc after above
                  ];
                }) in
              (
                x,
                rw
                    (
                      inside,
                      offset_at-entry b es mid d r hd,
                      compare_key_at-entry b es mid d r hd key,
                      greater,
                    )
                    m,
                n,
              )
        ]
  ]

-- On a block that holds ordered entries the search by key and transaction succeeds. It finds the
-- entry of the key that stands first among those that the transaction sees, and where it finds
-- none, no entry of the key is visible to the transaction.
pub get_idx_binary-Finds :
    (b : Block) (es : List Entry) (key : Bytes) (tranc_id : ℕ)
    → Represents b es
    → IsSearchable es
    → (x : Option ℕ) × (get_idx_binary b key tranc_id ≡ ok x) × Finds es key tranc_id x
unfolding get_idx_binary
get_idx_binary-Finds b [] key tranc_id r o = (
  none,
  rw (length-offsets b [] r) refl,
  λ j c hc. absurd (omega (arith, get_elem?-some [] j c hc)),
)
get_idx_binary-Finds b (e ∷ es) key tranc_id r o =
    let n = length-offsets b (e ∷ es) r in
    let (x, m, f) =
      search_loop-Found b (e ∷ es) r o key tranc_id (suc (length b.offsets)) 0 (length b.offsets)
        (omega arith) (omega arith) (omega arith)
        (record {
          low = λ j c l. absurd (omega arith);
          high = λ j c l hc. absurd (omega (arith, get_elem?-some (e ∷ es) j c hc));
        }) in
    let full : (length b.offsets == 0) ≡ false = ground (arith, n) in (x, rw full m, f)

-- What `get_value_binary` has to answer, by the entries alone: the value of the newest visible entry.
abbrev pub Answers : List Entry → Bytes → ℕ → Option Bytes → Type 0
Answers es key tranc_id none = NoneVisible es key tranc_id
Answers es key tranc_id (some v) = (i : ℕ) × (n : IsNewest es key tranc_id i) × (n.entry.value ≡ v)

-- On a block that holds ordered entries whose ids are all below 2 ^ 16 the lookup by key and
-- transaction succeeds: it answers the value of the newest visible entry of the key, and nothing where
-- no entry of the key is visible.
pub get_value_binary-Answers :
    (b : Block) (es : List Entry) (key : Bytes) (tranc_id : ℕ)
    → Represents b es
    → IsOrdered es
    → HasShortIds es
    → (v : Option Bytes) × (get_value_binary b key tranc_id ≡ ok v) × Answers es key tranc_id v
unfolding get_value_binary
get_value_binary-Answers b es key tranc_id r o n =
    answer (get_idx_binary-Finds b es key tranc_id r (record { ordered = o; small = n }))
  where
    answer :
        ((x : Option ℕ) × (get_idx_binary b key tranc_id ≡ ok x) × Finds es key tranc_id x)
        → (v : Option Bytes) × (get_value_binary b key tranc_id ≡ ok v) × Answers es key tranc_id v
    answer (none, m, f) = (none, rw m refl, f)
    answer (some i, m, f) = (
      some f.entry.value,
      rw (m, offset_at-entry b es i f.entry r f.at, get_value_at-entry b es i f.entry r f.at) refl,
      (i, f, refl),
    )
