-- ===== src/Block/Ordered.antt =====
-- The order of the entries in a block, and the newest entry of a key that a transaction sees.
use mathlib.Core.Path.{subst}
use mini_redis.Common.{
  ℕ, suc, ◌^◌, ◌≤◌, ◌<◌, ◌≡◌, ◌≢◌, ◌⊎◌, inl, inr, List, Bool, true, false, ◌||◌, arith,
}
use mini_redis.Common.{Option, none, some, leb, ◌==◌, get_elem?, Ordering}
use mini_redis.Common.Keys.{Bytes, compare_bytes, compare_bytes_trans, compare_bytes_refl}
use mini_redis.Block.{Entry}
use mini_redis.Block.Access.{}
use mini_redis.Block.Search.{}

-- Transaction 0 sees every entry, any other the entries with no greater id.
abbrev pub visible : ℕ → ℕ → Bool
visible tranc_id id = (tranc_id == 0) || leb id tranc_id

-- The order of the entries in a block: by key, and the newer first where keys are equal.
abbrev pub Before : Entry → Entry → Type 0
Before d e =
    (compare_bytes d.key e.key ≡ Ordering.lt) ⊎ ((d.key ≡ e.key) × (e.tranc_id ≤ d.tranc_id))

-- Each entry stands before those behind it: by key, and for one key the newest first.
abbrev pub IsOrdered : List Entry → Type 0
IsOrdered es =
    (i j : ℕ) (d e : Entry) → get_elem? es i ≡ some d → get_elem? es j ≡ some e → i < j → Before d e

-- Ids that come back whole from the 16 bits that `get_tranc_id_at` returns.
abbrev pub HasShortIds : List Entry → Type 0
HasShortIds es = (i : ℕ) (e : Entry) → get_elem? es i ≡ some e → e.tranc_id < 2 ^ 16

pub record IsSearchable (es : List Entry) : Type 0 where
  pub ordered : IsOrdered es
  pub small : HasShortIds es

-- The entry at `i` has the key and is visible, and no visible entry with the key stands before it.
pub record IsNewest (es : List Entry) (key : Bytes) (tranc_id i : ℕ) : Type 0 where
  pub entry : Entry
  pub at : get_elem? es i ≡ some entry
  pub key_eq : entry.key ≡ key
  pub seen : visible tranc_id entry.tranc_id ≡ true
  pub first :
      (j : ℕ) (d : Entry)
      → j < i
      → get_elem? es j ≡ some d
      → d.key ≡ key
      → visible tranc_id d.tranc_id ≡ false

abbrev pub NoneVisible : List Entry → Bytes → ℕ → Type 0
NoneVisible es key tranc_id =
    (j : ℕ) (d : Entry)
    → get_elem? es j ≡ some d
    → d.key ≡ key
    → visible tranc_id d.tranc_id ≡ false

-- What a search for the newest visible entry of a key has to answer.
abbrev pub Finds : List Entry → Bytes → ℕ → Option ℕ → Type 0
Finds es key tranc_id none = NoneVisible es key tranc_id
Finds es key tranc_id (some i) = IsNewest es key tranc_id i

pub earlier_or_at : (j p : ℕ) → j < suc p → (j ≡ p) ⊎ (j < p)
earlier_or_at j p h = omega arith

pub behind_or_before : (p j : ℕ) → (j < suc p) ⊎ (suc p ≤ j)
behind_or_before p j = omega arith

pub split_at : (n j : ℕ) → (j < n) ⊎ (n ≤ j)
split_at n j = omega arith

pub same_entry :
    (es : List Entry) (j p : ℕ) (c d : Entry)
    → j ≡ p
    → get_elem? es j ≡ some c
    → get_elem? es p ≡ some d
    → d ≡ c
same_entry es j p c d e hc hd = cc

module _ (es : List Entry) (o : IsSearchable es) (key : Bytes) where
  -- A key below the key at `j` stands before `j`, and so does all that is not behind it.
  pub less_before :
      (i j : ℕ) (d e : Entry)
      → get_elem? es i ≡ some d
      → get_elem? es j ≡ some e
      → i < j
      → compare_bytes e.key key ≡ Ordering.lt
      → compare_bytes d.key key ≡ Ordering.lt
  less_before i j d e p q l h = elim (o.ordered i j d e p q l) [
    | inl less ↦ compare_bytes_trans d.key e.key key less h
    | inr (same, ids) ↦ rw same h
  ]

  pub greater_after :
      (i j : ℕ) (d e : Entry)
      → get_elem? es i ≡ some d
      → get_elem? es j ≡ some e
      → i < j
      → compare_bytes key d.key ≡ Ordering.lt
      → compare_bytes key e.key ≡ Ordering.lt
  greater_after i j d e p q l h = elim (o.ordered i j d e p q l) [
    | inl less ↦ compare_bytes_trans key d.key e.key h less
    | inr (same, ids) ↦ rw (← same) h
  ]

  pub lt_ne : (k : Bytes) → compare_bytes k key ≡ Ordering.lt → k ≢ key
  lt_ne k h e = cc (compare_bytes_refl key, subst (λ t. compare_bytes t key ≡ Ordering.lt) e h)

  pub gt_ne : (k : Bytes) → compare_bytes key k ≡ Ordering.lt → k ≢ key
  gt_ne k h e = cc (compare_bytes_refl key, subst (λ t. compare_bytes key t ≡ Ordering.lt) e h)
