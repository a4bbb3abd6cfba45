-- ===== src/Block/Scan.antt =====
-- The scans back from an entry of the key, to the newest visible one and to the first.
use mathlib.Core.Path.{subst}
use mini_redis.Common.{
  ℕ, zero, suc, ◌<◌, ◌≡◌, ◌≢◌, refl, ap, ◌∙◌, inl, inr, List, true, false, arith,
}
use mini_redis.Common.{
  Outcome, ok, some, ltb, Bool-cases, get_elem?, get_elem?-lt, get_elem?-some, Ordering,
}
use mini_redis.Common.Keys.{Bytes, compare_bytes, bytes_eq, bytes_eq_iff}
use native.Mathlib.Nat.{mod-eq_of_lt}
use mini_redis.Block.{Block, Entry}
use mini_redis.Block.Entries.{Represents}
use mini_redis.Block.Access.{tranc_id_of-entry, is_same_key-entry}
use mini_redis.Block.Search.{tranc_id_of, newest_visible, first_of_key}
use mini_redis.Block.Ordered.{
  visible, IsSearchable, IsNewest, earlier_or_at, same_entry, less_before, lt_ne,
}

module _ (b : Block) (es : List Entry) (r : Represents b es) (o : IsSearchable es) (key : Bytes)
    (tranc_id : ℕ) where
  pub id_of : (i : ℕ) (e : Entry) → get_elem? es i ≡ some e → tranc_id_of b i ≡ ok e.tranc_id
  id_of i e h = tranc_id_of-entry b es i e r h ∙ ap ok (mod-eq_of_lt (o.small i e h))

  -- Before an entry with another key than the one behind it, no entry has the key.
  pub none_before :
      (p : ℕ) (d e : Entry)
      → get_elem? es p ≡ some d
      → get_elem? es (suc p) ≡ some e
      → e.key ≡ key
      → d.key ≢ key
      → (j : ℕ) (c : Entry) → j < suc p
      → get_elem? es j ≡ some c
      → c.key ≢ key
  none_before p d e hd he ek dk j c l hc ck = elim (o.ordered p (suc p) d e hd he (omega arith)) [
    | inr (same, ids) ↦ dk (same ∙ ek)
    | inl less ↦
        let below : compare_bytes d.key key ≡ Ordering.lt =
          subst (λ t. compare_bytes d.key t ≡ Ordering.lt) ek less in
        elim (earlier_or_at j p l) [
          | inl at ↦ dk (ap (λ (x : Entry). x.key) (same_entry es j p c d at hc hd) ∙ ck)
          | inr lt ↦ lt_ne es o key c.key (less_before es o key j p c d hc hd lt below) ck
        ]
  ]

  -- Older entries of the key stand behind it, so what stands before an entry that is not visible is
  -- not visible.
  pub hidden_before :
      (p : ℕ) (d : Entry)
      → get_elem? es p ≡ some d
      → d.key ≡ key
      → visible tranc_id d.tranc_id ≡ false
      → (j : ℕ) (c : Entry) → j < suc p
      → get_elem? es j ≡ some c
      → c.key ≡ key
      → visible tranc_id c.tranc_id ≡ false
  hidden_before p d hd dk hidden j c l hc ck = elim (earlier_or_at j p l) [
    | inl at ↦
        subst (λ (x : Entry). visible tranc_id x.tranc_id ≡ false) (same_entry es j p c d at hc hd)
          hidden
    | inr lt ↦ elim (o.ordered j p c d hc hd lt) [
      | inl less ↦
          absurd
            (lt_ne es o key c.key (subst (λ t. compare_bytes c.key t ≡ Ordering.lt) dk less) ck)
      | inr (same, ids) ↦ ground arith
    ]
  ]

  abbrev pub Newest : Outcome ℕ → Type 0
  Newest m = (i : ℕ) × (m ≡ ok i) × IsNewest es key tranc_id i

  pub newest_visible-IsNewest :
      (p : ℕ) (e : Entry)
      → tranc_id ≢ 0
      → get_elem? es p ≡ some e
      → e.key ≡ key
      → visible tranc_id e.tranc_id ≡ true
      → Newest (newest_visible b key tranc_id p)
  unfolding newest_visible
  newest_visible-IsNewest zero e nz he ek seen = (
    0,
    refl,
    record { entry = e; at = he; key_eq = ek; seen = seen; first = λ j d l. absurd (omega arith) },
  )
  newest_visible-IsNewest (suc p) e nz he ek seen =
      let (d, hd) = get_elem?-lt es p (omega (arith, get_elem?-some es (suc p) e he)) in
      elim (Bool-cases (bytes_eq d.key key)) [
        | inr other ↦ (
          suc p,
          rw (is_same_key-entry b es p d r hd key, other) refl,
          record {
            entry = e;
            at = he;
            key_eq = ek;
            seen = seen;
            first = λ j c l hc ck. absurd (
                none_before p d e hd he ek (λ q. cc (other, (bytes_eq_iff d.key key).1 q)) j c l hc
                  ck);
          },
        )
        | inl same ↦ elim (Bool-cases (ltb tranc_id d.tranc_id)) [
          | inl newer ↦ (
            suc p,
            rw (is_same_key-entry b es p d r hd key, same, id_of p d hd, newer) refl,
            record {
              entry = e;
              at = he;
              key_eq = ek;
              seen = seen;
              first = hidden_before p d hd ((bytes_eq_iff d.key key).0 same) (ground arith);
            },
          )
          | inr older ↦
              let (i, q, n) =
                newest_visible-IsNewest p d nz hd ((bytes_eq_iff d.key key).0 same)
                  (ground arith) in
              (i, rw (is_same_key-entry b es p d r hd key, same, id_of p d hd, older) q, n)
        ]
      ]

  pub first_of_key-IsNewest :
      (p : ℕ) (e : Entry)
      → tranc_id ≡ 0
      → get_elem? es p ≡ some e
      → e.key ≡ key
      → Newest (first_of_key b key p)
  unfolding first_of_key
  first_of_key-IsNewest zero e z he ek = (
    0,
    refl,
    record {
      entry = e;
      at = he;
      key_eq = ek;
      seen = ground arith;
      first = λ j d l. absurd (omega arith);
    },
  )
  first_of_key-IsNewest (suc p) e z he ek =
      let (d, hd) = get_elem?-lt es p (omega (arith, get_elem?-some es (suc p) e he)) in
      elim (Bool-cases (bytes_eq d.key key)) [
        | inr other ↦ (
          suc p,
          rw (is_same_key-entry b es p d r hd key, other) refl,
          record {
            entry = e;
            at = he;
            key_eq = ek;
            seen = ground arith;
            first = λ j c l hc ck. absurd (
                none_before p d e hd he ek (λ q. cc (other, (bytes_eq_iff d.key key).1 q)) j c l hc
                  ck);
          },
        )
        | inl same ↦
            let (i, q, n) = first_of_key-IsNewest p d z hd ((bytes_eq_iff d.key key).0 same) in
            (i, rw (is_same_key-entry b es p d r hd key, same) q, n)
      ]
