-- ===== src/Block/Adjust.antt =====
-- The scan forward to a visible entry, and the choice between the three scans.
use mini_redis.Block.Entries.{length-offsets}
use mathlib.Core.Path.{subst}
use mini_redis.Common.{
  ℕ, zero, suc, ◌+◌, ◌≤◌, ◌<◌, ◌≡◌, ◌≢◌, refl, sym, ap, ◌∙◌, inl, inr, List, false, arith,
}
use mini_redis.Common.{
  Outcome, ok, Option, none, some, ltb, leb, ◌==◌, ltb→lt, Bool-cases, length, get_elem?,
  get_elem?-lt, get_elem?-some, Ordering,
}
use mini_redis.Common.Keys.{Bytes, compare_bytes, bytes_eq, bytes_eq_iff}
use mini_redis.Block.{Block, Entry}
use mini_redis.Block.Entries.{Represents}
use mini_redis.Block.Access.{offset_at-entry, get_key_at-entry, is_same_key-entry}
use mini_redis.Block.Search.{next_visible, adjust_idx_by_tranc_id, adjust_with}
use mini_redis.Block.Ordered.{
  visible, IsSearchable, Finds, earlier_or_at, behind_or_before, same_entry, greater_after, gt_ne,
}
use mini_redis.Block.Scan.{id_of, hidden_before, newest_visible-IsNewest, first_of_key-IsNewest}

module _ (b : Block) (es : List Entry) (r : Represents b es) (o : IsSearchable es) (key : Bytes)
    (tranc_id : ℕ) where
  -- Behind an entry with another key than the one before it, no entry has the key.
  none_after :
      (p : ℕ) (d e : Entry)
      → get_elem? es p ≡ some d
      → get_elem? es (suc p) ≡ some e
      → d.key ≡ key
      → e.key ≢ key
      → (j : ℕ) (c : Entry) → suc p ≤ j
      → get_elem? es j ≡ some c
      → c.key ≢ key
  none_after p d e hd he dk ek j c l hc ck = elim (o.ordered p (suc p) d e hd he (omega arith)) [
    | inr (same, ids) ↦ ek (sym same ∙ dk)
    | inl less ↦
        let above : compare_bytes key e.key ≡ Ordering.lt =
          subst (λ t. compare_bytes t e.key ≡ Ordering.lt) dk less in
        elim (earlier_or_at (suc p) j (omega arith)) [
          | inl at ↦
              ek (ap (λ (x : Entry). x.key) (same_entry es j (suc p) c e (sym at) hc he) ∙ ck)
          | inr lt ↦ gt_ne es o key c.key (greater_after es o key (suc p) j e c he hc lt above) ck
        ]
  ]

  abbrev pub Found : Outcome (Option ℕ) → Type 0
  Found m = (x : Option ℕ) × (m ≡ ok x) × Finds es key tranc_id x

  -- The entry at `p` has the key and is hidden, and the loop goes on at the next one, `q`.
  next_visible-Found :
      (fuel p q : ℕ) (d : Entry)
      → tranc_id ≢ 0
      → q ≡ suc p
      → length es < q + fuel
      → get_elem? es p ≡ some d
      → d.key ≡ key
      → visible tranc_id d.tranc_id ≡ false
      → Found (next_visible fuel b key tranc_id q)
  unfolding next_visible
  next_visible-Found zero p q d nz qp f hd dk hidden =
      absurd (omega (arith, get_elem?-some es p d hd))
  next_visible-Found (suc fuel) p q d nz qp f hd dk hidden =
      elim (Bool-cases (ltb q (length b.offsets))) [
        | inr end ↦ (
          none,
          rw end refl,
          λ j c hc ck.
              hidden_before b es r o key tranc_id p d hd dk hidden j c
                (ground (arith, length-offsets b es r, get_elem?-some es j c hc)) hc ck,
        )
        | inl inside ↦
            let (e, he) =
              get_elem?-lt es q
                (omega (arith, length-offsets b es r, ltb→lt q (length b.offsets) inside)) in
            elim (Bool-cases (bytes_eq e.key key)) [
              | inr other ↦ (
                none,
                rw (inside, is_same_key-entry b es q e r he key, other) refl,
                λ j c hc ck. elim (behind_or_before p j) [
                  | inl lt ↦ hidden_before b es r o key tranc_id p d hd dk hidden j c lt hc ck
                  | inr ge ↦ absurd (
                      none_after p d e hd (rw (← qp) he) dk
                        (λ k. cc (other, (bytes_eq_iff e.key key).1 k)) j c ge hc ck)
                ],
              )
              | inl same ↦
                  let ek = (bytes_eq_iff e.key key).0 same in
                  elim (Bool-cases (leb e.tranc_id tranc_id)) [
                    | inl seen ↦ (
                      some q,
                      rw
                          (
                            inside,
                            is_same_key-entry b es q e r he key,
                            same,
                            id_of b es r o key tranc_id q e he,
                            seen,
                          )
                          refl,
                      record {
                        entry = e;
                        at = he;
                        key_eq = ek;
                        seen = ground arith;
                        first = λ j c l hc ck.
                            hidden_before b es r o key tranc_id p d hd dk hidden j c (omega arith)
                              hc ck;
                      },
                    )
                    | inr newer ↦
                        let (x, m, n) =
                          next_visible-Found fuel q (q + 1) e nz (omega arith) (omega arith) he ek
                            (ground arith) in
                        (
                          x,
                          rw
                              (
                                inside,
                                is_same_key-entry b es q e r he key,
                                same,
                                id_of b es r o key tranc_id q e he,
                                newer,
                              )
                              m,
                          n,
                        )
                  ]
            ]
      ]

  -- From any entry of the key, the position is adjusted to the newest visible one.
  pub adjust_idx_by_tranc_id-Found :
      (p : ℕ) (d : Entry)
      → get_elem? es p ≡ some d
      → d.key ≡ key
      → Found (adjust_idx_by_tranc_id b p tranc_id)
  unfolding adjust_idx_by_tranc_id
  adjust_idx_by_tranc_id-Found p d hd dk =
      rw (inside, offset_at-entry b es p d r hd, get_key_at-entry b es p d r hd, dk) adjusted
    where
      inside : leb (length b.offsets) p ≡ false
      inside = ground (arith, length-offsets b es r, get_elem?-some es p d hd)

      adjusted : Found (adjust_with b key p tranc_id)
      adjusted = elim (Bool-cases (tranc_id == 0)) [
        | inl z ↦
            let (i, m, n) = first_of_key-IsNewest b es r o key tranc_id p d (ground arith) hd dk in
            (some i, rw (z, m) refl, n)
        | inr nz ↦ elim (Bool-cases (leb d.tranc_id tranc_id)) [
          | inl seen ↦
              let (i, m, n) =
                newest_visible-IsNewest b es r o key tranc_id p d (ground arith) hd dk
                  (ground arith) in
              (some i, rw (nz, id_of b es r o key tranc_id p d hd, seen, m) refl, n)
          | inr newer ↦
              let (x, m, n) =
                next_visible-Found (suc (length b.offsets)) p (p + 1) d (ground arith) (omega arith)
                  (omega (arith, length-offsets b es r)) hd dk (ground arith) in
              (x, rw (nz, id_of b es r o key tranc_id p d hd, newer) m, n)
        ]
      ]
