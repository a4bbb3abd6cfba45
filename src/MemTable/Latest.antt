-- ===== src/MemTable/Latest.antt =====
-- The version that a lookup of all versions finds after a put.
use mini_redis.Common.{ℕ, ◌≤◌, ◌≡◌, refl, inl, inr, List, [], ◌∷◌, arith}
use mini_redis.Common.{Bool-cases, ltb, ◌==◌, some}
use mini_redis.Common.Keys.{Bytes, bytes_lt, bytes_eq, bytes_eq_refl}
use mini_redis.MemTable.Table.{Entry, first_visible, put_version}

-- What no later transaction has written is answered as the latest put it.
pub first_visible-put_latest :
    (key v : Bytes) (id : ℕ) (es : List Entry)
    → ((k w : Bytes) (i : ℕ) → first_visible key 0 es ≡ some (k, w, i) → i ≤ id)
    → first_visible key 0 (put_version (key, v, id) es) ≡ some (key, v, id)
unfolding first_visible put_version
first_visible-put_latest key v id [] h = rw (bytes_eq_refl key) refl
first_visible-put_latest key v id ((k, w, i) ∷ es) h =
    let here = bytes_eq_refl key in
    elim (Bool-cases (bytes_eq k key)) [
      | inl s ↦ let below = h k w i (rw s refl) in ground arith
      | inr d ↦
          let ih = first_visible-put_latest key v id es (λ k w i q. h k w i (rw d q)) in
          ground arith
    ]

pub first_visible-put_at_least :
    (key v : Bytes) (id : ℕ) (es : List Entry)
    → (k w : Bytes) × (j : ℕ) × (first_visible key 0 (put_version (key, v, id) es) ≡ some (k, w, j))
      × (id ≤ j)
unfolding first_visible put_version
first_visible-put_at_least key v id [] = (key, v, id, rw (bytes_eq_refl key) refl, omega arith)
first_visible-put_at_least key v id ((k, w, i) ∷ es) =
    let here = bytes_eq_refl key in
    let (l, u, j, q, m) = first_visible-put_at_least key v id es in
    elim (Bool-cases (bytes_eq k key)) [
      | inr d ↦ elim (Bool-cases (bytes_lt k key)) [
        | inl s ↦ (l, u, j, rw (d, s, d) q, m)
        | inr s ↦ (key, v, id, rw (d, s, here) refl, omega arith)
      ]
      | inl s ↦ elim (Bool-cases (ltb id i)) [
        | inl t ↦ (k, w, i, rw (s, t, s) refl, ground arith)
        | inr t ↦ elim (Bool-cases (i == id)) [
          | inl p ↦ (key, v, id, rw (s, t, p, here) refl, omega arith)
          | inr p ↦ (key, v, id, rw (s, t, p, here) refl, omega arith)
        ]
      ]
    ]
