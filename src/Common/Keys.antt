-- ===== src/Common/Keys.antt =====
-- `std::string` as a list of bytes, with the lexicographic order of `std::string::compare`.
use Prim.Native.Nat.{ℕ, compare, Ordering}
use mathlib.Core.Path.{◌≡◌, refl}
use mathlib.Core.Logic.{◌↔◌}
use mathlib.Core.Bool.{Bool, true, false}
use mathlib.Core.List.{List, [], ◌∷◌}
use native.Mathlib.Omega.{arith}

abbrev pub Bytes : Type 0
Bytes = List ℕ

-- The sign of `a.compare(b)`.
unfoldable pub compare_bytes : Bytes → Bytes → Ordering
compare_bytes [] [] = Ordering.eq
compare_bytes [] (y ∷ ys) = Ordering.lt
compare_bytes (x ∷ xs) [] = Ordering.gt
compare_bytes (x ∷ xs) (y ∷ ys) =
    let rest = compare_bytes xs ys in
    elim (compare x y) [
      | Ordering.lt ↦ Ordering.lt
      | Ordering.eq ↦ rest
      | Ordering.gt ↦ Ordering.gt
    ]

unfoldable pub bytes_lt : Bytes → Bytes → Bool
bytes_lt a b = elim (compare_bytes a b) [ Ordering.lt ↦ true | _ ↦ false ]

unfoldable pub bytes_eq : Bytes → Bytes → Bool
bytes_eq a b = elim (compare_bytes a b) [ Ordering.eq ↦ true | _ ↦ false ]

pub compare_bytes_refl : (a : Bytes) → compare_bytes a a ≡ Ordering.eq
unfolding compare_bytes
compare_bytes_refl [] = refl
compare_bytes_refl (x ∷ xs) = ground (arith, compare_bytes_refl xs)

pub eq_of_compare_bytes : (a b : Bytes) → compare_bytes a b ≡ Ordering.eq → a ≡ b
unfolding compare_bytes
eq_of_compare_bytes [] [] h = refl
eq_of_compare_bytes [] (y ∷ ys) h = cc
eq_of_compare_bytes (x ∷ xs) [] h = cc
eq_of_compare_bytes (x ∷ xs) (y ∷ ys) h = ground (arith, eq_of_compare_bytes xs ys)

pub compare_bytes-gt :
    (a b : Bytes) → (compare_bytes a b ≡ Ordering.gt) ↔ (compare_bytes b a ≡ Ordering.lt)
unfolding compare_bytes
compare_bytes-gt [] [] = ground arith
compare_bytes-gt [] (y ∷ ys) = ground arith
compare_bytes-gt (x ∷ xs) [] = ground arith
compare_bytes-gt (x ∷ xs) (y ∷ ys) = ground (arith, compare_bytes-gt xs ys)

pub compare_bytes_trans :
    (a b c : Bytes)
    → compare_bytes a b ≡ Ordering.lt
    → compare_bytes b c ≡ Ordering.lt
    → compare_bytes a c ≡ Ordering.lt
unfolding compare_bytes
compare_bytes_trans [] (y ∷ ys) (z ∷ zs) p q = refl
compare_bytes_trans (x ∷ xs) (y ∷ ys) (z ∷ zs) p q =
    ground
      (arith, compare_bytes_trans xs ys zs, eq_of_compare_bytes xs ys, eq_of_compare_bytes ys zs)
compare_bytes_trans [] [] c p q = cc
compare_bytes_trans (x ∷ xs) [] c p q = cc
compare_bytes_trans [] (y ∷ ys) [] p q = cc
compare_bytes_trans (x ∷ xs) (y ∷ ys) [] p q = cc

pub bytes_eq_iff : (a b : Bytes) → (bytes_eq a b ≡ true) ↔ (a ≡ b)
unfolding bytes_eq
bytes_eq_iff a b =
    (λ h. eq_of_compare_bytes a b (ground arith), λ e. rw e (ground (arith, compare_bytes_refl b)))

pub bytes_eq_refl : (a : Bytes) → bytes_eq a a ≡ true
bytes_eq_refl a = (bytes_eq_iff a a).1 refl
