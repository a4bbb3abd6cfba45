-- ===== src/Common/Ints.antt =====
-- The integers of an `int`, over the native numbers: `negsuc n` is -(n + 1).
use Prim.Native.Nat.{ℕ}
use mathlib.Core.Path.{◌≡◌, refl, ap}
use mathlib.Core.Bool.{Bool, true, false, ◌&&◌}
use native.Mathlib.Omega.{arith}
use mini_redis.Common.Tests.{◌==◌}

pub data ℤ : Type 0 where
  pos : ℕ → ℤ
  negsuc : ℕ → ℤ

unfoldable pub int_eq : ℤ → ℤ → Bool
int_eq (pos m) (pos n) = m == n
int_eq (negsuc m) (negsuc n) = m == n
int_eq (pos m) (negsuc n) = false
int_eq (negsuc m) (pos n) = false

int_eq_refl : (a : ℤ) → int_eq a a ≡ true
unfolding int_eq
int_eq_refl (pos m) = ground arith
int_eq_refl (negsuc m) = ground arith

int_eq→eq : (a b : ℤ) → int_eq a b ≡ true → a ≡ b
unfolding int_eq
int_eq→eq (pos m) (pos n) h = ap pos (ground arith)
int_eq→eq (negsuc m) (negsuc n) h = ap negsuc (ground arith)
int_eq→eq (pos m) (negsuc n) h = absurd (cc h)
int_eq→eq (negsuc m) (pos n) h = absurd (cc h)

-- Two keys of an `std::pair<int, int>`.
pub same_key_eq : (a b c d : ℤ) → ((int_eq a c && int_eq b d) ≡ true) → (a ≡ c) × (b ≡ d)
same_key_eq a b c d h = (int_eq→eq a c (ground arith), int_eq→eq b d (ground arith))

pub same_key_refl : (a b : ℤ) → (int_eq a a && int_eq b b) ≡ true
same_key_refl a b = rw (int_eq_refl a, int_eq_refl b) refl

pub same_key_true : (a b c d : ℤ) → c ≡ a → d ≡ b → (int_eq a c && int_eq b d) ≡ true
same_key_true a b c d p q = rw (p, q) (same_key_refl a b)
