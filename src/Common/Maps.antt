-- ===== src/Common/Maps.antt =====
-- `std::unordered_map<std::string, V>` as an association list in the order of insertion.
use mathlib.Core.Path.{◌≡◌, refl}
use mathlib.Core.Logic.{◌≢◌, inl, inr}
use mathlib.Core.Bool.{false}
use mathlib.Core.Option.{Option, none, some}
use mathlib.Core.List.{List, [], ◌∷◌}
use mini_redis.Common.Tests.{if◌then◌else◌, Bool-cases}
use mini_redis.Common.Keys.{Bytes, bytes_eq, bytes_eq_iff, bytes_eq_refl}

abbrev pub StringMap {ℓ} : Type ℓ → Type ℓ
StringMap V = List (Bytes × V)

-- `map.find(key)`
unfoldable pub find {ℓ} : {V : Type ℓ} → Bytes → StringMap V → Option V
find key [] = none
find key ((k, v) ∷ m) = let rest = find key m in if bytes_eq k key then some v else rest

-- `map[key] = value`
unfoldable pub assign {ℓ} : {V : Type ℓ} → Bytes → V → StringMap V → StringMap V
assign key value [] = (key, value) ∷ []
assign key value ((k, v) ∷ m) =
    let rest = assign key value m in if bytes_eq k key then (k, value) ∷ m else (k, v) ∷ rest

pub bytes_ne : (a b : Bytes) → a ≢ b → bytes_eq a b ≡ false
bytes_ne a b h = elim (Bool-cases (bytes_eq a b)) [
  | inl e ↦ absurd (h ((bytes_eq_iff a b).0 e))
  | inr e ↦ e
]

pub find-assign_same {ℓ} :
    {V : Type ℓ} (key : Bytes) (value : V) (m : StringMap V)
    → find key (assign key value m) ≡ some value
unfolding find assign
find-assign_same key value [] = rw (bytes_eq_refl key) refl
find-assign_same key value ((k, v) ∷ m) = elim (Bool-cases (bytes_eq k key)) [
  | inl e ↦ rw (e, e) refl
  | inr e ↦ rw (e, e) (find-assign_same key value m)
]

pub find-assign_other {ℓ} :
    {V : Type ℓ} (key other : Bytes) (value : V) (m : StringMap V)
    → bytes_eq key other ≡ false
    → find other (assign key value m) ≡ find other m
unfolding find assign
find-assign_other key other value [] h = rw h refl
find-assign_other key other value ((k, v) ∷ m) h = elim (Bool-cases (bytes_eq k key)) [
  | inl e ↦ rw (e, (bytes_eq_iff k key).0 e, h) refl
  | inr e ↦ rw (e, find-assign_other key other value m h) refl
]
