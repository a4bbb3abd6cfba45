-- ===== src/Common/Tests.antt =====
-- Boolean tests on the native numbers, the conditional, and the result of code that may fail.
use Prim.Native.Nat.{ℕ, ◌≤◌, ◌<◌, compare, Ordering}
use mathlib.Core.Path.{◌≡◌, refl}
use mathlib.Core.Logic.{◌≢◌, ◌⊎◌, inl, inr}
use mathlib.Core.Bool.{Bool, true, false}
use mathlib.Core.Option.{Option, none, some}
use native.Mathlib.Omega.{arith}

abbrev pub ltb : ℕ → ℕ → Bool
ltb a b = elim (compare a b) [ Ordering.lt ↦ true | _ ↦ false ]

abbrev pub leb : ℕ → ℕ → Bool
leb a b = elim (compare a b) [ Ordering.gt ↦ false | _ ↦ true ]

infix 50 ◌==◌
abbrev pub ◌==◌ : ℕ → ℕ → Bool
a == b = elim (compare a b) [ Ordering.eq ↦ true | _ ↦ false ]

infix 1 if◌then◌else◌
abbrev pub if◌then◌else◌ {ℓ} : {A : Type ℓ} → Bool → A → A → A
if true then x else y = x
if false then x else y = y

pub ltb→lt : (a b : ℕ) → ltb a b ≡ true → a < b
ltb→lt a b h = ground arith

pub lt→ltb : (a b : ℕ) → a < b → ltb a b ≡ true
lt→ltb a b h = ground arith

pub le→ltb : (a b : ℕ) → b ≤ a → ltb a b ≡ false
le→ltb a b h = ground arith

-- To split on a computed value and keep the equation.
pub Bool-cases : (b : Bool) → (b ≡ true) ⊎ (b ≡ false)
Bool-cases true = inl refl
Bool-cases false = inr refl

pub Option-cases {ℓ} : {A : Type ℓ} (o : Option A) → (o ≡ none) ⊎ ((a : A) × (o ≡ some a))
Option-cases none = inl refl
Option-cases (some a) = inr (a, refl)

-- What a C++ call may do: return, throw a `std::runtime_error`, read or write outside its buffer
-- (undefined behaviour), or, in a model on fuel, not come to an end.
pub data Outcome {ℓ} (A : Type ℓ) : Type ℓ where
  ok : A → Outcome A
  throws : Outcome A
  fault : Outcome A
  unfinished : Outcome A

infixl 5 ◌>>=◌
abbrev pub ◌>>=◌ {ℓ κ} : {A : Type ℓ} {B : Type κ} → Outcome A → (A → Outcome B) → Outcome B
ok a >>= next = next a
throws >>= next = throws
fault >>= next = fault
unfinished >>= next = unfinished

pub Outcome-cases {ℓ} :
    {A : Type ℓ} (r : Outcome A)
    → ((a : A) × (r ≡ ok a)) ⊎ ((r ≡ throws) ⊎ (r ≡ fault) ⊎ (r ≡ unfinished))
Outcome-cases (ok a) = inl (a, refl)
Outcome-cases throws = inr (inl refl)
Outcome-cases fault = inr (inr (inl refl))
Outcome-cases unfinished = inr (inr (inr refl))

pub ok-inj {ℓ} : {A : Type ℓ} {a b : A} → Outcome.ok a ≡ ok b → a ≡ b
ok-inj h = cc

pub some-inj {ℓ} : {A : Type ℓ} {a b : A} → some a ≡ some b → a ≡ b
some-inj h = cc

-- A call that came to its result: so did the first half of it, and the second half behind it.
pub >>=-eq-ok {ℓ κ} :
    {A : Type ℓ} {B : Type κ} (call : Outcome A) (next : A → Outcome B) {result : B}
    → (call >>= next) ≡ ok result
    → (x : A) × (call ≡ ok x) × (next x ≡ ok result)
>>=-eq-ok (ok x) next h = (x, refl, h)
>>=-eq-ok throws next h = cc
>>=-eq-ok fault next h = cc
>>=-eq-ok unfinished next h = cc

-- A guard that did not throw.
pub guard-eq-ok {ℓ} :
    {A : Type ℓ} (c : Bool) (m : Outcome A) {a : A} → (if c then throws else m) ≡ ok a → m ≡ ok a
guard-eq-ok true m h = cc
guard-eq-ok false m h = h

pub >>=-ne-unfinished {ℓ κ} :
    {A : Type ℓ} {B : Type κ} (m : Outcome A) (f : A → Outcome B)
    → m ≢ unfinished
    → ((a : A) → f a ≢ unfinished)
    → (m >>= f) ≢ unfinished
>>=-ne-unfinished (ok a) f h k e = k a e
>>=-ne-unfinished throws f h k e = cc
>>=-ne-unfinished fault f h k e = cc
>>=-ne-unfinished unfinished f h k e = h refl

pub guard-ne-unfinished {ℓ} :
    {A : Type ℓ} (c : Bool) (m : Outcome A)
    → m ≢ unfinished
    → (if c then throws else m) ≢ unfinished
guard-ne-unfinished true m h e = cc
guard-ne-unfinished false m h e = h e

pub Ordering-cases : (o : Ordering) → (o ≡ Ordering.lt) ⊎ ((o ≡ Ordering.eq) ⊎ (o ≡ Ordering.gt))
Ordering-cases Ordering.lt = inl refl
Ordering-cases Ordering.eq = inr (inl refl)
Ordering-cases Ordering.gt = inr (inr refl)
