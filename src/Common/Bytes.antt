-- ===== src/Common/Bytes.antt =====
-- Little-endian integers in byte buffers, as `memcpy` from and to `uintN_t` reads and writes them.
use Prim.Native.Nat.{ℕ, zero, suc, ◌+◌, ◌*◌, ◌/◌, ◌%◌, ◌^◌, ◌<◌}
use mathlib.Core.Path.{◌≡◌, refl, ap, ◌∙◌}
use mathlib.Core.Logic.{◌⊎◌, inl, inr}
use mathlib.Core.List.{append-nil, [], ◌∷◌, ◌++◌, append_assoc}
use native.Mathlib.Nat.{pow-suc, zero-add, suc-add}
use native.Mathlib.Omega.{arith}
use mini_redis.Common.Tests.{Outcome, ok, fault, ◌>>=◌, Outcome-cases}
use mini_redis.Common.Lists.{length, replicate, length-replicate}
use mini_redis.Common.Keys.{Bytes}

-- The `n` bytes of an unsigned integer; what does not fit is cut off, as by a cast.
unfoldable pub le_bytes : ℕ → ℕ → Bytes
le_bytes zero x = []
le_bytes (suc n) x = (x % 256) ∷ le_bytes n (x / 256)

unfoldable pub le_value : Bytes → ℕ
le_value [] = 0
le_value (b ∷ bs) = b + 256 * le_value bs

pub length-le_bytes : (n x : ℕ) → length (le_bytes n x) ≡ n
unfolding le_bytes
length-le_bytes zero x = refl
length-le_bytes (suc n) x = ap suc (length-le_bytes n (x / 256))

pub le_value-le_bytes : (n x : ℕ) → x < 256 ^ n → le_value (le_bytes n x) ≡ x
unfolding le_value le_bytes
le_value-le_bytes zero x h = omega arith
le_value-le_bytes (suc n) x h =
    omega (arith, pow-suc 256 n, le_value-le_bytes n (x / 256) (omega (arith, pow-suc 256 n)))

-- Reads `n` bytes from the front of what is left of a buffer. Past its end the read is undefined.
unfoldable pub read_bytes : ℕ → Bytes → Outcome (Bytes × Bytes)
read_bytes zero rest = ok ([], rest)
read_bytes (suc n) [] = fault
read_bytes (suc n) (b ∷ bs) = read_bytes n bs >>= λ (front, rest). ok (b ∷ front, rest)

-- memcpy(&x, ptr, n); ptr += n;
unfoldable pub read_le : ℕ → Bytes → Outcome (ℕ × Bytes)
unfolding read_bytes le_value
read_le n rest = read_bytes n rest >>= λ (bs, rest'). ok (le_value bs, rest')

pub read_bytes-append :
    (front rest : Bytes) → read_bytes (length front) (front ++ rest) ≡ ok (front, rest)
unfolding read_bytes
read_bytes-append [] rest = refl
read_bytes-append (b ∷ bs) rest = rw (read_bytes-append bs rest)

pub read_bytes_front :
    (n : ℕ) (front rest : Bytes)
    → length front ≡ n
    → read_bytes n (front ++ rest) ≡ ok (front, rest)
read_bytes_front n front rest h = rw (← h) (read_bytes-append front rest)

-- A read takes its bytes off the front of what is left.
pub length-read_bytes :
    (n : ℕ) (bs front rest : Bytes)
    → read_bytes n bs ≡ ok (front, rest)
    → (length bs ≡ n + length rest) × (length front ≡ n)
unfolding read_bytes
length-read_bytes zero bs front rest h = ground (arith, h)
length-read_bytes (suc n) [] front rest h = cc
length-read_bytes (suc n) (b ∷ bs) front rest h = elim (Outcome-cases (read_bytes n bs)) [
  | inl ((f, r), e) ↦ ground (arith, length-read_bytes n bs f r e)
  | inr ne ↦ ground (arith, ne)
]

pub length-read_le :
    (n : ℕ) (bs : Bytes) (x : ℕ) (rest : Bytes)
    → read_le n bs ≡ ok (x, rest)
    → length bs ≡ n + length rest
unfolding read_le
length-read_le n bs x rest h = elim (Outcome-cases (read_bytes n bs)) [
  | inl ((f, r), e) ↦ ground (arith, length-read_bytes n bs f r e)
  | inr ne ↦ ground (arith, ne)
]

pub read_le-append :
    (n x : ℕ) (rest : Bytes) → x < 256 ^ n → read_le n (le_bytes n x ++ rest) ≡ ok (x, rest)
unfolding read_le
read_le-append n x rest h =
    rw (read_bytes_front n (le_bytes n x) rest (length-le_bytes n x), le_value-le_bytes n x h)

-- memcpy(buf + off, bs, |bs|): outside the buffer the write is undefined.
unfoldable pub write_bytes : Bytes → ℕ → Bytes → Outcome Bytes
write_bytes buf off [] = ok buf
write_bytes [] off (b ∷ bs) = fault
write_bytes (x ∷ xs) zero (b ∷ bs) = write_bytes xs zero bs >>= λ r. ok (b ∷ r)
write_bytes (x ∷ xs) (suc off) (b ∷ bs) = write_bytes xs off (b ∷ bs) >>= λ r. ok (x ∷ r)

pub write_bytes_front :
    (mid post bs : Bytes)
    → length mid ≡ length bs
    → write_bytes (mid ++ post) 0 bs ≡ ok (bs ++ post)
unfolding write_bytes
write_bytes_front [] post [] h = refl
write_bytes_front (m ∷ mid) post [] h = absurd (omega arith)
write_bytes_front [] post (b ∷ bs) h = absurd (omega arith)
write_bytes_front (m ∷ mid) post (b ∷ bs) h = rw (write_bytes_front mid post bs (omega arith))

pub write_bytes-append :
    (pre mid post bs : Bytes)
    → length mid ≡ length bs
    → write_bytes (pre ++ (mid ++ post)) (length pre) bs ≡ ok (pre ++ (bs ++ post))
unfolding write_bytes
write_bytes-append [] mid post bs h = write_bytes_front mid post bs h
write_bytes-append (x ∷ pre) [] post [] h = refl
write_bytes-append (x ∷ pre) (m ∷ mid) post [] h = absurd (omega arith)
write_bytes-append (x ∷ pre) mid post (b ∷ bs) h = rw (write_bytes-append pre mid post (b ∷ bs) h)

pub write_bytes_overflow :
    (buf : Bytes) (off : ℕ) (bs : Bytes)
    → 0 < length bs
    → length buf < off + length bs
    → write_bytes buf off bs ≡ fault
unfolding write_bytes
write_bytes_overflow buf off [] p h = elim p [ ]
write_bytes_overflow [] off (b ∷ bs) p h = refl
write_bytes_overflow (x ∷ xs) zero (b ∷ []) p h = absurd (omega arith)
write_bytes_overflow (x ∷ xs) zero (b ∷ c ∷ bs) p h =
    rw (write_bytes_overflow xs zero (c ∷ bs) (omega arith) (omega arith))
write_bytes_overflow (x ∷ xs) (suc off) (b ∷ bs) p h =
    rw (write_bytes_overflow xs off (b ∷ bs) p (omega arith))

pub replicate-add {ℓ} :
    {A : Type ℓ} (m n : ℕ) (a : A) → replicate (m + n) a ≡ replicate m a ++ replicate n a
replicate-add zero n a = rw zero-add
replicate-add (suc m) n a = rw suc-add (ap (λ t. a ∷ t) (replicate-add m n a))

-- The next field of a zeroed buffer is written behind the fields that are there.
pub write_next :
    (done bs : Bytes) (off m n : ℕ)
    → length done ≡ off
    → n ≡ length bs + m
    → write_bytes (done ++ replicate n 0) off bs ≡ ok ((done ++ bs) ++ replicate m 0)
write_next done bs off m n h e =
    rw (e, ← h, replicate-add (length bs) m zero)
      (write_bytes-append done (replicate (length bs) 0) (replicate m 0) bs
          (length-replicate (length bs) 0)
        ∙ rw append_assoc)

pub write_bytes-cases :
    (buf : Bytes) (off : ℕ) (bs : Bytes)
    → (write_bytes buf off bs ≡ fault)
      ⊎ ((b : Bytes) × (write_bytes buf off bs ≡ ok b) × (length b ≡ length buf))
unfolding write_bytes
write_bytes-cases buf off [] = inr (buf, refl, refl)
write_bytes-cases [] off (b ∷ bs) = inl refl
write_bytes-cases (x ∷ xs) zero (b ∷ bs) = elim (write_bytes-cases xs zero bs) [
  | inl e ↦ inl (rw e)
  | inr (r, e, h) ↦ inr (b ∷ r, rw e, ap suc h)
]
write_bytes-cases (x ∷ xs) (suc off) (b ∷ bs) = elim (write_bytes-cases xs off (b ∷ bs)) [
  | inl e ↦ inl (rw e)
  | inr (r, e, h) ↦ inr (x ∷ r, rw e, ap suc h)
]

-- A write keeps the length of the buffer, so a chain of writes whose end faults faults.
pub write_bytes-bind_fault {ℓ} :
    {B : Type ℓ} (buf : Bytes) (off : ℕ) (bs : Bytes) (f : Bytes → Outcome B)
    → ((b : Bytes) → length b ≡ length buf → f b ≡ fault)
    → (write_bytes buf off bs >>= f) ≡ fault
write_bytes-bind_fault buf off bs f h = elim (write_bytes-cases buf off bs) [
  | inl e ↦ rw e
  | inr (b, e, l) ↦ rw e (h b l)
]

pub read_le_end : (n x : ℕ) → x < 256 ^ n → read_le n (le_bytes n x) ≡ ok (x, [])
read_le_end n x h = rw (append-nil (le_bytes n x)) at (read_le-append n x [] h)
