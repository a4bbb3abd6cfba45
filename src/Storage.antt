-- ===== src/Storage.antt =====
-- Files as byte lists (src/utils/files.cpp over src/utils/std_file.cpp).
use mini_redis.Common.{
  ℕ, ◌+◌, ◌^◌, ◌<◌, ◌≡◌, refl, arith, ◌++◌, ok, throws, Outcome, ltb, if◌then◌else◌, length, take,
  drop, length-append, drop-append, take_front, le→ltb,
}
use mini_redis.Common.Keys.{Bytes}
use mini_redis.Common.Bytes.{le_value, le_bytes, length-le_bytes, le_value-le_bytes}

-- `read_to_slice`: a range that does not lie in the file throws.
unfoldable pub read_to_slice : Bytes → ℕ → ℕ → Outcome Bytes
read_to_slice file offset len =
    if ltb (length file) (offset + len) then throws else ok (take len (drop offset file))

unfoldable pub read_uint16 : Bytes → ℕ → Outcome ℕ
read_uint16 file offset =
    if ltb (length file) (offset + 2) then throws else ok (le_value (take 2 (drop offset file)))

unfoldable pub read_uint64 : Bytes → ℕ → Outcome ℕ
read_uint64 file offset =
    if ltb (length file) (offset + 8) then throws else ok (le_value (take 8 (drop offset file)))

-- A write at the end of the file.
unfoldable pub append : Bytes → Bytes → Bytes
append file bs = file ++ bs

-- Reading back an integer that stands in the file.
pub read_uint16_lem :
    (front back : Bytes) (x offset : ℕ)
    → length front ≡ offset
    → x < 2 ^ 16
    → read_uint16 (front ++ (le_bytes 2 x ++ back)) offset ≡ ok x
unfolding read_uint16
read_uint16_lem front back x offset h f =
    rw
      (
        ← h,
        drop-append,
        take_front 2 (le_bytes 2 x) back (length-le_bytes 2 x),
        le_value-le_bytes 2 x f,
        le→ltb (length (front ++ (le_bytes 2 x ++ back))) (length front + 2) (
            omega (
              arith,
              length-append front (le_bytes 2 x ++ back),
              length-append (le_bytes 2 x) back,
              length-le_bytes 2 x,
            )),
      )
      refl

pub read_uint64_lem :
    (front back : Bytes) (x offset : ℕ)
    → length front ≡ offset
    → x < 2 ^ 64
    → read_uint64 (front ++ (le_bytes 8 x ++ back)) offset ≡ ok x
unfolding read_uint64
read_uint64_lem front back x offset h f =
    rw
      (
        ← h,
        drop-append,
        take_front 8 (le_bytes 8 x) back (length-le_bytes 8 x),
        le_value-le_bytes 8 x f,
        le→ltb (length (front ++ (le_bytes 8 x ++ back))) (length front + 8) (
            omega (
              arith,
              length-append front (le_bytes 8 x ++ back),
              length-append (le_bytes 8 x) back,
              length-le_bytes 8 x,
            )),
      )
      refl
