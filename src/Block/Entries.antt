-- ===== src/Block/Entries.antt =====
-- The entries that a block holds, what the accessors read of them, and how `add_entry` adds one.
use native.Mathlib.Nat.{mod-eq_of_lt}
use mini_redis.Common.{
  ℕ, ◌+◌, ◌%◌, ◌^◌, ◌<◌, ◌≡◌, refl, ap, ◌∙◌, inl, inr, ◌⊎◌, List, [], ◌∷◌, ◌++◌, append-nil,
  append_assoc, Bool, true, false, not, ◌&&◌, arith,
}
use mini_redis.Common.{ok, Bool-cases, length, length-append, take_all, All, All-append}
use mini_redis.Common.Keys.{Bytes}
use mini_redis.Common.Bytes.{le_bytes, length-le_bytes, write_next}
use mini_redis.Block.{
  Block, Entry, empty_block, write_entry, add_entry, is_full, cur_size, is_empty,
}
use mini_redis.Common.{suc, ◌*◌, ltb, lt→ltb, ◌==◌}

-- The key and the value fit their 16-bit lengths, and the id the 16 bits that are read back.
pub record Fits (e : Entry) : Type 0 where
  pub key_fits : length e.key < 2 ^ 16
  pub value_fits : length e.value < 2 ^ 16
  pub id_fits : e.tranc_id < 2 ^ 64

unfoldable pub string_bytes : Bytes → Bytes
string_bytes s = le_bytes 2 (length s) ++ s

unfoldable pub entry_bytes : Entry → Bytes
entry_bytes e = (string_bytes e.key ++ string_bytes e.value) ++ le_bytes 8 e.tranc_id

unfoldable pub entries_bytes : List Entry → Bytes
entries_bytes [] = []
entries_bytes (e ∷ es) = entry_bytes e ++ entries_bytes es

-- The offsets of entries that begin at `n`.
unfoldable pub offsets_from : ℕ → List Entry → List ℕ
offsets_from n [] = []
offsets_from n (e ∷ es) = n ∷ offsets_from (n + length (entry_bytes e)) es

-- The block holds exactly these entries, in this order, and its offsets do not wrap.
pub record Represents (b : Block) (es : List Entry) : Type 0 where
  pub bytes_eq : b.bytes ≡ entries_bytes es
  pub offsets_eq : b.offsets ≡ offsets_from 0 es
  pub fit : All Fits es
  pub small : length b.bytes < 2 ^ 16

pub length-string_bytes : (s : Bytes) → length (string_bytes s) ≡ 2 + length s
unfolding string_bytes
length-string_bytes s =
    omega (arith, length-append (le_bytes 2 (length s)) s, length-le_bytes 2 (length s))

length-entry_bytes : (e : Entry) → length (entry_bytes e) ≡ 12 + length e.key + length e.value
unfolding entry_bytes
length-entry_bytes e = omega (
  arith,
  length-append (string_bytes e.key ++ string_bytes e.value) (le_bytes 8 e.tranc_id),
  length-append (string_bytes e.key) (string_bytes e.value),
  length-string_bytes e.key,
  length-string_bytes e.value,
  length-le_bytes 8 e.tranc_id,
)

write_entry-entry_bytes :
    (bytes : Bytes) (e : Entry)
    → Fits e
    → write_entry bytes e.key e.value e.tranc_id ≡ ok (bytes ++ entry_bytes e)
unfolding write_entry entry_bytes string_bytes
write_entry-entry_bytes bytes e h =
    let k = length e.key in
    let v = length e.value in
    let n = length bytes in
    let a₁ = bytes ++ le_bytes 2 k in
    let a₂ = a₁ ++ e.key in
    let a₃ = a₂ ++ le_bytes 2 v in
    let a₄ = a₃ ++ e.value in
    let l₁ = length-append bytes (le_bytes 2 k) in
    let l₂ = length-append a₁ e.key in
    let l₃ = length-append a₂ (le_bytes 2 v) in
    let l₄ = length-append a₃ e.value in
    let two = length-le_bytes 2 k in
    let two' = length-le_bytes 2 v in
    rw
      (
        mod-eq_of_lt h.key_fits,
        mod-eq_of_lt h.value_fits,
        take_all e.key,
        take_all e.value,
        write_next bytes (le_bytes 2 k) n (10 + k + v) (2 + k + 2 + v + 8) refl (omega arith),
        write_next a₁ e.key (n + 2) (10 + v) (10 + k + v) (omega arith) (omega arith),
        write_next a₂ (le_bytes 2 v) (n + 2 + k) (8 + v) (10 + v) (omega arith) (omega arith),
        write_next a₃ e.value (n + 2 + k + 2) 8 (8 + v) (omega arith) (omega arith),
        write_next a₄ (le_bytes 8 e.tranc_id) (n + 2 + k + 2 + v) 0 8 (omega arith)
            (omega (arith, length-le_bytes 8 e.tranc_id)),
      )
      (simp (append-nil, append_assoc))

entries_bytes-append :
    (es : List Entry) (e : Entry) → entries_bytes (es ++ e ∷ []) ≡ entries_bytes es ++ entry_bytes e
unfolding entries_bytes
entries_bytes-append [] e = append-nil (entry_bytes e)
entries_bytes-append (d ∷ es) e = rw (entries_bytes-append es e, append_assoc) refl

offsets_from-append :
    (n : ℕ) (es : List Entry) (e : Entry)
    → offsets_from n (es ++ e ∷ []) ≡ offsets_from n es ++ (n + length (entries_bytes es)) ∷ []
unfolding offsets_from entries_bytes
offsets_from-append n [] e = ap (λ t. t ∷ []) (omega arith)
offsets_from-append n (d ∷ es) e =
    ap (λ t. n ∷ t)
      (offsets_from-append (n + length (entry_bytes d)) es e
        ∙ ap (λ t. offsets_from (n + length (entry_bytes d)) es ++ t ∷ [])
            (omega (arith, length-append (entry_bytes d) (entries_bytes es))))

-- A new block holds no entry.
pub empty_block-Represents : (capacity : ℕ) → Represents (empty_block capacity) []
unfolding empty_block entries_bytes offsets_from
empty_block-Represents capacity = record {
  bytes_eq = refl;
  offsets_eq = refl;
  fit = tt;
  small = omega arith;
}

length-offsets_from : (n : ℕ) (es : List Entry) → length (offsets_from n es) ≡ length es
unfolding offsets_from
length-offsets_from n [] = refl
length-offsets_from n (e ∷ es) = ap suc (length-offsets_from (n + length (entry_bytes e)) es)

pub length-offsets : (b : Block) (es : List Entry) → Represents b es → length b.offsets ≡ length es
length-offsets b es r = rw r.offsets_eq (length-offsets_from 0 es)

-- The size of the encoding of the entries: data, two bytes for each offset, two for their number.
unfoldable pub encoded_size : List Entry → ℕ
encoded_size es = length (entries_bytes es) + 2 * length es + 2

-- The block has entries, and its encoding with one entry more would exceed its capacity.
abbrev pub HasNoRoom : Block → List Entry → Entry → Type 0
HasNoRoom b es e = (0 < length es) × (b.capacity < encoded_size (es ++ e ∷ []))

encoded_size-added :
    (b : Block) (es : List Entry) (e : Entry)
    → Represents b es
    → encoded_size (es ++ e ∷ []) ≡ cur_size b + length e.key + length e.value + 3 * 2 + 8
unfolding encoded_size cur_size
encoded_size-added b es e r = omega (
  arith,
  ap length (entries_bytes-append es e),
  length-append (entries_bytes es) (entry_bytes e),
  length-entry_bytes e,
  length-append es (e ∷ []),
  length-offsets b es r,
  ap length r.bytes_eq,
)

is_full-HasNoRoom :
    (b : Block) (es : List Entry) (e : Entry)
    → Represents b es
    → is_full b e.key e.value ≡ true
    → HasNoRoom b es e
unfolding is_full is_empty
is_full-HasNoRoom b es e r h =
    let size = encoded_size-added b es e r in
    let number = length-offsets b es r in
    (ground (arith, size, number), ground (arith, size, number))

HasNoRoom-is_full :
    (b : Block) (es : List Entry) (e : Entry)
    → Represents b es
    → HasNoRoom b es e
    → is_full b e.key e.value ≡ true
unfolding is_full is_empty
HasNoRoom-is_full b es e r (p, q) =
    let size = encoded_size-added b es e r in
    let number = length-offsets b es r in
    let above : ltb b.capacity (cur_size b + length e.key + length e.value + 3 * 2 + 8) ≡ true =
      lt→ltb b.capacity _ (omega (arith, size, q)) in
    let some_entry : (length b.offsets == 0) ≡ false = ground (arith, number, p) in
    rw (above, some_entry) refl

-- For an entry whose strings fit their length fields, and data that stay below 64 KiB: `add_entry`
-- answers false and leaves the block as it is exactly where the entry was not forced, the block has
-- entries, and the encoding of them with the new one would exceed the capacity; otherwise it succeeds,
-- and the block holds one entry more, at the end.
pub add_entry-Represents :
    (b : Block) (es : List Entry) (e : Entry) (force_write : Bool)
    → Represents b es
    → Fits e
    → length b.bytes + length (entry_bytes e) < 2 ^ 16
    → ((force_write ≡ false)
        × HasNoRoom b es e
        × (add_entry b e.key e.value e.tranc_id force_write ≡ ok (false, b)))
      ⊎ (((force_write ≡ true) ⊎ ¬ HasNoRoom b es e)
          × ((b' : Block) × (add_entry b e.key e.value e.tranc_id force_write ≡ ok (true, b'))
              × Represents b' (es ++ e ∷ [])
              × (b'.capacity ≡ b.capacity)))
unfolding add_entry
add_entry-Represents b es e force_write r f small =
    elim (Bool-cases (not force_write && is_full b e.key e.value)) [
      | inl full ↦ inl (ground arith, is_full-HasNoRoom b es e r (ground arith), rw full refl)
      | inr room ↦ inr (
        not_full force_write room,
        (added, rw (room, write_entry-entry_bytes b.bytes e f) refl, represents, refl),
      )
    ]
  where
    not_full :
        (force : Bool)
        → (not force && is_full b e.key e.value) ≡ false
        → (force ≡ true) ⊎ ¬ HasNoRoom b es e
    not_full true room = inl refl
    not_full false room = inr (λ h. absurd (cc (room, HasNoRoom-is_full b es e r h)))

    added : Block
    added = record b {
      bytes = b.bytes ++ entry_bytes e;
      offsets = b.offsets ++ (length b.bytes % 2 ^ 16) ∷ [];
    }

    represents : Represents added (es ++ e ∷ [])
    represents = record {
      bytes_eq = rw (entries_bytes-append es e, r.bytes_eq) refl;
      offsets_eq =
          rw (offsets_from-append 0 es e, r.offsets_eq, mod-eq_of_lt r.small)
            (ap (λ t. offsets_from 0 es ++ t ∷ []) (omega (arith, ap length r.bytes_eq)));
      fit = All-append Fits es (e ∷ []) r.fit (f, tt);
      small = omega (arith, length-append b.bytes (entry_bytes e));
    }
