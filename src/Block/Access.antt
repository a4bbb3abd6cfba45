-- ===== src/Block/Access.antt =====
-- What the accessors read from a block that holds known entries.
use mini_redis.Block.Entries.{length-offsets}
use mathlib.Core.Path.{subst}
use mini_redis.Common.{
  ℕ, zero, suc, ◌+◌, ◌%◌, ◌^◌, ◌<◌, ◌≡◌, refl, ap, ◌∙◌, List, [], ◌∷◌, ◌++◌, append_assoc, false,
  arith,
}
use mini_redis.Common.{
  ok, some, leb, le→ltb, length, length-append, get_elem?, get_elem?-some, drop-append, All,
}
use mini_redis.Common.Keys.{Bytes, compare_bytes, bytes_eq}
use mini_redis.Common.Bytes.{read_bytes-append, read_le-append}
use mini_redis.Block.{
  Block, Entry, at_offset, read_string, skip_string, offset_at, get_key_at, get_value_at,
  get_tranc_id_at, compare_key_at, is_same_key,
}
use mini_redis.Block.Entries.{
  Represents, Fits, string_bytes, entry_bytes, entries_bytes, offsets_from,
}
use mini_redis.Block.Search.{tranc_id_of}

All-get {ℓ κ} :
    {A : Type ℓ} (P : A → Type κ) (xs : List A) (i : ℕ) (a : A)
    → All P xs
    → get_elem? xs i ≡ some a
    → P a
All-get P [] i a h e = absurd (cc)
All-get P (x ∷ xs) zero a (h, hs) e = let e' : x ≡ a = cc in subst P e' h
All-get P (x ∷ xs) (suc i) a (h, hs) e = All-get P xs i a hs e

-- Where an entry stands.
pub record Place (es : List Entry) (n i : ℕ) (e : Entry) : Type 0 where
  pub before : Bytes
  pub after : Bytes
  pub bytes_eq : entries_bytes es ≡ before ++ (entry_bytes e ++ after)
  pub offset_eq : get_elem? (offsets_from n es) i ≡ some (n + length before)

pub place : (es : List Entry) (n i : ℕ) (e : Entry) → get_elem? es i ≡ some e → Place es n i e
unfolding entries_bytes offsets_from
place [] n i e h = absurd (cc)
place (d ∷ es) n zero e h = record {
  before = [];
  after = entries_bytes es;
  bytes_eq = let h' : d ≡ e = cc in rw h' refl;
  offset_eq = ap some (omega arith);
}
place (d ∷ es) n (suc i) e h =
    let p = place es (n + length (entry_bytes d)) i e h in
    record {
      before = entry_bytes d ++ p.before;
      after = p.after;
      bytes_eq = rw (p.bytes_eq, append_assoc) refl;
      offset_eq = p.offset_eq ∙ ap some (omega (arith, length-append (entry_bytes d) p.before));
    }

read_string-string_bytes :
    (s rest : Bytes) → length s < 2 ^ 16 → read_string (string_bytes s ++ rest) ≡ ok (s, rest)
unfolding read_string string_bytes
read_string-string_bytes s rest h =
    rw (append_assoc, read_le-append 2 (length s) (s ++ rest) h, read_bytes-append s rest) refl

at_offset-append : (front back : Bytes) → at_offset (front ++ back) (length front) ≡ ok back
unfolding at_offset
at_offset-append front back =
    rw
      (
        le→ltb (length (front ++ back)) (length front) (omega (arith, length-append front back)),
        drop-append,
      )
      refl

skip_string-string_bytes :
    (s rest : Bytes) → length s < 2 ^ 16 → skip_string (string_bytes s ++ rest) ≡ ok rest
unfolding skip_string string_bytes
skip_string-string_bytes s rest h =
    rw (append_assoc, read_le-append 2 (length s) (s ++ rest) h, at_offset-append s rest) refl

module _ (b : Block) (es : List Entry) (i : ℕ) (e : Entry) (r : Represents b es)
    (h : get_elem? es i ≡ some e) where
  fits : Fits e
  fits = All-get Fits es i e r.fit h

  -- The offset of the entry, and the entry's bytes behind it.
  abbrev pub offset : ℕ
  offset = length (place es 0 i e h).before

  pub offset_at-entry : offset_at b i ≡ ok offset
  unfolding offset_at
  offset_at-entry = rw (stands, offset_at) refl
    where
      stands : get_elem? b.offsets i ≡ some offset
      stands = rw r.offsets_eq ((place es 0 i e h).offset_eq ∙ ap some (omega arith))

  at_entry : at_offset b.bytes offset ≡ ok (entry_bytes e ++ (place es 0 i e h).after)
  at_entry =
      rw (r.bytes_eq, (place es 0 i e h).bytes_eq)
        (at_offset-append (place es 0 i e h).before (entry_bytes e ++ (place es 0 i e h).after))

  pub get_key_at-entry : get_key_at b offset ≡ ok e.key
  unfolding get_key_at entry_bytes
  get_key_at-entry =
      rw (at_entry, append_assoc, append_assoc, read_string-string_bytes e.key _ fits.key_fits) refl

  pub get_value_at-entry : get_value_at b offset ≡ ok e.value
  unfolding get_value_at entry_bytes
  get_value_at-entry =
      rw
        (
          at_entry,
          append_assoc,
          append_assoc,
          skip_string-string_bytes e.key _ fits.key_fits,
          read_string-string_bytes e.value _ fits.value_fits,
        )
        refl

  -- Only the lowest 16 bits of the id come back.
  pub get_tranc_id_at-entry : get_tranc_id_at b offset ≡ ok (e.tranc_id % 2 ^ 16)
  unfolding get_tranc_id_at entry_bytes
  get_tranc_id_at-entry =
      rw
        (
          at_entry,
          append_assoc,
          append_assoc,
          skip_string-string_bytes e.key _ fits.key_fits,
          skip_string-string_bytes e.value _ fits.value_fits,
          read_le-append 8 e.tranc_id _ fits.id_fits,
        )
        refl

  pub tranc_id_of-entry : tranc_id_of b i ≡ ok (e.tranc_id % 2 ^ 16)
  unfolding tranc_id_of
  tranc_id_of-entry = rw (offset_at-entry, get_tranc_id_at-entry) refl

  pub compare_key_at-entry :
      (key : Bytes) → compare_key_at b offset key ≡ ok (compare_bytes e.key key)
  unfolding compare_key_at
  compare_key_at-entry key = rw get_key_at-entry refl

  pub is_same_key-entry : (target : Bytes) → is_same_key b i target ≡ ok (bytes_eq e.key target)
  unfolding is_same_key
  is_same_key-entry target = rw (le→leb, offset_at-entry, get_key_at-entry) refl
    where
      le→leb : leb (length b.offsets) i ≡ false
      le→leb = ground (arith, length-offsets b es r, get_elem?-some es i e h)
