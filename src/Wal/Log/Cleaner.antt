-- ===== src/Wal/Log/Cleaner.antt =====
-- The cleaner's scan of a file (`cleanWALFile`).
use mini_redis.Common.{
  ℕ, zero, suc, ◌≤◌, ◌<◌, ◌≡◌, refl, ◌∙◌, ◌⊎◌, inl, inr, List, [], ◌∷◌, ◌++◌, append_assoc, true,
  arith,
}
use mini_redis.Common.{
  ok, unfinished, ltb, lt→ltb, ltb→lt, le→ltb, Bool-cases, if◌then◌else◌, length, length-append,
}
use mini_redis.Common.Keys.{Bytes}
use mini_redis.Common.Bytes.{le_bytes, length-le_bytes}
use mini_redis.Storage.{read_uint16_lem, read_uint64_lem, read_uint16, read_uint64}
use mini_redis.Wal.Record.{Record, type_byte}
use mini_redis.Wal.Record.Layout.{
  IsStorable, layout, header, payload, length-layout, record_len-bounds,
}
use mini_redis.Wal.Log.{LogFile, scan_loop, clean_files}

-- One round on a file whose first record is `r`: the offset stays 0.
scan_loop-layout :
    (fuel max_finished : ℕ) (r : Record) (rest : Bytes)
    → IsStorable r
    → scan_loop (suc fuel) max_finished (layout r ++ rest) 0 ≡ (
        if ltb max_finished r.tranc_id
        then ok true
        else scan_loop fuel max_finished (layout r ++ rest) 0)
unfolding scan_loop
scan_loop-layout fuel k r rest s = rw (long, size, id) (ground arith)
  where
    front : Bytes
    front = le_bytes 2 r.record_len

    file :
        layout r ++ rest
        ≡ front
          ++ (le_bytes 8 r.tranc_id
              ++ (le_bytes 1 (type_byte r.operation_type)
                  ++ (payload r.operation_type r.key r.value ++ rest)))
    file = unfold layout header in rw (append_assoc, append_assoc, append_assoc) refl

    long : ltb 2 (length (layout r ++ rest)) ≡ true
    long =
        lt→ltb 2 _
          (omega (arith, length-append (layout r) rest, length-layout r s, record_len-bounds r s))

    size : read_uint16 (layout r ++ rest) 0 ≡ ok r.record_len
    size = rw file (read_uint16_lem [] _ r.record_len 0 refl (record_len-bounds r s).1)

    id : read_uint64 (layout r ++ rest) 2 ≡ ok r.tranc_id
    id = rw file (read_uint64_lem front _ r.tranc_id 2 (length-le_bytes 2 r.record_len) s.id_fits)

-- The scan of a file whose first record belongs to a finished transaction does not come to an end,
-- whatever the fuel.
pub scan_loop-finished :
    (fuel max_finished : ℕ) (r : Record) (rest : Bytes)
    → IsStorable r
    → r.tranc_id ≤ max_finished
    → scan_loop fuel max_finished (layout r ++ rest) 0 ≡ unfinished
scan_loop-finished zero k r rest s h = unfold scan_loop in refl
scan_loop-finished (suc fuel) k r rest s h =
    scan_loop-layout fuel k r rest s
    ∙ rw (le→ltb k r.tranc_id h) (scan_loop-finished fuel k r rest s h)

pub scan_loop-unfinished :
    (fuel max_finished : ℕ) (r : Record) (rest : Bytes)
    → IsStorable r
    → max_finished < r.tranc_id
    → scan_loop (suc fuel) max_finished (layout r ++ rest) 0 ≡ ok true
scan_loop-unfinished fuel k r rest s h =
    scan_loop-layout fuel k r rest s ∙ rw (lt→ltb k r.tranc_id h) refl

-- Every file begins with a record that was written by `encode`.
abbrev pub BeginWithRecords : List LogFile → Type 0
BeginWithRecords [] = Unit {0}
BeginWithRecords ((seq, file) ∷ fs) =
    ((r : Record) × (rest : Bytes) × IsStorable r × (file ≡ layout r ++ rest)) × BeginWithRecords fs

-- The cleaner deletes nothing: where there is a file and every file begins with a record, a run with
-- any fuel either ends with no file to delete or does not come to an end.
pub clean_files-nothing :
    (fuel max_finished : ℕ) (f : LogFile) (fs : List LogFile)
    → BeginWithRecords (f ∷ fs)
    → (clean_files fuel max_finished (f ∷ fs) ≡ ok [])
      ⊎ (clean_files fuel max_finished (f ∷ fs) ≡ unfinished)
unfolding clean_files
clean_files-nothing fuel k f [] b = inl refl
clean_files-nothing zero k (n, file) (g ∷ fs) b = inr (unfold scan_loop in refl)
clean_files-nothing (suc fuel) k (n, file) (g ∷ fs) ((r, rest, s, e), b) =
    rw e (elim (Bool-cases (ltb k r.tranc_id)) [
      | inl late ↦
          let scan = scan_loop-unfinished fuel k r rest s (ltb→lt k r.tranc_id late) in
          elim (clean_files-nothing (suc fuel) k g fs b) [
            | inl c ↦ inl (rw (scan, c) refl)
            | inr c ↦ inr (rw (scan, c) refl)
          ]
      | inr done ↦ inr (rw (scan_loop-finished (suc fuel) k r rest s (ground arith)) refl)
    ])
