-- ===== src/Wal/Log/Replay.antt =====
-- What recovery reads back from the files that `log` wrote.
use mathlib.Core.Path.{subst}
use mini_redis.Common.{
  ℕ, ◌≡◌, refl, List, [], ◌∷◌, ◌++◌, inl, inr, append-nil, append_assoc, Bool, true, ◌&&◌, not, ◌⊎◌,
  arith,
}
use mini_redis.Common.{
  Outcome, ok, ◌>>=◌, ltb, length, length-append, All, All-append, Bool-cases, if◌then◌else◌,
}
use mini_redis.Wal.Record.{Record}
use mini_redis.Wal.Record.Layout.{IsStorable}
use mini_redis.Wal.Record.RoundTrip.{layouts}
use mini_redis.Wal.Log.{Wal, init, directory, rotate, reset_file, log}
use mini_redis.Wal.Log.{TrancRecords, push_records, recover}
use mini_redis.Wal.Log.Groups.{records_of, of_tranc, records_of-recovered}
use mini_redis.Wal.Log.Files.{
  layouts-append, append_records-layouts, HoldsFrom-append, flatten, flatten-append, Holds,
  init-Holds, recover-Holds,
}

-- All the records that were logged, in order: those in the files, then those in the buffer.
abbrev pub Logged : List Record → Wal → Type 0
Logged all w =
    (rss : List (List Record)) × (rs : List Record) × Holds w rss rs
    × (flatten (rss ++ rs ∷ []) ++ w.log_buffer ≡ all)

rotate-Logged :
    (w : Wal) (rss : List (List Record)) (rs : List Record)
    → Holds w rss rs
    → w.log_buffer ≡ []
    → Logged (flatten (rss ++ rs ∷ [])) (rotate w)
unfolding rotate
rotate-Logged w rss rs h d = elim (Bool-cases (ltb w.file_size_limit (length w.active))) [
  | inl e ↦ rw e (
      unfold reset_file in
      (rss ++ rs ∷ [], [], rotated, rw (d, append-nil, flatten-append) (append-nil _)))
  | inr e ↦ rw e (rss, rs, h, rw (d, append-nil) refl)
]
  where
    rotated : Holds (reset_file w) (rss ++ rs ∷ []) []
    rotated =
        unfold reset_file layouts in
        record {
          closed =
              HoldsFrom-append 0 w.closed rss w.active_seq w.active rs h.closed
                (omega (arith, h.numbered)) h.active h.storable;
          numbered =
              omega (arith, h.numbered, length-append w.closed ((w.active_seq, w.active) ∷ []));
          active = refl;
          storable = tt;
          buffered = h.buffered;
        }

-- The state in `log` between the write and the rotation.
written : Wal → List Record → Wal
written w ss = record w { log_buffer = []; active = w.active ++ layouts (w.log_buffer ++ ss) }

written-Holds :
    (w : Wal) (rss : List (List Record)) (rs ss : List Record)
    → Holds w rss rs
    → All IsStorable ss
    → Holds (written w ss) rss (rs ++ (w.log_buffer ++ ss))
unfolding written
written-Holds w rss rs ss h s = record {
  closed = h.closed;
  numbered = h.numbered;
  active = rw (layouts-append rs (w.log_buffer ++ ss), h.active) refl;
  storable =
      All-append IsStorable rs (w.log_buffer ++ ss) h.storable
        (All-append IsStorable w.log_buffer ss h.buffered s);
  buffered = tt;
}

-- Both branches of `log`.
log-cases :
    (w : Wal) (ss : List Record) (force : Bool)
    → All IsStorable w.log_buffer
    → All IsStorable ss
    → (log true w ss force ≡ ok (true, record w { log_buffer = w.log_buffer ++ ss }))
      ⊎ (log true w ss force ≡ ok (true, rotate (written w ss)))
unfolding log written
log-cases w ss force b s =
    elim (Bool-cases (ltb (length (w.log_buffer ++ ss)) w.buffer_size && not force)) [
      | inl e ↦ inl (rw e refl)
      | inr e ↦ inr (
          rw
            (
              e,
              append_records-layouts w.active (w.log_buffer ++ ss)
                  (All-append IsStorable w.log_buffer ss b s),
            )
            refl)
    ]

flatten-last :
    (rss : List (List Record)) (rs ss : List Record)
    → flatten (rss ++ (rs ++ ss) ∷ []) ≡ flatten (rss ++ rs ∷ []) ++ ss
flatten-last rss rs ss =
    rw
      (
        flatten-append rss ((rs ++ ss) ∷ []),
        flatten-append rss (rs ∷ []),
        append-nil,
        append-nil,
        append_assoc,
      )
      refl

-- A call that can sync never fails on storable records, and loses none.
pub log-Logged :
    (all : List Record) (w : Wal) (ss : List Record) (force : Bool)
    → Logged all w
    → All IsStorable ss
    → (w' : Wal) × (log true w ss force ≡ ok (true, w')) × Logged (all ++ ss) w'
log-Logged all w ss force (rss, rs, h, e) s = elim (log-cases w ss force h.buffered s) [
  | inl e' ↦ (
    record w { log_buffer = w.log_buffer ++ ss },
    e',
    (rss, rs, kept, rw (← e, append_assoc) refl),
  )
  | inr e' ↦ (
    rotate (written w ss),
    e',
    subst (λ t. Logged t (rotate (written w ss))) same
        (rotate-Logged (written w ss) rss (rs ++ (w.log_buffer ++ ss))
          (written-Holds w rss rs ss h s) (unfold written in refl)),
  )
]
  where
    kept : Holds (record w { log_buffer = w.log_buffer ++ ss }) rss rs
    kept = record {
      closed = h.closed;
      numbered = h.numbered;
      active = h.active;
      storable = h.storable;
      buffered = All-append IsStorable w.log_buffer ss h.buffered s;
    }

    same : flatten (rss ++ (rs ++ (w.log_buffer ++ ss)) ∷ []) ≡ all ++ ss
    same = rw (flatten-last, ← e, append_assoc) refl

-- The calls of `log` in order, each with its records and its `force_flush`, where `sync` succeeds.
unfoldable pub log_all : Wal → List (List Record × Bool) → Outcome Wal
log_all w [] = ok w
log_all w ((ss, force) ∷ calls) = do (done, w') ← log true w ss force; log_all w' calls

abbrev pub records_logged : List (List Record × Bool) → List Record
records_logged [] = []
records_logged ((ss, force) ∷ calls) = ss ++ records_logged calls

abbrev pub AllStorable : List (List Record × Bool) → Type 0
AllStorable [] = Unit {0}
AllStorable ((ss, force) ∷ calls) = All IsStorable ss × AllStorable calls

log_all-Logged :
    (all : List Record) (w : Wal) (calls : List (List Record × Bool))
    → Logged all w
    → AllStorable calls
    → (w' : Wal) × (log_all w calls ≡ ok w') × Logged (all ++ records_logged calls) w'
unfolding log_all
log_all-Logged all w [] h s = (w, refl, rw append-nil h)
log_all-Logged all w ((ss, force) ∷ calls) h (s, ss') =
    let (w', e, h') = log-Logged all w ss force h s in
    let (w'', e', h'') = log_all-Logged (all ++ ss) w' calls h' ss' in
    (
      w'',
      rw (e, e') refl,
      subst (λ t. Logged t w'') (append_assoc all ss (records_logged calls)) h'',
    )

-- After any calls of `log` that can sync, on storable records, the records logged are a first part
-- `stored` followed by those still in the buffer, and recovery from the files succeeds: it gives each
-- transaction above the flushed one its own records of the first part, in their order, and no other
-- transaction any.
pub recover-log_all :
    (size finished limit max_flushed : ℕ) (calls : List (List Record × Bool))
    → AllStorable calls
    → (w : Wal) × (stored : List Record) × (groups : TrancRecords) × (log_all
          (init size finished limit)
          calls
        ≡ ok w)
      × (stored ++ w.log_buffer ≡ records_logged calls)
      × (recover (directory w) max_flushed ≡ ok groups)
      × ((t : ℕ) → records_of t groups ≡ (if ltb max_flushed t then of_tranc t stored else []))
recover-log_all size finished limit k calls s =
    let start = init-Holds size finished limit in
    let (w, e, (rss, rs, h, all)) =
      log_all-Logged [] (init size finished limit) calls ([], [], start, unfold init in refl) s in
    let stored = flatten (rss ++ rs ∷ []) in
    (
      w,
      stored,
      push_records k [] stored,
      e,
      all,
      recover-Holds k w rss rs h,
      λ t. records_of-recovered t k stored,
    )
