-- ===== src/Wal/Log/Forced.antt =====
-- A call of `log` that forces the flush.
use mini_redis.Common.{ℕ, ◌≡◌, ◌∙◌, sym, ap, arith, List, [], ◌∷◌, ◌++◌, append-nil, true}
use mini_redis.Common.{ok, All}
use mini_redis.Wal.Record.{Record}
use mini_redis.Wal.Record.Layout.{IsStorable}
use mini_redis.Wal.Log.{Wal, log, recover, directory, push_records, rotate, reset_file}
use mini_redis.Wal.Log.Replay.{Logged, log-Logged}
use mini_redis.Wal.Log.Files.{flatten, recover-Holds}

log-forced_empty :
    (w w' : Wal) (ss : List Record) → log true w ss true ≡ ok (true, w') → w'.log_buffer ≡ []
unfolding log rotate reset_file
log-forced_empty w w' ss h = ground arith

-- It leaves nothing in the buffer, so recovery finds all that was logged.
pub recover-forced :
    (all : List Record) (w : Wal) (ss : List Record) (k : ℕ)
    → Logged all w
    → All IsStorable ss
    → (w' : Wal) × (log true w ss true ≡ ok (true, w'))
      × Logged (all ++ ss) w'
      × (recover (directory w') k ≡ ok (push_records k [] (all ++ ss)))
recover-forced all w ss k l s =
    let (w', e, (rss, rs, h, q)) = log-Logged all w ss true l s in
    let empty = log-forced_empty w w' ss e in
    (
      w',
      e,
      (rss, rs, h, q),
      recover-Holds k w' rss rs h
          ∙ ap (λ t. ok (push_records k [] t))
              (sym (append-nil _) ∙ ap (λ t. flatten (rss ++ rs ∷ []) ++ t) (sym empty) ∙ q),
    )
