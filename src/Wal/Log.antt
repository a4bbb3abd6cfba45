-- ===== src/Wal/Log.antt =====
-- The log itself: buffering, rotation, recovery and the cleaner (src/wal/wal.cpp, include/wal/wal.h).
-- The directory is the list of its `wal.<seq>` files, by their numbers; what `sync` answers is an
-- argument. Locks and the cleaner's thread are left out: each call below runs under the mutex.
pub mod Files
pub mod Replay
pub mod Groups
pub mod Forced
pub mod Cleaner
mod Examples
use mini_redis.Common.{fault}
use mini_redis.Common.{
  ℕ, zero, suc, ◌+◌, ◌%◌, ◌^◌, ◌<◌, ◌≡◌, List, [], ◌∷◌, ◌++◌, map, Bool, true, false, ◌&&◌, not,
}
use mini_redis.Common.{
  Outcome, ok, throws, unfinished, ◌>>=◌, ltb, leb, ◌==◌, if◌then◌else◌, length,
}
use mini_redis.Common.Keys.{Bytes}
use mini_redis.Storage.{append, read_uint16, read_uint64}
use mini_redis.Wal.Record.{Record, encode, decode}

-- A file and its number.
abbrev pub LogFile : Type 0
LogFile = ℕ × Bytes

pub record Wal : Type 0 where
  pub closed : List LogFile
  pub active_seq : ℕ
  pub active : Bytes
  pub file_size_limit : ℕ
  pub log_buffer : List Record
  pub buffer_size : ℕ
  pub max_finished_tranc_id : ℕ

-- The constructor opens, and empties, `wal.0`.
unfoldable pub init : ℕ → ℕ → ℕ → Wal
init buffer_size max_finished_tranc_id file_size_limit = record {
  closed = [];
  active_seq = 0;
  active = [];
  file_size_limit = file_size_limit;
  log_buffer = [];
  buffer_size = buffer_size;
  max_finished_tranc_id = max_finished_tranc_id;
}

unfoldable pub set_max_finished_tranc_id : Wal → ℕ → Wal
set_max_finished_tranc_id w id = record w { max_finished_tranc_id = id }

-- Every regular file of the directory.
unfoldable pub directory : Wal → List LogFile
directory w = w.closed ++ ((w.active_seq, w.active) ∷ [])

unfoldable pub reset_file : Wal → Wal
reset_file w = record w {
  closed = w.closed ++ ((w.active_seq, w.active) ∷ []);
  active_seq = w.active_seq + 1;
  active = [];
}

-- for (const auto &record : pre_buffer) log_file_.append(record.encode());
pub append_records : Bytes → List Record → Outcome Bytes
append_records file [] = ok file
append_records file (r ∷ rs) = do
  encoded_record ← encode r
  append_records (append file encoded_record) rs

unfoldable pub rotate : Wal → Wal
unfolding reset_file
rotate w = if ltb w.file_size_limit (length w.active) then reset_file w else w

-- `WAL::log`. The answer is false where the call ends by an exception: `sync` failed after the
-- records had been appended and the buffer emptied.
pub log : Bool → Wal → List Record → Bool → Outcome (Bool × Wal)
log synced w records force_flush =
    let buffer = w.log_buffer ++ records in
    if ltb (length buffer) w.buffer_size && not force_flush
    then ok (true, record w { log_buffer = buffer })
    else do
      file ← append_records w.active buffer
      let w' = record w { log_buffer = []; active = file }
      if synced then ok (true, rotate w') else ok (false, w')

-- std::sort by the number behind the last dot
insert_by_seq : LogFile → List LogFile → List LogFile
insert_by_seq f [] = f ∷ []
insert_by_seq (n, bs) ((m, cs) ∷ fs) =
    let rest = insert_by_seq (n, bs) fs in
    if ltb m n then (m, cs) ∷ rest else (n, bs) ∷ (m, cs) ∷ fs

sort_by_seq : List LogFile → List LogFile
unfolding insert_by_seq
sort_by_seq [] = []
sort_by_seq (f ∷ fs) = insert_by_seq f (sort_by_seq fs)

-- std::map<uint64_t, std::vector<Record>>, in the order of its keys.
abbrev pub TrancRecords : Type 0
TrancRecords = List (ℕ × List Record)

-- tranc_records[id].push_back(record)
unfoldable pub push_record : TrancRecords → Record → TrancRecords
push_record [] r = (r.tranc_id, r ∷ []) ∷ []
push_record ((id, rs) ∷ m) r =
    let rest = push_record m r in
    if r.tranc_id == id
    then (id, rs ++ r ∷ []) ∷ m
    else if ltb r.tranc_id id
    then (r.tranc_id, r ∷ []) ∷ (id, rs) ∷ m
    else (id, rs) ∷ rest

unfoldable pub push_records : ℕ → TrancRecords → List Record → TrancRecords
unfolding push_record
push_records max_flushed m [] = m
push_records max_flushed m (r ∷ rs) =
    push_records max_flushed (if ltb max_flushed r.tranc_id then push_record m r else m) rs

recover_files : ℕ → TrancRecords → List LogFile → Outcome TrancRecords
unfolding push_records
recover_files max_flushed m [] = ok m
recover_files max_flushed m ((seq, file) ∷ files) = do
  records ← decode file
  recover_files max_flushed (push_records max_flushed m records) files

-- `WAL::recover` on the listing of the log directory.
pub recover : List LogFile → ℕ → Outcome TrancRecords
unfolding sort_by_seq
recover listing max_flushed = recover_files max_flushed [] (sort_by_seq listing)

-- The scan of one file in `cleanWALFile`: it answers whether a record of the file belongs to a
-- transaction that is not finished. `offset` is not advanced in the loop.
pub scan_loop : ℕ → ℕ → Bytes → ℕ → Outcome Bool
scan_loop zero max_finished file offset = unfinished
scan_loop (suc fuel) max_finished file offset =
    let rest = scan_loop fuel max_finished file offset in
    if ltb (offset + 2) (length file)
    then (do
      record_size ← read_uint16 file offset
      tranc_id ← read_uint64 file (offset + 2)
      if ltb max_finished tranc_id then ok true else rest)
    else ok false

-- The files that the cleaner deletes: all but the last, less those with an unfinished transaction.
-- Without a file the bound `size() - 1` wraps and the first path is read out of bounds.
pub clean_files : ℕ → ℕ → List LogFile → Outcome (List LogFile)
unfolding scan_loop
clean_files fuel max_finished [] = fault
clean_files fuel max_finished (f ∷ []) = ok []
clean_files fuel max_finished ((seq, file) ∷ g ∷ fs) = do
  has_unfinished ← scan_loop fuel max_finished file 0
  deleted ← clean_files fuel max_finished (g ∷ fs)
  ok (if has_unfinished then deleted else (seq, file) ∷ deleted)

pub clean_wal_file : ℕ → Wal → Outcome (List LogFile)
unfolding clean_files sort_by_seq directory
clean_wal_file fuel w = clean_files fuel w.max_finished_tranc_id (sort_by_seq (directory w))
