-- ===== src/Wal/Log/Files.antt =====
-- What recovery reads back from files that hold known records.
use mini_redis.Common.{ℕ, suc, ◌+◌, ◌≡◌, refl, List, [], ◌∷◌, ◌++◌, append-nil, append_assoc, arith}
use mini_redis.Common.{ok, ltb, if◌then◌else◌, length, All}
use mini_redis.Common.Keys.{Bytes}
use mini_redis.Storage.{append}
use mini_redis.Wal.Record.{Record}
use mini_redis.Wal.Record.Layout.{IsStorable, layout, encode-layout}
use mini_redis.Wal.Record.RoundTrip.{layouts, decode-layouts}
use mini_redis.Wal.Log.{Wal, LogFile, TrancRecords, init, directory, append_records}
use mini_redis.Wal.Log.{
  sort_by_seq, insert_by_seq, push_record, push_records, recover_files, recover,
}

pub layouts-append : (rs ss : List Record) → layouts (rs ++ ss) ≡ layouts rs ++ layouts ss
unfolding layouts
layouts-append [] ss = refl
layouts-append (r ∷ rs) ss = rw (layouts-append rs ss, append_assoc) refl

pub append_records-layouts :
    (file : Bytes) (rs : List Record)
    → All IsStorable rs
    → append_records file rs ≡ ok (file ++ layouts rs)
unfolding append_records append layouts
append_records-layouts file [] h = rw append-nil
append_records-layouts file (r ∷ rs) (h, hs) =
    rw (encode-layout r h, append_records-layouts (file ++ layout r) rs hs, append_assoc) refl

-- The files hold the batches of records, one file each, and are numbered from `n` on.
abbrev pub HoldsFrom : ℕ → List LogFile → List (List Record) → Type 0
HoldsFrom n [] [] = Unit {0}
HoldsFrom n [] (rs ∷ rss) = ⊥
HoldsFrom n (f ∷ fs) [] = ⊥
HoldsFrom n ((m, bs) ∷ fs) (rs ∷ rss) =
    (m ≡ n) × (bs ≡ layouts rs) × All IsStorable rs × HoldsFrom (suc n) fs rss

pub HoldsFrom-append :
    (n : ℕ) (fs : List LogFile) (rss : List (List Record)) (m : ℕ) (bs : Bytes) (rs : List Record)
    → HoldsFrom n fs rss
    → m ≡ n + length fs
    → bs ≡ layouts rs
    → All IsStorable rs
    → HoldsFrom n (fs ++ (m, bs) ∷ []) (rss ++ rs ∷ [])
HoldsFrom-append n [] [] m bs rs h e b s = (omega arith, b, s, tt)
HoldsFrom-append n [] (_ ∷ _) m bs rs h e b s = absurd h
HoldsFrom-append n (_ ∷ _) [] m bs rs h e b s = absurd h
HoldsFrom-append n ((k, cs) ∷ fs) (qs ∷ rss) m bs rs (i, c, q, h) e b s =
    (i, c, q, HoldsFrom-append (suc n) fs rss m bs rs h (omega arith) b s)

insert_by_seq-first :
    (n : ℕ) (bs : Bytes) (fs : List LogFile) (rss : List (List Record))
    → HoldsFrom (suc n) fs rss
    → insert_by_seq (n, bs) fs ≡ (n, bs) ∷ fs
unfolding insert_by_seq
insert_by_seq-first n bs [] rss h = refl
insert_by_seq-first n bs ((m, cs) ∷ fs) [] h = absurd h
insert_by_seq-first n bs ((m, cs) ∷ fs) (rs ∷ rss) h = ground (arith, h.0)

sort_by_seq-holds :
    (n : ℕ) (fs : List LogFile) (rss : List (List Record))
    → HoldsFrom n fs rss
    → sort_by_seq fs ≡ fs
unfolding sort_by_seq
sort_by_seq-holds n [] rss h = refl
sort_by_seq-holds n ((m, bs) ∷ fs) [] h = absurd h
sort_by_seq-holds n ((m, bs) ∷ fs) (rs ∷ rss) (e, b, s, h) =
    rw (sort_by_seq-holds (suc n) fs rss h, e) (insert_by_seq-first n bs fs rss h)

abbrev pub flatten : List (List Record) → List Record
flatten [] = []
flatten (rs ∷ rss) = rs ++ flatten rss

pub flatten-append :
    (rss qss : List (List Record)) → flatten (rss ++ qss) ≡ flatten rss ++ flatten qss
flatten-append [] qss = refl
flatten-append (rs ∷ rss) qss = rw (flatten-append rss qss, append_assoc) refl

push_records-append :
    (k : ℕ) (m : TrancRecords) (rs ss : List Record)
    → push_records k m (rs ++ ss) ≡ push_records k (push_records k m rs) ss
unfolding push_records
push_records-append k m [] ss = refl
push_records-append k m (r ∷ rs) ss =
    push_records-append k (if ltb k r.tranc_id then push_record m r else m) rs ss

recover_files-holds :
    (k n : ℕ) (m : TrancRecords) (fs : List LogFile) (rss : List (List Record))
    → HoldsFrom n fs rss
    → recover_files k m fs ≡ ok (push_records k m (flatten rss))
unfolding recover_files
recover_files-holds k n m [] [] h = refl
recover_files-holds k n m [] (_ ∷ _) h = absurd h
recover_files-holds k n m (_ ∷ _) [] h = absurd h
recover_files-holds k n m ((i, bs) ∷ fs) (rs ∷ rss) (e, b, s, h) =
    rw (b, decode-layouts rs s, push_records-append k m rs (flatten rss))
      (recover_files-holds k (suc n) (push_records k m rs) fs rss h)

-- The files hold the batches in `rss` (closed files) and `rs` (the active file), and the buffer can
-- be written.
pub record Holds (w : Wal) (rss : List (List Record)) (rs : List Record) : Type 0 where
  pub closed : HoldsFrom 0 w.closed rss
  pub numbered : w.active_seq ≡ length w.closed
  pub active : w.active ≡ layouts rs
  pub storable : All IsStorable rs
  pub buffered : All IsStorable w.log_buffer

pub init-Holds : (size finished limit : ℕ) → Holds (init size finished limit) [] []
unfolding init layouts
init-Holds size finished limit = record {
  closed = tt;
  numbered = refl;
  active = refl;
  storable = tt;
  buffered = tt;
}

directory-Holds :
    (w : Wal) (rss : List (List Record)) (rs : List Record)
    → Holds w rss rs
    → HoldsFrom 0 (directory w) (rss ++ rs ∷ [])
unfolding directory
directory-Holds w rss rs h =
    HoldsFrom-append 0 w.closed rss w.active_seq w.active rs h.closed (omega (arith, h.numbered))
      h.active h.storable

-- Recovery reads the records of the files in the order in which they were logged.
pub recover-Holds :
    (k : ℕ) (w : Wal) (rss : List (List Record)) (rs : List Record)
    → Holds w rss rs
    → recover (directory w) k ≡ ok (push_records k [] (flatten (rss ++ rs ∷ [])))
unfolding recover
recover-Holds k w rss rs h =
    let d = directory-Holds w rss rs h in
    rw (sort_by_seq-holds 0 (directory w) (rss ++ rs ∷ []) d)
      (recover_files-holds k 0 [] (directory w) (rss ++ rs ∷ []) d)
