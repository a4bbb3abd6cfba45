-- ===== src/Transaction/Commit.antt =====
-- How a transaction ends.
use mini_redis.Common.{
  ℕ, ◌≤◌, ◌<◌, ◌≡◌, ◌⊎◌, refl, ap, ◌∙◌, inl, inr, List, [], ◌∷◌, ◌++◌, Bool, true, false, some,
  arith, Bool-cases,
}
use mini_redis.Common.{ok, All, lt→ltb, ltb, foldl, if◌then◌else◌}
use mini_redis.Wal.Log.{TrancRecords}
use mini_redis.Wal.Log.Groups.{records_of, of_tranc, records_of-recovered}
use mini_redis.Common.Keys.{Bytes, bytes_eq, bytes_eq_iff}
use mini_redis.Common.Maps.{StringMap, find}
use mini_redis.Wal.Record.{Record, commit_record}
use mini_redis.Wal.Record.Layout.{IsStorable}
use mini_redis.Wal.Log.{recover, directory, push_records}
use mini_redis.Wal.Log.Replay.{Logged}
use mini_redis.Wal.Log.Forced.{recover-forced}
use mini_redis.Engine.{EngineOps}
use mini_redis.Transaction.Manager.{TranManager, write_to_wal, update_max_finished_tranc_id, raise}
use mini_redis.Transaction.Context.{
  IsolationLevel-cases, TranContext, Ending, returned, threw, emplace, apply, apply_writes,
  write_and_apply, is_refused, has_conflict, is_newer, commit, checked, is_deferred,
}

module _ {ℓ} {E : Type ℓ} (ops : EngineOps E) where
  write_to_wal-durable :
      (all : List Record) (m : TranManager) (rs : List Record) (k : ℕ)
      → Logged all m.wal
      → All IsStorable rs
      → (m' : TranManager) × (write_to_wal true m rs ≡ ok (true, m'))
        × (m'.max_finished_tranc_id ≡ m.max_finished_tranc_id)
        × (groups : TrancRecords) × (recover (directory m'.wal) k ≡ ok groups)
        × ((t : ℕ) → records_of t groups ≡ (if ltb k t then of_tranc t (all ++ rs) else []))
  unfolding write_to_wal
  write_to_wal-durable all m rs k l s =
      let (w, e, l', r) = recover-forced all m.wal rs k l s in
      (
        record m { wal = w },
        rw (write_to_wal, e) refl,
        refl,
        push_records k [] (all ++ rs),
        r,
        λ t. records_of-recovered t k (all ++ rs),
      )

  apply-foldl :
      (id : ℕ) (e : E) (writes : StringMap Bytes)
      → apply ops id e writes ≡ foldl (λ e (key, value). ops.memtable_put e key value id) e writes
  unfolding apply
  apply-foldl id e [] = refl
  apply-foldl id e ((k, v) ∷ writes) = apply-foldl id (ops.memtable_put e k v id) writes

  -- The engine with each write put into its memory table, from the first to the last; at the level
  -- whose writes do not wait for the commit it stays as it is.
  unfoldable pub with_writes : TranContext → E → E
  with_writes c e =
      if is_deferred c.isolation_level
      then foldl (λ e (key, value). ops.memtable_put e key value c.tranc_id) e c.temp_map
      else e

  apply_writes-with_writes :
      (c : TranContext) (e : E) → apply_writes ops false c e ≡ with_writes c e
  unfolding with_writes apply_writes is_deferred
  apply_writes-with_writes c e = elim (IsolationLevel-cases c.isolation_level) [
    | inl (inl l) ↦ rw l refl
    | inl (inr l) ↦ rw l (apply-foldl c.tranc_id e c.temp_map)
    | inr (inl l) ↦ rw l (apply-foldl c.tranc_id e c.temp_map)
    | inr (inr l) ↦ rw l (apply-foldl c.tranc_id e c.temp_map)
  ]

  -- A commit without test_fail that is not refused, on storable operations and with a disk that
  -- syncs, succeeds: each of its waiting writes has been put into the memory table, in turn and
  -- under its id, and it is marked as committed and finished. Recovery above any id then succeeds,
  -- and gives each transaction above that id its own records of all that was logged before, of the
  -- operations of this one and of its mark, in this order, and no other transaction any.
  pub commit-durable :
      (all : List Record) (c : TranContext) (m : TranManager) (e : E) (k : ℕ)
      → Logged all m.wal
      → All IsStorable (c.operations ++ commit_record c.tranc_id ∷ [])
      → is_refused ops c m e ≡ false
      → (c' : TranContext) × (m' : TranManager) × (commit ops true false c m e
          ≡ ok (returned true, c', m', with_writes c e))
        × (c'.is_commited ≡ true)
        × (c.tranc_id ≤ m'.max_finished_tranc_id)
        × (groups : TrancRecords) × (recover (directory m'.wal) k ≡ ok groups)
        × ((t : ℕ)
            → records_of t groups ≡ (
                if ltb k t
                then of_tranc t (all ++ (c.operations ++ commit_record c.tranc_id ∷ []))
                else []))
  unfolding commit emplace write_and_apply update_max_finished_tranc_id raise
  commit-durable all c m e k l s h =
      let (m', q, f, groups, r, g) =
        write_to_wal-durable all m (c.operations ++ commit_record c.tranc_id ∷ []) k l s in
      (
        record (emplace c (commit_record c.tranc_id)) { is_commited = true },
        update_max_finished_tranc_id m' c.tranc_id,
        rw (commit, h, write_and_apply, q)
            (ap
              (λ s. ok (
                returned true,
                record (emplace c (commit_record c.tranc_id)) { is_commited = true },
                update_max_finished_tranc_id m' c.tranc_id,
                s,
              ))
              (apply_writes-with_writes c e)),
        refl,
        ground arith,
        groups,
        r,
        g,
      )

  -- The three ways in which a commit comes to an end.
  commit-atomic :
      (synced test_fail : Bool) (c c' : TranContext) (m m' : TranManager) (e e' : E) (end : Ending)
      → commit ops synced test_fail c m e ≡ ok (end, c', m', e')
      → ((end ≡ returned true) × (c'.is_commited ≡ true) × (e' ≡ apply_writes ops test_fail c e))
        ⊎ (((end ≡ returned false)
              × (is_refused ops c m e ≡ true)
              × (c' ≡ record c { is_aborted = true })
              × (m' ≡ m)
              × (e' ≡ e))
            ⊎ ((end ≡ threw) × (c'.is_commited ≡ c.is_commited) × (e' ≡ e)))
  unfolding commit write_and_apply emplace
  commit-atomic synced test_fail c c' m m' e e' end h = ground arith

  pub commit-applied :
      (synced test_fail : Bool) (c c' : TranContext) (m m' : TranManager) (e e' : E)
      → commit ops synced test_fail c m e ≡ ok (returned true, c', m', e')
      → e' ≡ apply_writes ops test_fail c e
  commit-applied synced test_fail c c' m m' e e' h =
      elim (commit-atomic synced test_fail c c' m m' e e' (returned true) h) [
        | inl (a, b, d) ↦ d
        | inr (inl (a, b, c1, d, f)) ↦ absurd (cc)
        | inr (inr (a, b, d)) ↦ absurd (cc)
      ]

  pub apply_writes-deferred :
      (c : TranContext) (e : E)
      → is_deferred c.isolation_level ≡ true
      → apply_writes ops false c e ≡ apply ops c.tranc_id e c.temp_map
  unfolding apply_writes is_deferred
  apply_writes-deferred c e h = elim (IsolationLevel-cases c.isolation_level) [
    | inl (inl l) ↦ absurd (cc (h, ap is_deferred l))
    | inl (inr l) ↦ rw l refl
    | inr (inl l) ↦ rw l refl
    | inr (inr l) ↦ rw l refl
  ]

  -- A key that is not empty and that a transaction has written is answered by the memory table with
  -- the id of it or of a later one, whatever else it writes.
  pub record KeepsLatest : Type ℓ where
    pub put_seen :
        (e : E) (x : ℕ) (xs value : Bytes) (id : ℕ)
        → (i : ℕ) × (ops.memtable_get (ops.memtable_put e (x ∷ xs) value id) (x ∷ xs) ≡ some i)
          × (id ≤ i)
    pub put_keeps :
        (e : E) (x : ℕ) (xs k value : Bytes) (id i : ℕ)
        → ops.memtable_get e (x ∷ xs) ≡ some i
        → id ≤ i
        → (j : ℕ) × (ops.memtable_get (ops.memtable_put e k value id) (x ∷ xs) ≡ some j) × (id ≤ j)

  apply-keeps :
      (laws : KeepsLatest) (e : E) (x : ℕ) (xs : Bytes) (id i : ℕ) (writes : StringMap Bytes)
      → ops.memtable_get e (x ∷ xs) ≡ some i
      → id ≤ i
      → (j : ℕ) × (ops.memtable_get (apply ops id e writes) (x ∷ xs) ≡ some j) × (id ≤ j)
  unfolding apply
  apply-keeps laws e x xs id i [] h l = (i, h, l)
  apply-keeps laws e x xs id i ((k, v) ∷ writes) h l =
      let (j, h', l') = laws.put_keeps e x xs k v id i h l in
      apply-keeps laws (ops.memtable_put e k v id) x xs id j writes h' l'

  apply-seen :
      (laws : KeepsLatest) (e : E) (x : ℕ) (xs value : Bytes) (id : ℕ) (writes : StringMap Bytes)
      → find (x ∷ xs) writes ≡ some value
      → (j : ℕ) × (ops.memtable_get (apply ops id e writes) (x ∷ xs) ≡ some j) × (id ≤ j)
  unfolding apply find
  apply-seen laws e x xs value id [] h = absurd (cc)
  apply-seen laws e x xs value id ((k, v) ∷ writes) h = elim (Bool-cases (bytes_eq k (x ∷ xs))) [
    | inl s ↦
        let (i, g, l) = laws.put_seen e x xs v id in
        let seen =
          ap (λ t. ops.memtable_get (ops.memtable_put e t v id) (x ∷ xs))
            ((bytes_eq_iff k (x ∷ xs)).0 s)
          ∙ g in
        apply-keeps laws (ops.memtable_put e k v id) x xs id i writes seen l
    | inr d ↦ apply-seen laws (ops.memtable_put e k v id) x xs value id writes (ground arith)
  ]

  has_conflict-newer :
      (e : E) (key value : Bytes) (flushed id i : ℕ) (writes : StringMap Bytes)
      → find key writes ≡ some value
      → ops.memtable_get e key ≡ some i
      → id < i
      → has_conflict ops flushed id e writes ≡ true
  unfolding has_conflict find is_newer
  has_conflict-newer e key value flushed id i [] h g l = absurd (cc)
  has_conflict-newer e key value flushed id i ((k, v) ∷ writes) h g l =
      elim (Bool-cases (bytes_eq k key)) [
        | inl s ↦
            let seen : is_newer id (ops.memtable_get e k) ≡ true =
              ap (λ t. is_newer id (ops.memtable_get e t)) ((bytes_eq_iff k key).0 s)
              ∙ ap (is_newer id) g
              ∙ lt→ltb id i l in
            rw seen refl
        | inr d ↦
            let later = has_conflict-newer e key value flushed id i writes (ground arith) g l in
            ground (arith, later)
      ]

  -- First committer wins: where the memory table answers a key that is not empty with the id of the
  -- transaction that has put it or of a later one, the commit of a later transaction whose writes
  -- waited for it, without test_fail and answering true, makes the commit that follows of an
  -- earlier one, which has written such a key of it and is at a level that looks for conflicts,
  -- answer false and change nothing but its mark.
  pub commit-first_wins :
      (early late late' : TranContext) (m m' m'' : TranManager) (e e' : E) (x : ℕ) (xs v w : Bytes)
      (synced synced' test_fail : Bool)
      → KeepsLatest
      → early.tranc_id < late.tranc_id
      → checked early.isolation_level ≡ true
      → is_deferred late.isolation_level ≡ true
      → find (x ∷ xs) early.temp_map ≡ some v
      → find (x ∷ xs) late.temp_map ≡ some w
      → commit ops synced false late m e ≡ ok (returned true, late', m', e')
      → commit ops synced' test_fail early m'' e'
        ≡ ok (returned false, record early { is_aborted = true }, m'', e')
  unfolding commit is_refused
  commit-first_wins early late late' m m' m'' e e' x xs v w synced synced' test_fail laws lt ck df
        hv hw h =
      let applied =
        commit-applied synced false late late' m m' e e' h ∙ apply_writes-deferred late e df in
      let (i, g, l) = apply-seen laws e x xs w late.tranc_id late.temp_map hw in
      let refused =
        has_conflict-newer e' (x ∷ xs) v m''.max_flushed_tranc_id early.tranc_id i early.temp_map hv
          (ap (λ t. ops.memtable_get t (x ∷ xs)) applied ∙ g) (omega arith) in
      rw (commit, is_refused, ck, refused) refl
