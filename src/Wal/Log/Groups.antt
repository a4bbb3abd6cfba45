-- ===== src/Wal/Log/Groups.antt =====
-- The grouping of recovered records by transaction.
use mini_redis.Common.{
  ℕ, suc, ◌≤◌, ◌<◌, ◌≡◌, refl, ◌∙◌, List, [], ◌∷◌, ◌++◌, append-nil, append_assoc, inl, inr, arith,
}
use mini_redis.Common.{ltb, ◌==◌, Bool-cases, if◌then◌else◌}
use mini_redis.Wal.Record.{Record}
use mini_redis.Wal.Log.{TrancRecords, push_record, push_records}

-- The entry of a key, empty where the key has none.
unfoldable pub records_of : ℕ → TrancRecords → List Record
records_of t [] = []
records_of t ((id, rs) ∷ m) = if t == id then rs else records_of t m

-- The records of one transaction, in their order.
unfoldable pub of_tranc : ℕ → List Record → List Record
of_tranc t [] = []
of_tranc t (r ∷ rs) = let rest = of_tranc t rs in if t == r.tranc_id then r ∷ rest else rest

-- The keys ascend, from `n` on.
abbrev pub KeysFrom : ℕ → TrancRecords → Type 0
KeysFrom n [] = Unit {0}
KeysFrom n ((id, rs) ∷ m) = (n ≤ id) × KeysFrom (suc id) m

KeysFrom-le : (a b : ℕ) (m : TrancRecords) → a ≤ b → KeysFrom b m → KeysFrom a m
KeysFrom-le a b [] h k = tt
KeysFrom-le a b ((id, rs) ∷ m) h (p, k) = (omega arith, k)

records_of-below : (t n : ℕ) (m : TrancRecords) → t < n → KeysFrom n m → records_of t m ≡ []
unfolding records_of
records_of-below t n [] h k = refl
records_of-below t n ((id, rs) ∷ m) h (p, k) =
    ground (arith, records_of-below t (suc id) m (omega arith) k)

push_record-KeysFrom :
    (n : ℕ) (m : TrancRecords) (r : Record)
    → n ≤ r.tranc_id
    → KeysFrom n m
    → KeysFrom n (push_record m r)
unfolding push_record
push_record-KeysFrom n [] r h k = (h, tt)
push_record-KeysFrom n ((id, rs) ∷ m) r h (p, k) = ground (arith, push_record-KeysFrom (suc id) m r)

pub push_records-KeysFrom :
    (k : ℕ) (m : TrancRecords) (rs : List Record)
    → KeysFrom (suc k) m
    → KeysFrom (suc k) (push_records k m rs)
unfolding push_records
push_records-KeysFrom k m [] h = h
push_records-KeysFrom k m (r ∷ rs) h = elim (Bool-cases (ltb k r.tranc_id)) [
  | inl e ↦ rw e (
      push_records-KeysFrom k (push_record m r) rs
        (push_record-KeysFrom (suc k) m r (ground arith) h))
  | inr e ↦ rw e (push_records-KeysFrom k m rs h)
]

records_of-push_record :
    (t n : ℕ) (m : TrancRecords) (r : Record)
    → KeysFrom n m
    → records_of t (push_record m r)
      ≡ (if t == r.tranc_id then records_of t m ++ r ∷ [] else records_of t m)
unfolding push_record records_of
records_of-push_record t n [] r k = ground arith
records_of-push_record t n ((id, rs) ∷ m) r (p, k) =
    ground (arith, records_of-push_record t (suc id) m r k, records_of-below t (suc id) m)

records_of-push_records :
    (t k : ℕ) (m : TrancRecords) (rs : List Record)
    → KeysFrom 0 m
    → records_of t (push_records k m rs) ≡ records_of t m ++ (if ltb k t then of_tranc t rs else [])
unfolding push_records of_tranc
records_of-push_records t k m [] h = ground (arith, append-nil (records_of t m))
records_of-push_records t k m (r ∷ rs) h = elim (Bool-cases (ltb k r.tranc_id)) [
  | inl e ↦ rw e (
      records_of-push_records t k (push_record m r) rs (push_record-KeysFrom 0 m r (omega arith) h)
      ∙ rw (records_of-push_record t 0 m r h) (
          ground (
            arith,
            append_assoc (records_of t m) (r ∷ []) (of_tranc t rs),
            append-nil (records_of t m),
          )))
  | inr e ↦ rw e (records_of-push_records t k m rs h ∙ ground arith)
]

-- Recovery gives each transaction above the flushed one its own records in the order of the log, and
-- no other transaction any.
pub records_of-recovered :
    (t max_flushed : ℕ) (rs : List Record)
    → records_of t (push_records max_flushed [] rs)
      ≡ (if ltb max_flushed t then of_tranc t rs else [])
unfolding records_of
records_of-recovered t k rs = records_of-push_records t k [] rs tt
