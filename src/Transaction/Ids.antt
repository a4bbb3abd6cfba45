-- ===== src/Transaction/Ids.antt =====
-- The file of the transaction ids.
use mini_redis.Common.{
  ℕ, ◌^◌, ◌≤◌, ◌<◌, ◌≡◌, refl, sym, ap, ◌∙◌, [], ◌∷◌, ◌++◌, append_assoc, append-nil, arith,
}
use mini_redis.Common.{ok, length, drop, length-append, ◌⊎◌, inl, inr, ltb, Bool-cases}
use mini_redis.Common.Keys.{Bytes}
use mini_redis.Common.Bytes.{le_bytes, length-le_bytes}
use mini_redis.Storage.{read_uint64, read_uint64_lem}
use mini_redis.Wal.Log.{Wal}
use mini_redis.Transaction.Manager.{
  TranManager, write_front, write_tranc_id_file, read_tranc_id_file, new_manager, open_manager,
  raise, update_max_flushed_tranc_id,
}

write_front_lem : (xs ys : Bytes) → write_front xs ys ≡ xs ++ drop (length xs) ys
unfolding write_front
write_front_lem [] ys = refl
write_front_lem (x ∷ xs) [] = ap (λ t. x ∷ t) (sym (append-nil xs))
write_front_lem (x ∷ xs) (y ∷ ys) = ap (λ t. x ∷ t) (write_front_lem xs ys)

-- Ids that fit the 64 bits of the file.
pub record FitsFile (m : TranManager) : Type 0 where
  pub next : m.next_transaction_id < 2 ^ 64
  pub flushed : m.max_flushed_tranc_id < 2 ^ 64
  pub finished : m.max_finished_tranc_id < 2 ^ 64

read_three :
    (a b c : ℕ) (rest : Bytes)
    → a < 2 ^ 64
    → b < 2 ^ 64
    → c < 2 ^ 64
    → (read_uint64 (le_bytes 8 a ++ (le_bytes 8 b ++ (le_bytes 8 c ++ rest))) 0 ≡ ok a)
      × (read_uint64 (le_bytes 8 a ++ (le_bytes 8 b ++ (le_bytes 8 c ++ rest))) 8 ≡ ok b)
      × (read_uint64 (le_bytes 8 a ++ (le_bytes 8 b ++ (le_bytes 8 c ++ rest))) 16 ≡ ok c)
read_three a b c rest ha hb hc = (
  read_uint64_lem [] _ a 0 refl ha,
  read_uint64_lem (le_bytes 8 a) _ b 8 (length-le_bytes 8 a) hb,
  ap (λ f. read_uint64 f 16) (sym (append_assoc (le_bytes 8 a) (le_bytes 8 b) _))
      ∙ read_uint64_lem (le_bytes 8 a ++ le_bytes 8 b) rest c 16
          (omega (
            arith,
            length-append (le_bytes 8 a) (le_bytes 8 b),
            length-le_bytes 8 a,
            length-le_bytes 8 b,
          ))
          hc,
)

file_of :
    (m : TranManager)
    → (rest : Bytes) × ((write_tranc_id_file m).tranc_id_file
        ≡ le_bytes 8 m.next_transaction_id
          ++ (le_bytes 8 m.max_flushed_tranc_id ++ (le_bytes 8 m.max_finished_tranc_id ++ rest)))
unfolding write_tranc_id_file
file_of m =
    let a = le_bytes 8 m.next_transaction_id in
    let b = le_bytes 8 m.max_flushed_tranc_id in
    let c = le_bytes 8 m.max_finished_tranc_id in
    (
      _,
      write_front_lem (a ++ (b ++ c)) m.tranc_id_file
          ∙ append_assoc a (b ++ c) _
          ∙ ap (λ t. a ++ t) (append_assoc b c _),
    )

open_manager-ok :
    (w : Wal) (file : Bytes) (a b c : ℕ)
    → read_uint64 file 0 ≡ ok a
    → read_uint64 file 8 ≡ ok b
    → read_uint64 file 16 ≡ ok c
    → open_manager w file
      ≡ ok (record (new_manager w) {
        next_transaction_id = a;
        max_flushed_tranc_id = b;
        max_finished_tranc_id = c;
        tranc_id_file = file;
      })
unfolding open_manager read_tranc_id_file
open_manager-ok w file a b c p q s = rw (open_manager, read_tranc_id_file, p, q, s) refl

-- A manager that is opened on the file that another has written, over whatever stood in it,
-- continues with the three ids of the other.
pub open_manager-write_tranc_id_file :
    (w : Wal) (m : TranManager)
    → FitsFile m
    → open_manager w (write_tranc_id_file m).tranc_id_file
      ≡ ok (record (new_manager w) {
        next_transaction_id = m.next_transaction_id;
        max_flushed_tranc_id = m.max_flushed_tranc_id;
        max_finished_tranc_id = m.max_finished_tranc_id;
        tranc_id_file = (write_tranc_id_file m).tranc_id_file;
      })
open_manager-write_tranc_id_file w m h =
    let (rest, e) = file_of m in
    let (p, q, s) =
      read_three m.next_transaction_id m.max_flushed_tranc_id m.max_finished_tranc_id rest h.next
        h.flushed h.finished in
    let at = λ (offset : ℕ). ap (λ f. read_uint64 f offset) e in
    open_manager-ok w _ _ _ _ (at 0 ∙ p) (at 8 ∙ q) (at 16 ∙ s)

-- After the flushed id was raised, a restart reads from the file as the flushed id the greater of the
-- old and the raised one, and the other two ids as they were, where the ids fit 64 bits.
pub open_manager-update_max_flushed_tranc_id :
    (w : Wal) (m : TranManager) (id : ℕ)
    → FitsFile m
    → id < 2 ^ 64
    → (m' : TranManager) × (open_manager w (update_max_flushed_tranc_id m id).tranc_id_file ≡ ok m')
      × (m.max_flushed_tranc_id ≤ m'.max_flushed_tranc_id)
      × (id ≤ m'.max_flushed_tranc_id)
      × ((m'.max_flushed_tranc_id ≡ m.max_flushed_tranc_id) ⊎ (m'.max_flushed_tranc_id ≡ id))
      × (m'.max_finished_tranc_id ≡ m.max_finished_tranc_id)
      × (m'.next_transaction_id ≡ m.next_transaction_id)
unfolding update_max_flushed_tranc_id raise
open_manager-update_max_flushed_tranc_id w m id h l =
    let raised = record m { max_flushed_tranc_id = raise m.max_flushed_tranc_id id } in
    (
      _,
      open_manager-write_tranc_id_file w raised
          (record { next = h.next; flushed = ground (arith, h.flushed); finished = h.finished }),
      ground arith,
      ground arith,
      raised_cases,
      refl,
      refl,
    )
  where
    raised_cases :
        (raise m.max_flushed_tranc_id id ≡ m.max_flushed_tranc_id)
        ⊎ (raise m.max_flushed_tranc_id id ≡ id)
    raised_cases = elim (Bool-cases (ltb m.max_flushed_tranc_id id)) [
      | inl e ↦ inr (rw e refl)
      | inr e ↦ inl (rw e refl)
    ]
