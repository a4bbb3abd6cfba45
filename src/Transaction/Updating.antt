-- ===== src/Transaction/Updating.antt =====
-- The loop of `compare_exchange_weak` in `TranManager::update_max_finished_tranc_id` and
-- `update_max_flushed_tranc_id` (src/lsm/transation.cpp), run by several threads at once.
use mini_redis.Common.{ℕ, ◌≤◌, ◌<◌, List, [], ◌∷◌, arith, All, map}

-- Where a thread stands: before the first load, with a value it expects, or behind the loop.
pub data Phase : Type 0 where
  not_loaded : Phase
  expects : ℕ → Phase
  finished : Phase

-- One step of the thread that raises the atomic to `id`. An exchange may fail at any time, since it
-- is the weak one; it then loads the value.
pub data Step (id : ℕ) : ℕ → Phase → ℕ → Phase → Type 0 where
  loads : (v : ℕ) → Step id v not_loaded v (expects v)
  leaves : (v expected : ℕ) → id ≤ expected → Step id v (expects expected) v finished
  exchanges : (v : ℕ) → v < id → Step id v (expects v) id finished
  retries : (v expected : ℕ) → expected < id → Step id v (expects expected) v (expects v)

-- A thread and the id it raises to.
abbrev pub Updater : Type 0
Updater = ℕ × Phase

-- One thread of several makes a step.
pub data Turn : ℕ → List Updater → ℕ → List Updater → Type 0 where
  here :
      (id v v' : ℕ) (p p' : Phase) (us : List Updater)
      → Step id v p v' p'
      → Turn v ((id, p) ∷ us) v' ((id, p') ∷ us)
  there :
      (v v' : ℕ) (u : Updater) (us us' : List Updater)
      → Turn v us v' us'
      → Turn v (u ∷ us) v' (u ∷ us')

pub data Run : ℕ → List Updater → ℕ → List Updater → Type 0 where
  stops : (v : ℕ) (us : List Updater) → Run v us v us
  turns :
      (v v' v'' : ℕ) (us us' us'' : List Updater)
      → Turn v us v' us'
      → Run v' us' v'' us''
      → Run v us v'' us''

-- What holds of a thread at every moment: it expects a value that the atomic has reached, and
-- behind the loop the atomic has reached its id.
abbrev Sound : ℕ → Updater → Type 0
Sound v (id, not_loaded) = Unit
Sound v (id, expects expected) = expected ≤ v
Sound v (id, finished) = id ≤ v

Sound-later : (v v' : ℕ) (u : Updater) → v ≤ v' → Sound v u → Sound v' u
Sound-later v v' (id, not_loaded) h s = tt
Sound-later v v' (id, expects e) h s = omega arith
Sound-later v v' (id, finished) h s = omega arith

Step-le : {id v v' : ℕ} {p p' : Phase} → Step id v p v' p' → v ≤ v'
Step-le (loads v) = omega arith
Step-le (leaves v e h) = omega arith
Step-le (exchanges v h) = omega arith
Step-le (retries v e h) = omega arith

Step-Sound : {id v v' : ℕ} {p p' : Phase} → Step id v p v' p' → Sound v (id, p) → Sound v' (id, p')
Step-Sound (loads v) s = omega arith
Step-Sound (leaves v e h) s = omega arith
Step-Sound (exchanges v h) s = omega arith
Step-Sound (retries v e h) s = omega arith

Turn-le : {v v' : ℕ} {us us' : List Updater} → Turn v us v' us' → v ≤ v'
Turn-le (here id v v' p p' us s) = Step-le s
Turn-le (there v v' u us us' t) = Turn-le t

Sound-later-All : (v v' : ℕ) (us : List Updater) → v ≤ v' → All (Sound v) us → All (Sound v') us
Sound-later-All v v' [] h s = tt
Sound-later-All v v' (u ∷ us) h (s, ss) = (Sound-later v v' u h s, Sound-later-All v v' us h ss)

Turn-Sound :
    {v v' : ℕ} {us us' : List Updater} → Turn v us v' us' → All (Sound v) us → All (Sound v') us'
Turn-Sound (here id v v' p p' us s) (h, hs) =
    (Step-Sound s h, Sound-later-All v v' us (Step-le s) hs)
Turn-Sound (there v v' u us us' t) (h, hs) = (Sound-later v v' u (Turn-le t) h, Turn-Sound t hs)

-- No thread raises the value above a bound of the ids.
abbrev pub Below : ℕ → Updater → Type 0
Below b (id, p) = id ≤ b

Step-bound : {id v v' : ℕ} {p p' : Phase} (b : ℕ) → Step id v p v' p' → id ≤ b → v ≤ b → v' ≤ b
Step-bound b (loads v) i h = h
Step-bound b (leaves v e l) i h = h
Step-bound b (exchanges v l) i h = i
Step-bound b (retries v e l) i h = h

Turn-bound :
    {v v' : ℕ} {us us' : List Updater} (b : ℕ)
    → Turn v us v' us'
    → All (Below b) us
    → v ≤ b
    → (v' ≤ b) × All (Below b) us'
Turn-bound b (here id v v' p p' us s) (i, is) h = (Step-bound b s i h, (i, is))
Turn-bound b (there v v' u us us' t) (i, is) h = let (l, is') = Turn-bound b t is h in (l, (i, is'))

Run-le : {v v' : ℕ} {us us' : List Updater} → Run v us v' us' → v ≤ v'
Run-le (stops v us) = omega arith
Run-le (turns v v' v'' us us' us'' t r) = omega (arith, Turn-le t, Run-le r)

Run-Sound :
    {v v' : ℕ} {us us' : List Updater} → Run v us v' us' → All (Sound v) us → All (Sound v') us'
Run-Sound (stops v us) h = h
Run-Sound (turns v v' v'' us us' us'' t r) h = Run-Sound r (Turn-Sound t h)

Run-bound :
    {v v' : ℕ} {us us' : List Updater} (b : ℕ) → Run v us v' us' → All (Below b) us → v ≤ b → v' ≤ b
Run-bound b (stops v us) i h = h
Run-bound b (turns v v' v'' us us' us'' t r) i h =
    let (l, i') = Turn-bound b t i h in Run-bound b r i' l

-- The threads before their first load, and behind the loop, by their ids.
abbrev pub starting : List ℕ → List Updater
starting ids = map (λ id. (id, not_loaded)) ids

abbrev pub ended : List ℕ → List Updater
ended ids = map (λ id. (id, finished)) ids

starting-Sound : (v : ℕ) (ids : List ℕ) → All (Sound v) (starting ids)
starting-Sound v [] = tt
starting-Sound v (id ∷ ids) = (tt, starting-Sound v ids)

ended-le : (v : ℕ) (ids : List ℕ) → All (Sound v) (ended ids) → All (λ id. id ≤ v) ids
ended-le v [] h = tt
ended-le v (id ∷ ids) (h, hs) = (h, ended-le v ids hs)

starting-Below : (b : ℕ) (ids : List ℕ) → All (λ id. id ≤ b) ids → All (Below b) (starting ids)
starting-Below b [] h = tt
starting-Below b (id ∷ ids) (h, hs) = (h, starting-Below b ids hs)

-- However the threads interleave and however often an exchange fails, when all have left the loop
-- the atomic holds the least number that is no less than its first value and than every id.
pub Run-least_bound :
    (v v' : ℕ) (ids : List ℕ)
    → Run v (starting ids) v' (ended ids)
    → (v ≤ v') × All (λ id. id ≤ v') ids × ((b : ℕ) → v ≤ b → All (λ id. id ≤ b) ids → v' ≤ b)
Run-least_bound v v' ids r = (
  Run-le r,
  ended-le v' ids (Run-Sound r (starting-Sound v ids)),
  λ b h hs. Run-bound b r (starting-Below b ids hs) h,
)
