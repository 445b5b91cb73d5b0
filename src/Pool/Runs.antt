-- ===== src/Pool/Runs.antt =====
-- Runs of the ring of src/datachan.c, against a queue.
use openps3ftp.Base.{
  ℕ, ◌+◌, ◌*◌, ◌≤◌, ◌<◌, ◌≡◌, refl, ◌∙◌, ap, Bool, true, false, Option, some, List, [], ◌∷◌, ◌++◌,
  arith, map, length, replicate,
}
use openps3ftp.Pool.{
  Pool, Turn, leave, start, set_workers, datachan_init, dispatch, worker_turn, datachan_stop,
}
use openps3ftp.Pool.Valid.{
  IsValid, wrap-lt, datachan_init-IsValid, dispatch-IsValid, worker_turn-IsValid,
}
use openps3ftp.Pool.Refine.{
  Represents, enqueue, next_job, dispatch-Represents, worker_turn-Represents,
  datachan_stop-Represents, datachan_init-Represents,
}

-- What happens to the pool: the reactor dispatches a job, a worker takes its turn, the server stops the pool.
pub data Event : Type 0 where
  dispatched : ℕ → Event
  turned stopped : Event

-- what the caller learns
pub data Answer : Type 0 where
  accepted : Bool → Answer
  to_do : Turn → Answer
  cancelled : List (Option ℕ) → Answer

pub run_pool : Pool → List Event → List Answer
run_pool r [] = []
run_pool r (dispatched j ∷ es) = let t = dispatch j r in accepted t.0 ∷ run_pool t.1 es
run_pool r (turned ∷ es) = let t = worker_turn r in to_do t.0 ∷ run_pool t.1 es
run_pool r (stopped ∷ es) = let t = datachan_stop r in cancelled t.0 ∷ run_pool t.1 es

-- The same of a queue of jobs with a capacity.
pub run_queue : ℕ → Bool → List ℕ → List Event → List Answer
run_queue size running q [] = []
run_queue size running q (dispatched j ∷ es) =
    let t = enqueue size j q in accepted t.0 ∷ run_queue size running t.1 es
run_queue size running q (turned ∷ es) =
    let t = next_job running q in to_do t.0 ∷ run_queue size running t.1 es
run_queue size running q (stopped ∷ es) =
    cancelled (map (λ (j : ℕ). some j) q) ∷ run_queue size false q es

dispatch_keeps :
    (j : ℕ) (r : Pool) → ((dispatch j r).1.cap ≡ r.cap) × ((dispatch j r).1.running ≡ r.running)
unfolding dispatch
dispatch_keeps j r = ground arith

worker_turn_keeps :
    (r : Pool) → ((worker_turn r).1.cap ≡ r.cap) × ((worker_turn r).1.running ≡ r.running)
unfolding worker_turn
worker_turn_keeps r = ground arith

-- the answers from a later pool, whose capacity and flag are known
answers_from :
    (t : Pool) (size : ℕ) (running : Bool) (q : List ℕ) (es : List Event)
    → run_pool t es ≡ run_queue t.cap t.running q es
    → t.cap ≡ size
    → t.running ≡ running
    → run_pool t es ≡ run_queue size running q es
answers_from t size running q es h c b =
    h ∙ ap (λ n. run_queue n t.running q es) c ∙ ap (λ f. run_queue size f q es) b

-- Whatever the reactor, the workers and the server do to the ring in whatever order, they get the answers of a queue.
pub run_pool-Represents :
    (r : Pool) (q : List ℕ) (es : List Event)
    → Represents r q
    → run_pool r es ≡ run_queue r.cap r.running q es
unfolding run_pool run_queue
run_pool-Represents r q [] h = refl
run_pool-Represents r q (dispatched j ∷ es) h =
    let d = dispatch-Represents j r q h in
    let t = (dispatch j r).1 in
    ap (λ a. accepted a ∷ run_pool t es) d.0
    ∙ ap (λ l. accepted (enqueue r.cap j q).0 ∷ l)
        (answers_from t r.cap r.running (enqueue r.cap j q).1 es
          (run_pool-Represents t (enqueue r.cap j q).1 es d.1) (dispatch_keeps j r).0
          (dispatch_keeps j r).1)
run_pool-Represents r q (turned ∷ es) h =
    let d = worker_turn-Represents r q h in
    let t = (worker_turn r).1 in
    ap (λ a. to_do a ∷ run_pool t es) d.0
    ∙ ap (λ l. to_do (next_job r.running q).0 ∷ l)
        (answers_from t r.cap r.running (next_job r.running q).1 es
          (run_pool-Represents t (next_job r.running q).1 es d.1) (worker_turn_keeps r).0
          (worker_turn_keeps r).1)
run_pool-Represents r q (stopped ∷ es) h =
    let d = datachan_stop-Represents r q h in
    let t = (datachan_stop r).1 in
    ap (λ a. cancelled a ∷ run_pool t es) d.0
    ∙ ap (λ l. cancelled (map (λ (j : ℕ). some j) q) ∷ l)
        (answers_from t r.cap false q es (run_pool-Represents t q es d.1)
          (unfold datachan_stop in refl) (unfold datachan_stop in refl))

-- Whatever the reactor, the workers and the server do to the ring that was made for some workers, in whatever order, they
-- get the answers of a queue: jobs are taken in the order in which they were dispatched, a job is refused exactly when
-- twice as many as there are workers wait, a worker leaves only when the pool has stopped and no job waits, and the stop
-- cancels the waiting jobs.
pub datachan_init_refines :
    (n : ℕ) (es : List Event) → 0 < n → run_pool (datachan_init n) es ≡ run_queue (n * 2) true [] es
unfolding datachan_init
datachan_init_refines n es h =
    run_pool-Represents (datachan_init n) [] es (datachan_init-Represents n h)

-- the turns of workers that take these jobs
pub drained : List ℕ → List Answer
drained [] = []
drained (j ∷ q) = to_do (start (some j)) ∷ drained q

run_queue-turns :
    (size : ℕ) (q : List ℕ) (es : List Event)
    → run_queue size false q (replicate (length q) turned ++ es)
      ≡ drained q ++ run_queue size false [] es
unfolding run_queue next_job drained
run_queue-turns size [] es = refl
run_queue-turns size (j ∷ q) es = ap (λ l. to_do (start (some j)) ∷ l) (run_queue-turns size q es)

-- When the pool stops with jobs waiting, the stop cancels them all; as many turns of workers take every one of them, in
-- order, and the next turn is to leave.
pub stop_drains :
    (r : Pool) (q : List ℕ)
    → Represents r q
    → run_pool r (stopped ∷ replicate (length q) turned ++ turned ∷ [])
      ≡ cancelled (map (λ (j : ℕ). some j) q) ∷ drained q ++ to_do leave ∷ []
unfolding run_queue next_job
stop_drains r q h =
    run_pool-Represents r q (stopped ∷ replicate (length q) turned ++ turned ∷ []) h
    ∙ ap (λ l. cancelled (map (λ (j : ℕ). some j) q) ∷ l) (run_queue-turns r.cap q (turned ∷ []))

-- the pool after these events
pub pool_after : Pool → List Event → Pool
pool_after r [] = r
pool_after r (dispatched j ∷ es) = pool_after (dispatch j r).1 es
pool_after r (turned ∷ es) = pool_after (worker_turn r).1 es
pool_after r (stopped ∷ es) = pool_after (datachan_stop r).1 es

datachan_stop-IsValid : (r : Pool) → IsValid r → IsValid (datachan_stop r).1
unfolding datachan_stop
datachan_stop-IsValid r v = ground arith

pool_after-IsValid :
    (r : Pool) (es : List Event)
    → IsValid r
    → IsValid (pool_after r es) × ((pool_after r es).cap ≡ r.cap)
unfolding pool_after
pool_after-IsValid r [] v = (v, refl)
pool_after-IsValid r (dispatched j ∷ es) v =
    let t = pool_after-IsValid (dispatch j r).1 es (dispatch-IsValid j r v) in
    (t.0, t.1 ∙ (dispatch_keeps j r).0)
pool_after-IsValid r (turned ∷ es) v =
    let t = pool_after-IsValid (worker_turn r).1 es (worker_turn-IsValid r v) in
    (t.0, t.1 ∙ (worker_turn_keeps r).0)
pool_after-IsValid r (stopped ∷ es) v =
    let t = pool_after-IsValid (datachan_stop r).1 es (datachan_stop-IsValid r v) in
    (t.0, t.1 ∙ (unfold datachan_stop in refl))

set_workers_bounds :
    (n old : ℕ) → 0 < old → old ≤ 64 → (0 < set_workers n old) × (set_workers n old ≤ 64)
unfolding set_workers
set_workers_bounds n old h k = ground arith

-- Whatever number of workers was asked for, and whatever happened to the pool since it was made with two or with that
-- number, no index leaves the array, which has at most 128 entries, and no more jobs wait than it has.
pub pool_after_bounds :
    (n : ℕ) (es : List Event)
    → let r = pool_after (datachan_init (set_workers n 2)) es in
      (r.head < length r.slots)
      × (r.tail < length r.slots)
      × (r.count ≤ length r.slots)
      × (length r.slots ≤ 128)
pool_after_bounds n es =
    let w = set_workers n 2 in
    let b = set_workers_bounds n 2 (omega arith) (omega arith) in
    let t = pool_after-IsValid (datachan_init w) es (datachan_init-IsValid w b.0) in
    let v = t.0 in
    let r = pool_after (datachan_init w) es in
    let small : r.cap ≡ w * 2 = t.1 ∙ (unfold datachan_init in refl) in
    (
      omega (arith, v.head_in, v.storage),
      omega (
        arith,
        v.storage,
        v.tail_at,
        wrap-lt r.cap (r.head + r.count) (omega (arith, v.head_in, v.count_in)),
      ),
      omega (arith, v.count_in, v.storage),
      omega (arith, v.storage, small, b.1),
    )
