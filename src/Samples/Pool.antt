-- ===== src/Samples/Pool.antt =====
-- The theorems on the ring of jobs at sample values.
use openps3ftp.Base.{◌≤◌, ◌<◌, ◌≡◌, refl, true, [], ◌∷◌, arith, length}
use openps3ftp.Commands.Common.{job_dispatch}
use openps3ftp.Pool.{set_workers, datachan_init, dispatch}
use openps3ftp.Pool.Refine.{Represents, datachan_init-Represents, dispatch-Represents, enqueue}
use openps3ftp.Pool.Runs.{
  dispatched, turned, stopped, run_pool, run_queue, pool_after, datachan_init_refines,
  pool_after_bounds,
}
use openps3ftp.Pool.Link.{dispatch-job_dispatch}
use openps3ftp.Samples.{sample}

datachan_init_refines_example :
    run_pool
      (datachan_init 1)
      (dispatched 7 ∷ dispatched 8 ∷ dispatched 9 ∷ turned ∷ stopped ∷ turned ∷ turned ∷ [])
    ≡ run_queue 2 true []
        (dispatched 7 ∷ dispatched 8 ∷ dispatched 9 ∷ turned ∷ stopped ∷ turned ∷ turned ∷ [])
datachan_init_refines_example =
    datachan_init_refines 1
      (dispatched 7 ∷ dispatched 8 ∷ dispatched 9 ∷ turned ∷ stopped ∷ turned ∷ turned ∷ [])
      (omega arith)

two_queued : Represents (dispatch 8 (dispatch 7 (datachan_init 1)).1).1 (7 ∷ 8 ∷ [])
unfolding enqueue datachan_init dispatch
two_queued =
    (dispatch-Represents 8 (dispatch 7 (datachan_init 1)).1 (7 ∷ [])
      (dispatch-Represents 7 (datachan_init 1) [] (datachan_init-Represents 1 (omega arith))).1).1

pool_after_bounds_example :
    let r =
      pool_after (datachan_init (set_workers 200 2)) (dispatched 7 ∷ turned ∷ dispatched 8 ∷ []) in
    (r.head < length r.slots)
    × (r.tail < length r.slots)
    × (r.count ≤ length r.slots)
    × (length r.slots ≤ 128)
pool_after_bounds_example = pool_after_bounds 200 (dispatched 7 ∷ turned ∷ dispatched 8 ∷ [])

dispatch-job_dispatch_example :
    ((dispatch 3 (datachan_init 8)).0 ≡ (job_dispatch 3 sample).0)
    × Represents (dispatch 3 (datachan_init 8)).1 (job_dispatch 3 sample).1.server.queue
unfolding datachan_init
dispatch-job_dispatch_example =
    dispatch-job_dispatch 3 (datachan_init 8) sample (datachan_init-Represents 8 (omega arith)) refl
