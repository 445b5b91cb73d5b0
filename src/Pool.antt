-- ===== src/Pool.antt =====
-- src/datachan.c: the ring of jobs between the reactor and the workers.
-- The operations stand for the parts of the code that hold `queue_mutex`.
pub mod Valid
pub mod Refine
pub mod Runs
pub mod Link
use openps3ftp.Base.{
  ℕ, zero, suc, ◌+◌, ◌-◌, ◌*◌, ◌%◌, Bool, true, false, not, ◌&&◌, Option, none, some, List, [], ◌∷◌,
  ◌==◌, leb, ltb, if◌then◌else◌, replicate, set, get_elem?, length,
}

-- queue, queue_cap, queue_head, queue_tail, queue_count and pool_running of struct opftp_server; an entry of the array
-- is a pointer to a job, `none` for NULL
pub record Pool : Type 0 where
  pub slots : List (Option ℕ)
  pub cap : ℕ
  pub head : ℕ
  pub tail : ℕ
  pub count : ℕ
  pub running : Bool

-- opftp_server_set_workers, on the number of workers asked for
unfoldable pub set_workers : ℕ → ℕ → ℕ
set_workers n old = if ltb 0 n && leb n 64 then n else old

-- opftp_datachan_init
unfoldable pub datachan_init : ℕ → Pool
datachan_init workers = record {
  slots = replicate (workers * 2) none;
  cap = workers * 2;
  head = 0;
  tail = 0;
  count = 0;
  running = true;
}

-- opftp_job_dispatch; `false` is -EAGAIN
unfoldable pub dispatch : ℕ → Pool → Bool × Pool
dispatch j r = if leb r.cap r.count then (false, r) else (
  true,
  record r {
    slots = set r.slots r.tail (some j);
    tail = (r.tail + 1) % r.cap;
    count = r.count + 1;
  },
)

-- what a worker does next
pub data Turn : Type 0 where
  sleep leave : Turn
  start : Option ℕ → Turn

-- a read of the array; beyond its end the code would read what is not its own
abbrev pub slot_at : List (Option ℕ) → ℕ → Option ℕ
slot_at xs i = elim (get_elem? xs i) [ none ↦ none | some x ↦ x ]

-- One turn of opftp_transfer_worker with the lock held: it waits, leaves, or takes a job.
unfoldable pub worker_turn : Pool → Turn × Pool
worker_turn r = if r.count == 0 then (if r.running then sleep else leave, r) else (
  start (slot_at r.slots r.head),
  record r { head = (r.head + 1) % r.cap; count = r.count - 1 },
)

-- opftp_datachan_shutdown: the pool stops, and the jobs that its loop cancels
unfoldable pub walk_queue : ℕ → ℕ → Pool → List (Option ℕ)
walk_queue i zero r = []
walk_queue i (suc n) r = slot_at r.slots ((r.head + i) % r.cap) ∷ walk_queue (i + 1) n r

unfoldable pub datachan_stop : Pool → List (Option ℕ) × Pool
unfolding walk_queue
datachan_stop r = (walk_queue 0 r.count r, record r { running = false })
