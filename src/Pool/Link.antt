-- ===== src/Pool/Link.antt =====
-- The queue of the session (job_dispatch of Commands/Common) stands for the ring of src/datachan.c.
use openps3ftp.Base.{ℕ, ◌≡◌, ◌∙◌, ap, refl, sym, subst, leb, length, Bool-cases, inl, inr}
use openps3ftp.Session.{State}
use openps3ftp.Commands.Common.{job_dispatch}
use openps3ftp.Pool.{Pool, dispatch}
use openps3ftp.Pool.Refine.{Represents, enqueue, dispatch-Represents}

module _ {W : Type 0} where
  job_dispatch-enqueue :
      (i : ℕ) (s : State W)
      → ((job_dispatch i s).0 ≡ (enqueue s.server.queue_cap i s.server.queue).0)
        × ((job_dispatch i s).1.server.queue ≡ (enqueue s.server.queue_cap i s.server.queue).1)
  unfolding job_dispatch enqueue
  job_dispatch-enqueue i s = elim (Bool-cases (leb s.server.queue_cap (length s.server.queue))) [
    | inl full ↦ rw full (refl, refl)
    | inr free ↦ rw free (refl, refl)
  ]

  -- When the ring holds the jobs of the session's queue, and has its capacity, dispatching a job to the ring succeeds
  -- exactly when dispatching it in the session does, and the ring holds the jobs of the session's queue again.
  pub dispatch-job_dispatch :
      (i : ℕ) (r : Pool) (s : State W)
      → Represents r s.server.queue
      → r.cap ≡ s.server.queue_cap
      → ((dispatch i r).0 ≡ (job_dispatch i s).0)
        × Represents (dispatch i r).1 (job_dispatch i s).1.server.queue
  dispatch-job_dispatch i r s h same =
      let d = dispatch-Represents i r s.server.queue h in
      let e = job_dispatch-enqueue i s in
      (
        d.0 ∙ ap (λ c. (enqueue c i s.server.queue).0) same ∙ sym e.0,
        subst (Represents (dispatch i r).1)
            (ap (λ c. (enqueue c i s.server.queue).1) same ∙ sym e.1) d.1,
      )
