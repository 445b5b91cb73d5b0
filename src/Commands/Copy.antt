-- ===== src/Commands/Copy.antt =====
-- CPTO of src/commands.c: which copies are made into jobs.
use openps3ftp.Base.{
  ℕ, ◌≡◌, ◌≢◌, str_eq_iff, ◌⊎◌, refl, sym, ◌∙◌, ap, subst, Bool, true, false, Option, none, some,
  [], ◌∷◌, ◌++◌, arith, Bytes, length, get_elem?, Bool-cases, Option-cases, inl, inr, str_eq,
  snprintf,
}
use openps3ftp.Session.{JobOp, Job, Client, Server, State, Fs, Os}
use openps3ftp.Path.{max_path}
use openps3ftp.Rooted.Frame.{Frame, session}
use openps3ftp.Commands.Common.{
  Param, resolve_arg, parent_is_dir, path_is_under, blank_job, new_job, job_dispatch, on_job,
}
use openps3ftp.Worker.Copy.{copy_path}
use openps3ftp.Worker.Copied.{copy_path-under}
use openps3ftp.Commands.Jobs.{update_nth-last, get_elem?-last, job_free-session}
use openps3ftp.Commands.Parent.{parent_is_dir-Frame}
use openps3ftp.Commands.Files.{copy_to, copy_job, copy_sent, forget_cpfr, cmd_cpto}

-- The jobs after CPTO to `path`: as before, or with one more, a copy of the stored source to `path`, which is
-- then neither the source nor a path that the copy makes of something in the source.
pub record IsCopy (path : Bytes) (q t : Client × Server) : Type 0 where
  pub differs : path ≢ q.0.cpfr
  pub outside : (c : ℕ) (below : Bytes) → path ≢ copy_path q.0.cpfr (c ∷ below)
  pub idle : q.0.job ≡ none
  pub made : Job
  pub is_copy : made.op ≡ JobOp.copy
  pub source : made.path ≡ snprintf max_path q.0.cpfr
  pub target : made.dst ≡ snprintf max_path path
  pub jobs : t.1.jobs ≡ q.1.jobs ++ made ∷ []

abbrev pub CopyOutcome : Bytes → Client × Server → Client × Server → Type 0
CopyOutcome path q t = (t.1.jobs ≡ q.1.jobs) ⊎ IsCopy path q t

module _ {W : Type 0} (fs : Fs W) (os : Os W) where
  abbrev filled : Bytes → State W → Job → Job
  filled path s j = record j {
    path = snprintf max_path s.client.cpfr;
    dst = snprintf max_path path;
  }

  -- after the job is in the table: dispatched, or freed
  copy_sent-jobs :
      (i : ℕ) (j : Job) (r : Bool × State W)
      → get_elem? r.1.server.jobs i ≡ some j
      → (copy_sent fs os i r).server.jobs ≡ r.1.server.jobs
  copy_sent-jobs i j (true, s) e = refl
  copy_sent-jobs i j (false, s) e = ap (λ p. p.1.jobs) (job_free-session os i j s e)

  job_dispatch-jobs : (i : ℕ) (s : State W) → (job_dispatch i s).1.server.jobs ≡ s.server.jobs
  unfolding job_dispatch
  job_dispatch-jobs i s = ground arith

  copy_to-outcome :
      (path : Bytes) (r : Bool × State W)
      → r.1.client.job ≡ none
      → CopyOutcome path (session r.1) (session (copy_to fs os path r))
  unfolding copy_to
  copy_to-outcome path (false, s) idle = inl refl
  copy_to-outcome path (true, s) idle = elim (Bool-cases (str_eq s.client.cpfr path)) [
    | inl same ↦ rw (same, copy_to) (inl refl)
    | inr differs ↦ elim (Bool-cases (path_is_under path s.client.cpfr)) [
      | inl inside ↦ rw (differs, inside, copy_to) (inl refl)
      | inr outside ↦ rw (differs, outside, copy_to) (by_pipe (os.pipe s.world) differs outside)
    ]
  ]
    where
      by_pipe :
          (r : Option (ℕ × ℕ) × W)
          → str_eq s.client.cpfr path ≡ false
          → path_is_under path s.client.cpfr ≡ false
          → CopyOutcome path
              (session s)
              (session (copy_job fs os path (new_job JobOp.copy r (forget_cpfr fs os s))))
      by_pipe (none, w) differs outside = inl refl
      by_pipe (some pipe, w) differs outside =
          let s' = (new_job JobOp.copy (some pipe, w) (forget_cpfr fs os s)).1 in
          let i = length s.server.jobs in
          let j = blank_job s JobOp.copy pipe in
          let put = on_job i (filled path s) s' in
          let table : put.server.jobs ≡ s.server.jobs ++ filled path s j ∷ [] =
            update_nth-last s.server.jobs (filled path s) j in
          let there =
            ap (λ l. get_elem? l i) (job_dispatch-jobs i put ∙ table)
            ∙ get_elem?-last s.server.jobs (filled path s j) in
          inr (record {
            differs = λ e.
                let same : true ≡ false =
                  sym ((str_eq_iff s.client.cpfr path).1 (sym e)) ∙ differs in
                absurd cc;
            outside = λ c below e.
                let under : path_is_under path s.client.cpfr ≡ true =
                  ap (λ p. path_is_under p s.client.cpfr) e
                  ∙ copy_path-under s.client.cpfr c below in
                let both : true ≡ false = sym under ∙ outside in absurd cc;
            idle = idle;
            made = filled path s j;
            is_copy = refl;
            source = refl;
            target = refl;
            jobs =
                copy_sent-jobs i (filled path s j) (job_dispatch i put) there
                ∙ job_dispatch-jobs i put
                ∙ table;
          })

  -- CPTO adds at most one job. It adds one only with a source stored by CPFR and no transfer active, and the
  -- job copies that source to the path that the argument resolves to, which is neither the source nor a path
  -- that a copy joins from the source and the name of something in it.
  pub cmd_cpto-outcome :
      (p : Param) (s : State W)
      → let t = cmd_cpto fs os p s in
        (t.server.jobs ≡ s.server.jobs)
        ⊎ ((s.client.have_cpfr ≡ true)
            × ((path : Bytes) × (resolve_arg p s ≡ some path)
                × IsCopy path (session s) (session t)))
  unfolding cmd_cpto
  cmd_cpto-outcome p s = elim (Bool-cases s.client.have_cpfr) [
    | inr none_stored ↦ inl (ground arith)
    | inl stored ↦ elim (Option-cases s.client.job) [
      | inr (i, busy) ↦ inl (ground arith)
      | inl idle ↦ elim (Option-cases (resolve_arg p s)) [
        | inl n ↦ inl (ground (arith, n))
        | inr (path, e) ↦
            let r = parent_is_dir fs os path s in
            let same : Frame s r.1 = parent_is_dir-Frame fs os path s in
            let made : CopyOutcome path (session s) (session (copy_to fs os path r)) =
              subst (λ q. CopyOutcome path q (session (copy_to fs os path r))) same
                (copy_to-outcome path r (ap (λ q. q.0.job) same ∙ idle)) in
            let computed : cmd_cpto fs os p s ≡ copy_to fs os path r = rw (e, stored, idle) refl in
            report path stored e
              (subst (λ t. CopyOutcome path (session s) (session t)) (sym computed) made)
      ]
    ]
  ]
    where
      report :
          (path : Bytes)
          → s.client.have_cpfr ≡ true
          → resolve_arg p s ≡ some path
          → CopyOutcome path (session s) (session (cmd_cpto fs os p s))
          → ((cmd_cpto fs os p s).server.jobs ≡ s.server.jobs)
            ⊎ ((s.client.have_cpfr ≡ true)
                × ((path : Bytes) × (resolve_arg p s ≡ some path)
                    × IsCopy path (session s) (session (cmd_cpto fs os p s))))
      report path stored e (inl same) = inl same
      report path stored e (inr made) = inr (stored, (path, e, made))
