-- ===== src/Commands/Step/Files.antt =====
-- The commands on paths: src/commands.c.
use openps3ftp.Base.{
  ℕ, ◌≡◌, refl, sym, ◌∙◌, ap, Bool, true, false, not, ◌||◌, Option, none, some, [], ◌∷◌, append-nil,
  arith, Bytes, codes, if_both, option_both, option_both_eq, All, subst, str_eq, snprintf, leb,
  length, get_elem?, Bool-cases, inl, inr,
}
use openps3ftp.Session.{Result, ok, err, Stat, JobOp, Job, State, Fs, Os}
use openps3ftp.Path.{max_path}
use openps3ftp.Listing.{is_dir, is_reg}
use openps3ftp.Rooted.{r_stat, r_mkdir, r_rmdir, r_unlink, r_rename}
use openps3ftp.Rooted.Frame.{Frame, guarded-Frame, r_rename-Frame}
use openps3ftp.Commands.Common.{
  Param, no_arg, resolve_arg, parent_is_dir, path_is_under, job_new, new_job, job_dispatch,
  job_free, on_job, blank_job, r250,
}
use openps3ftp.Commands.Parent.{parent_is_dir-Frame}
use openps3ftp.Commands.Files.{
  cmd_pwd, visible, change_dir, cmd_cwd, cmd_cdup, finish, make_dir, cmd_mkd, cmd_rmd, cmd_dele,
  rename_from, cmd_rnfr, rename_to, cmd_rnto, forget_rnfr, copy_from, cmd_cpfr, copy_to, copy_job,
  forget_cpfr, cmd_cpto,
}
use openps3ftp.Path.Join.{IsRoot}
use openps3ftp.Path.Walk.{IsClean}
use openps3ftp.Path.Tokens.{tokens}
use openps3ftp.Commands.Cwd.{IsCanonical, stored-IsClean}
use openps3ftp.Commands.Jobs.{update_nth-last, get_elem?-last, job_free-session}
use openps3ftp.Commands.Step.Jobs.{begun-Step, freed-Step, idle_both}
use openps3ftp.Commands.Step.{Step, Step-trans, quiet, send-Step, after-Step}

module _ {W : Type 0} (fs : Fs W) (os : Os W) where
  pub cmd_pwd-Step : (p : Param) (s : State W) → Step s (cmd_pwd p s)
  unfolding cmd_pwd
  cmd_pwd-Step p s = send-Step _ s

  finish-Step :
      (code : ℕ) (msg : Bytes) (r : Result (Unit {0}) × State W)
      → Step r.1 (finish fs os code msg r)
  finish-Step code msg (ok u, s) = send-Step _ s
  finish-Step code msg (err e, s) = send-Step _ s

  pub cmd_rmd-Step : (p : Param) (s : State W) → Step s (cmd_rmd fs os p s)
  unfolding cmd_rmd
  cmd_rmd-Step p s = option_both (Step s) (resolve_arg p s) (send-Step _ s) (λ path.
      after-Step s (r_rmdir fs os path s) _ (guarded-Frame os path (fs.rmdir path) s)
        (finish-Step 250 r250 _))

  pub cmd_dele-Step : (p : Param) (s : State W) → Step s (cmd_dele fs os p s)
  unfolding cmd_dele
  cmd_dele-Step p s = option_both (Step s) (resolve_arg p s) (send-Step _ s) (λ path.
      after-Step s (r_unlink fs os path s) _ (guarded-Frame os path (fs.unlink path) s)
        (finish-Step 250 r250 _))

  make_dir-Step : (path : Bytes) (r : Bool × State W) → Step r.1 (make_dir fs os path r)
  unfolding make_dir
  make_dir-Step path (true, s) =
      after-Step s (r_mkdir fs os path 493 s) _ (guarded-Frame os path (fs.mkdir path 493) s)
        (finish-Step 257 _ _)
  make_dir-Step path (false, s) = send-Step _ s

  pub cmd_mkd-Step : (p : Param) (s : State W) → Step s (cmd_mkd fs os p s)
  unfolding cmd_mkd
  cmd_mkd-Step p s = if_both (Step s) (no_arg p) (send-Step _ s) (
      option_both (Step s) (resolve_arg p s) (send-Step _ s) (λ path.
        after-Step s (parent_is_dir fs os path s) _ (parent_is_dir-Frame fs os path s)
          (make_dir-Step path _)))

  rename_from-Step :
      (path : Bytes) (r : Result Stat × State W) → Step r.1 (rename_from fs os path r)
  unfolding rename_from
  rename_from-Step path (ok st, s) = quiet s _ (_ ∷ []) refl refl
  rename_from-Step path (err e, s) = send-Step _ s

  pub cmd_rnfr-Step : (p : Param) (s : State W) → Step s (cmd_rnfr fs os p s)
  unfolding cmd_rnfr
  cmd_rnfr-Step p s = option_both (Step s) (resolve_arg p s) (send-Step _ s) (λ path.
      after-Step s (r_stat fs os path s) _ (guarded-Frame os path (fs.stat path) s)
        (rename_from-Step path _))

  forget_rnfr-Step : (s : State W) → Step s (forget_rnfr fs os s)
  forget_rnfr-Step s = quiet s _ [] refl (sym (append-nil s.client.sent))

  rename_to-Step : (path : Bytes) (r : Bool × State W) → Step r.1 (rename_to fs os path r)
  unfolding rename_to
  rename_to-Step path (true, s) =
      let s' = forget_rnfr fs os s in
      Step-trans (forget_rnfr-Step s) (
        after-Step s' (r_rename fs os s.client.rnfr path s') _
          (r_rename-Frame fs os s.client.rnfr path s') (finish-Step 250 r250 _))
  rename_to-Step path (false, s) = Step-trans (forget_rnfr-Step s) (send-Step _ _)

  pub cmd_rnto-Step : (p : Param) (s : State W) → Step s (cmd_rnto fs os p s)
  unfolding cmd_rnto
  cmd_rnto-Step p s = if_both (Step s) (not s.client.have_rnfr) (send-Step _ s) (
      option_both (Step s) (resolve_arg p s) (Step-trans (forget_rnfr-Step s) (send-Step _ _))
        (λ path.
          after-Step s (parent_is_dir fs os path s) _ (parent_is_dir-Frame fs os path s)
            (rename_to-Step path _)))

  copy_from-Step : (path : Bytes) (r : Result Stat × State W) → Step r.1 (copy_from fs os path r)
  unfolding copy_from
  copy_from-Step path (ok st, s) =
      if_both (Step s) (is_reg st.mode || is_dir st.mode) (quiet s _ (_ ∷ []) refl refl)
        (send-Step _ s)
  copy_from-Step path (err e, s) = send-Step _ s

  pub cmd_cpfr-Step : (p : Param) (s : State W) → Step s (cmd_cpfr fs os p s)
  unfolding cmd_cpfr
  cmd_cpfr-Step p s = option_both (Step s) (resolve_arg p s) (send-Step _ s) (λ path.
      after-Step s (r_stat fs os path s) _ (guarded-Frame os path (fs.stat path) s)
        (copy_from-Step path (r_stat fs os path s)))

  change_dir-Step :
      (path : Bytes) (r : Result Stat × State W)
      → (IsRoot r.1.server.root
          → IsCanonical r.1
          → All IsClean (tokens (visible r.1.server.root path)))
      → Step r.1 (change_dir fs os path r)
  unfolding change_dir
  change_dir-Step path (ok st, s) new =
      if_both (Step s) (is_dir st.mode)
        (record {
          fixed = refl;
          login = λ h. h;
          buffer = omega arith;
          job = λ i h. h;
          refs = refl;
          channel = λ h. h;
          canonical = new;
          sent = (_ ∷ [], refl);
        })
        (send-Step _ s)
  change_dir-Step path (err e, s) new = send-Step _ s

  pub cmd_cwd-Step : (p : Param) (s : State W) → Step s (cmd_cwd fs os p s)
  unfolding cmd_cwd
  cmd_cwd-Step p s = option_both_eq (Step s) (resolve_arg p s) (send-Step _ s) (λ path e.
      let r = r_stat fs os path s in
      let same : Frame s r.1 = guarded-Frame os path (fs.stat path) s in
      after-Step s r (change_dir fs os path r) same (
        change_dir-Step path r (
          subst
            (λ q.
              IsRoot q.1.root
              → All IsClean (tokens q.0.cwd)
              → All IsClean (tokens (visible q.1.root path)))
            (sym same) (λ h clean. stored-IsClean fs os p s h clean e))))

  pub cmd_cdup-Step : (p : Param) (s : State W) → Step s (cmd_cdup fs os p s)
  unfolding cmd_cdup
  cmd_cdup-Step p s = cmd_cwd-Step (some (codes "..")) s

  forget_cpfr-Step : (s : State W) → Step s (forget_cpfr fs os s)
  forget_cpfr-Step s = quiet s _ [] refl (sym (append-nil s.client.sent))

  -- A job made for an idle client: dispatched it is the active one, or it is freed again.
  copy_job-Step :
      (path : Bytes) (r : Option (ℕ × ℕ) × W) (s : State W)
      → s.client.job ≡ none
      → Step s (copy_job fs os path (new_job JobOp.copy r s))
  unfolding job_dispatch
  copy_job-Step path (none, w) s idle = quiet s _ (_ ∷ []) refl refl
  copy_job-Step path (some pipe, w) s idle =
      elim (Bool-cases (leb s.server.queue_cap (length s.server.queue))) [
        | inr free ↦ rw free (
            begun-Step s _ (length s.server.jobs) [] refl idle refl refl (λ h. h)
              (sym (append-nil s.client.sent)))
        | inl full ↦
            let i = length s.server.jobs in
            let f = λ (j : Job). record j {
              path = snprintf max_path s.client.cpfr;
              dst = snprintf max_path path;
            } in
            let s' = on_job i f (new_job JobOp.copy (some pipe, w) s).1 in
            let j = f (blank_job s JobOp.copy pipe) in
            let there : get_elem? s'.server.jobs i ≡ some j =
              rw (update_nth-last s.server.jobs f (blank_job s JobOp.copy pipe))
                (get_elem?-last s.server.jobs j) in
            rw full (
              Step-trans
                (freed-Step s s' (job_free os i s') (job_free-session os i j s' there) refl idle
                  refl refl refl (λ h. h))
                (send-Step _ _))
      ]

  copy_to-Step :
      (path : Bytes) (r : Bool × State W) → r.1.client.job ≡ none → Step r.1 (copy_to fs os path r)
  unfolding copy_to job_new
  copy_to-Step path (true, s) idle =
      let forgot = forget_cpfr-Step s in
      if_both (Step s) (str_eq s.client.cpfr path) (Step-trans forgot (send-Step _ _)) (
        if_both (Step s) (path_is_under path s.client.cpfr) (Step-trans forgot (send-Step _ _))
          (Step-trans forgot (copy_job-Step path (os.pipe s.world) (forget_cpfr fs os s) idle)))
  copy_to-Step path (false, s) idle = Step-trans (forget_cpfr-Step s) (send-Step _ _)

  pub cmd_cpto-Step : (p : Param) (s : State W) → Step s (cmd_cpto fs os p s)
  unfolding cmd_cpto
  cmd_cpto-Step p s = if_both (Step s) (not s.client.have_cpfr) (send-Step _ s) (
      idle_both (Step s) s.client.job (send-Step _ s) (λ idle.
        option_both (Step s) (resolve_arg p s) (Step-trans (forget_cpfr-Step s) (send-Step _ _))
          (λ path.
            let r = parent_is_dir fs os path s in
            let same : Frame s r.1 = parent_is_dir-Frame fs os path s in
            after-Step s r (copy_to fs os path r) same
              (copy_to-Step path r (ap (λ q. q.0.job) same ∙ idle)))))
