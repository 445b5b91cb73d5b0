-- ===== src/Commands/Step/Transfer.antt =====
-- ABOR, the listings and the transfers: src/commands.c.
use openps3ftp.Base.{
  ℕ, zero, suc, ◌+◌, ◌≡◌, refl, sym, ◌∙◌, Bool, true, false, not, ◌&&◌, Option, none, some, [], ◌∷◌,
  ◌++◌, append-nil, arith, Bytes, if_both, option_both, length, get_elem?, leb, ◌==◌, Bool-cases,
  inl, inr,
}
use openps3ftp.Session.{Result, ok, err, Job, JobOp, stor, appe, Stat, State, Fs, Os}
use openps3ftp.Listing.{is_reg}
use openps3ftp.Rooted.{r_stat}
use openps3ftp.Rooted.Frame.{Frame, guarded-Frame}
use openps3ftp.Commands.Common.{
  Param, is_none, resolve_arg, parent_is_dir, new_job, job_new, job_free, job_dispatch, on_job,
  blank_job,
}
use openps3ftp.Commands.Parent.{parent_is_dir-Frame}
use openps3ftp.Commands.Transfer.{
  wake_job, cancel_job, cmd_abor, precheck, fill_job, with_job, start_transfer, listing_arg,
  list_found, start_listing, cmd_list, cmd_nlst, cmd_mlsd, retr_found, cmd_retr, store_to, cmd_stor,
  cmd_appe, is_missing, stou_name, next_seq, stou_last, stou_next, stou_from, store_unique,
  seed_seq, cmd_stou,
}
use openps3ftp.Commands.Jobs.{update_nth-last, get_elem?-last, job_free-session}
use openps3ftp.Commands.Step.Jobs.{begun-Step, freed-Step, idle_both}
use openps3ftp.Commands.Step.{Step, Step-trans, quiet, send-Step, Frame-Step, after-Step}

module _ {W : Type 0} (os : Os W) where
  pub wake_job-Frame : (j : Option Job) (s : State W) → Frame s (wake_job os j s)
  unfolding wake_job
  wake_job-Frame none s = refl
  wake_job-Frame (some j) s = option_both (Frame s) j.cancel_pipe refl (λ pipe. refl)

  cancel_job-Step : (i : ℕ) (s : State W) → Step s (cancel_job os i s)
  unfolding cancel_job
  cancel_job-Step i s =
      let s' = on_job i (λ j. record j { cancelled = true }) s in
      Step-trans (quiet s s' [] refl (sym (append-nil s.client.sent)))
        (Frame-Step s' _ (wake_job-Frame (get_elem? s.server.jobs i) s'))

  pub cmd_abor-Step : (p : Param) (s : State W) → Step s (cmd_abor os p s)
  unfolding cmd_abor
  cmd_abor-Step p s =
      option_both (Step s) s.client.job (send-Step _ s)
        (λ i. Step-trans (cancel_job-Step i s) (quiet _ _ [] refl (sym (append-nil _))))

  -- A job made for an idle client: dispatched it is the active one, or it is freed again.
  with_job-Step :
      (op : JobOp) (path : Bytes) (nlst mlsd : Bool) (msg : Option Bytes) (r : Option (ℕ × ℕ) × W)
      (s : State W)
      → s.client.job ≡ none
      → Step s (with_job os path nlst mlsd msg (new_job op r s))
  unfolding job_dispatch
  with_job-Step op path nlst mlsd msg (none, w) s idle = quiet s _ (_ ∷ []) refl refl
  with_job-Step op path nlst mlsd msg (some pipe, w) s idle =
      elim (Bool-cases (leb s.server.queue_cap (length s.server.queue))) [
        | inr free ↦
            rw free
              (begun-Step s _ (length s.server.jobs) (_ ∷ []) refl idle refl refl (λ h. refl) refl)
        | inl full ↦
            let j = fill_job s.client path nlst mlsd (blank_job s op pipe) in
            let s' = record s {
              world = w;
              client = record s.client {
                refs = s.client.refs + 1;
                pasv_fd = none;
                have_data_peer = false;
              };
              server = record s.server { jobs = s.server.jobs ++ j ∷ [] };
            } in
            let jobs =
              update_nth-last s.server.jobs (fill_job s.client path nlst mlsd)
                (blank_job s op pipe) in
            rw full (
              rw jobs (
                Step-trans
                  (freed-Step s s' (job_free os (length s.server.jobs) s')
                    (job_free-session os (length s.server.jobs) j s'
                      (get_elem?-last s.server.jobs j))
                    refl idle refl refl refl (λ h. refl))
                  (send-Step _ _)))
      ]

  start_transfer-Step :
      (op : JobOp) (path : Bytes) (nlst mlsd : Bool) (msg : Option Bytes) (s : State W)
      → Step s (start_transfer os op path nlst mlsd msg s)
  unfolding start_transfer job_new
  start_transfer-Step op path nlst mlsd msg s =
      idle_both (Step s) s.client.job (send-Step _ s) (λ idle.
        if_both (Step s) (not (precheck s)) (send-Step _ s) (
          if_both (Step s) (is_none s.client.pasv_fd && not s.client.have_data_peer) (send-Step _ s)
            (with_job-Step op path nlst mlsd msg (os.pipe s.world) s idle)))

module _ {W : Type 0} (fs : Fs W) (os : Os W) where
  list_found-Step :
      (path : Bytes) (nlst mlsd : Bool) (r : Result Stat × State W)
      → Step r.1 (list_found fs os path nlst mlsd r)
  unfolding list_found
  list_found-Step path nlst mlsd (ok st, s) = start_transfer-Step os _ path nlst mlsd none s
  list_found-Step path nlst mlsd (err e, s) = send-Step _ s

  start_listing-Step :
      (p : Param) (nlst mlsd : Bool) (s : State W) → Step s (start_listing fs os p nlst mlsd s)
  unfolding start_listing
  start_listing-Step p nlst mlsd s =
      option_both (Step s) (resolve_arg (listing_arg p) s) (send-Step _ s) (λ path.
        let r = r_stat fs os path s in
        after-Step s r (list_found fs os path nlst mlsd r) (guarded-Frame os path (fs.stat path) s)
          (list_found-Step path nlst mlsd r))

  pub cmd_list-Step : (p : Param) (s : State W) → Step s (cmd_list fs os p s)
  unfolding cmd_list
  cmd_list-Step p s = start_listing-Step p false false s

  pub cmd_nlst-Step : (p : Param) (s : State W) → Step s (cmd_nlst fs os p s)
  unfolding cmd_nlst
  cmd_nlst-Step p s = start_listing-Step p true false s

  pub cmd_mlsd-Step : (p : Param) (s : State W) → Step s (cmd_mlsd fs os p s)
  unfolding cmd_mlsd
  cmd_mlsd-Step p s = start_listing-Step p false true s

  retr_found-Step : (path : Bytes) (r : Result Stat × State W) → Step r.1 (retr_found fs os path r)
  unfolding retr_found
  retr_found-Step path (ok st, s) =
      if_both (Step s) (is_reg st.mode) (start_transfer-Step os _ path false false none s)
        (send-Step _ s)
  retr_found-Step path (err e, s) = send-Step _ s

  pub cmd_retr-Step : (p : Param) (s : State W) → Step s (cmd_retr fs os p s)
  unfolding cmd_retr
  cmd_retr-Step p s = option_both (Step s) (resolve_arg p s) (send-Step _ s) (λ path.
      let r = r_stat fs os path s in
      after-Step s r (retr_found fs os path r) (guarded-Frame os path (fs.stat path) s)
        (retr_found-Step path r))

  store_to-Step :
      (op : JobOp) (path : Bytes) (r : Bool × State W) → Step r.1 (store_to fs os op path r)
  unfolding store_to
  store_to-Step op path (true, s) = start_transfer-Step os op path false false none s
  store_to-Step op path (false, s) = send-Step _ s

  -- STOR and APPE behind the test of the parent
  stored-Step :
      (op : JobOp) (path : Bytes) (s : State W)
      → Step s (store_to fs os op path (parent_is_dir fs os path s))
  stored-Step op path s =
      let r = parent_is_dir fs os path s in
      after-Step s r (store_to fs os op path r) (parent_is_dir-Frame fs os path s)
        (store_to-Step op path r)

  pub cmd_stor-Step : (p : Param) (s : State W) → Step s (cmd_stor fs os p s)
  unfolding cmd_stor
  cmd_stor-Step p s =
      option_both (Step s) (resolve_arg p s) (send-Step _ s) (λ path. stored-Step stor path s)

  pub cmd_appe-Step : (p : Param) (s : State W) → Step s (cmd_appe fs os p s)
  unfolding cmd_appe
  cmd_appe-Step p s =
      option_both (Step s) (resolve_arg p s) (send-Step _ s) (λ path. stored-Step appe path s)

  is_missing-Frame : (r : Result Stat × State W) → Frame r.1 (is_missing fs os r).1
  is_missing-Frame (ok st, s) = refl
  is_missing-Frame (err e, s) = ground arith

  -- the look for one name
  tried-Step : (name : Bytes) (s : State W) → Step s (is_missing fs os (r_stat fs os name s)).1
  tried-Step name s =
      Frame-Step s _
        (is_missing-Frame (r_stat fs os name s) ∙ guarded-Frame os name (fs.stat name) s)

  next_seq-Step : (s : State W) → Step s (next_seq fs os s)
  next_seq-Step s = quiet s _ [] refl (sym (append-nil s.client.sent))

  stou_last-Step : (name : Bytes) (r : Bool × State W) → Step r.1 (stou_last fs os name r).1
  unfolding stou_last
  stou_last-Step name (true, s) = Frame-Step s s refl
  stou_last-Step name (false, s) = send-Step _ s

  stou_next-Step :
      (again : State W → Option Bytes × State W) (name : Bytes) (r : Bool × State W)
      → ((s : State W) → Step s (again s).1)
      → Step r.1 (stou_next fs os again name r).1
  unfolding stou_next
  stou_next-Step again name (true, s) h = Frame-Step s s refl
  stou_next-Step again name (false, s) h = h s

  stou_from-Step : (n : ℕ) (s : State W) → Step s (stou_from fs os n s).1
  unfolding stou_from
  stou_from-Step zero s =
      let s' = next_seq fs os s in
      option_both (λ (r : Option Bytes × State W). Step s r.1)
        (resolve_arg (some (stou_name fs os s)) s') (Step-trans (next_seq-Step s) (send-Step _ s'))
        (λ name.
          Step-trans (next_seq-Step s) (Step-trans (tried-Step name s') (stou_last-Step name _)))
  stou_from-Step (suc more) s =
      let s' = next_seq fs os s in
      option_both (λ (r : Option Bytes × State W). Step s r.1)
        (resolve_arg (some (stou_name fs os s)) s') (Step-trans (next_seq-Step s) (send-Step _ s'))
        (λ name. Step-trans (next_seq-Step s) (
          Step-trans (tried-Step name s')
            (stou_next-Step (stou_from fs os more) name _ (stou_from-Step more))))

  store_unique-Step : (r : Option Bytes × State W) → Step r.1 (store_unique fs os r)
  unfolding store_unique
  store_unique-Step (none, s) = Frame-Step s s refl
  store_unique-Step (some name, s) = start_transfer-Step os stor name false false _ s

  seed_seq-Step : (s : State W) → Step s (seed_seq fs os s)
  seed_seq-Step s =
      if_both (Step s) (s.server.stou_seq == 0) (quiet s _ [] refl (sym (append-nil s.client.sent)))
        (Frame-Step s s refl)

  pub cmd_stou-Step : (p : Param) (s : State W) → Step s (cmd_stou fs os p s)
  unfolding cmd_stou
  cmd_stou-Step p s = Step-trans (seed_seq-Step s) (
      Step-trans (stou_from-Step 9 (seed_seq fs os s))
        (store_unique-Step (stou_from fs os 9 (seed_seq fs os s))))
