-- ===== src/Completion/Lifecycle.antt =====
-- src/datachan.c, with cmd_abor of src/commands.c and client_disconnect of src/server.c: a transfer from its start to its
-- end, with what its worker writes into the job in between.
use openps3ftp.Base.{
  ℕ, ◌+◌, ◌-◌, ◌≡◌, sym, ◌∙◌, ap, subst, true, false, ◌&&◌, none, some, Bytes, [], ◌∷◌, ◌++◌, arith,
  codes, get_elem?, option_some, All,
}
use openps3ftp.Session.{
  ecanceled, Message, reply, Job, Client, Server, State, Os, send_reply, on_client,
}
use openps3ftp.Rooted.Frame.{session}
use openps3ftp.Commands.Common.{Param, is_some, on_job, update_nth}
use openps3ftp.Commands.Transfer.{cmd_abor, cancel_job}
use openps3ftp.Commands.Step.{held}
use openps3ftp.Commands.Step.Transfer.{wake_job-Frame}
use openps3ftp.Path.Join.{IsRoot}
use openps3ftp.Path.Tokens.{tokens}
use openps3ftp.Path.Walk.{IsClean}
use openps3ftp.Stream.{Net}
use openps3ftp.Reactor.Sound.{IsSound}
use openps3ftp.Completion.{r426, final_reply, result_reply, unconnected_reply, datachan_complete}
use openps3ftp.Completion.Ends.{abort_replies, get_elem?-update_nth, complete-session}

-- a job that the worker gave up because it was cancelled
canceled-final_reply : (j : Job) → j.result ≡ some ecanceled → final_reply j ≡ reply 426 r426
unfolding final_reply result_reply unconnected_reply
canceled-final_reply j e = rw e (ground arith)

abbrev mark_cancelled : Job → Job
mark_cancelled j = record j { cancelled = true }

module _ {W : Type 0} (os : Os W) where
  -- Whatever the result that the worker posts, the completion of the active transfer keeps a sound session sound, makes
  -- the client idle, takes back the pending abort, and sends one final reply, or that and the 226 of a pending abort.
  pub datachan_complete-IsSound :
      (k i : ℕ) (j : Job) (s : State W)
      → IsSound k s
      → s.client.job ≡ some i
      → get_elem? s.server.jobs i ≡ some j
      → j.generation ≡ s.client.generation
      → let u = datachan_complete os i s in
        IsSound k u
        × (u.client.job ≡ none)
        × (u.client.abor_pending ≡ false)
        × (u.client.sent ≡ s.client.sent ++ final_reply j ∷ abort_replies s.client.abor_pending)
  datachan_complete-IsSound k i j s h active there same =
      let e = complete-session os i j s there same in
      (
        record {
          rooted = subst IsRoot (sym (ap (λ p. p.1.root) e)) h.rooted;
          canonical =
              subst (λ (c : Bytes). All IsClean (tokens c)) (sym (ap (λ p. p.0.cwd) e)) h.canonical;
          one_channel = ap (λ p. is_some p.0.pasv_fd && p.0.have_data_peer) e ∙ h.one_channel;
          counted =
              omega
                (arith, ap (λ p. p.0.refs) e, ap (λ p. held p.0.job) e, h.counted, ap held active);
        },
        ap (λ p. p.0.job) e,
        ap (λ p. p.0.abor_pending) e,
        ap (λ p. p.0.sent) e,
      )

  cancel_job-session :
      (i : ℕ) (s : State W) → session (cancel_job os i s) ≡ session (on_job i mark_cancelled s)
  unfolding cancel_job
  cancel_job-session i s = wake_job-Frame os (get_elem? s.server.jobs i) (on_job i mark_cancelled s)

  aborted-session :
      (p : Param) (i : ℕ) (s : State W)
      → s.client.job ≡ some i
      → session (cmd_abor os p s)
        ≡ (record s.client { abor_pending = true }, (on_job i mark_cancelled s).server)
  unfolding cmd_abor
  aborted-session p i s active =
      option_some
        (λ (t : State W).
          session t ≡ (record s.client { abor_pending = true }, (on_job i mark_cancelled s).server))
        s.client.job (send_reply 226 (codes "Abort successful.") s)
        (λ i. on_client (λ c. record c { abor_pending = true }) (cancel_job os i s)) active
        (ap (λ (q : Client × Server). (record q.0 { abor_pending = true }, q.1))
          (cancel_job-session i s))

  -- ABOR during a transfer whose worker then reports ECANCELED, connected or not: the client gets 426 and then 226,
  -- nothing else, and is idle.
  pub abort_sequence :
      (p : Param) (i : ℕ) (j : Job) (f : Job → Job) (s : State W)
      → s.client.job ≡ some i
      → get_elem? s.server.jobs i ≡ some j
      → j.generation ≡ s.client.generation
      → ((j : Job) → (f j).generation ≡ j.generation)
      → ((j : Job) → (f j).result ≡ some ecanceled)
      → let u = datachan_complete os i (on_job i f (cmd_abor os p s)) in
        (u.client.sent
          ≡ s.client.sent ++ reply 426 r426 ∷ reply 226 (codes "Abort successful.") ∷ [])
        × (u.client.job ≡ none)
        × (u.client.abor_pending ≡ false)
  abort_sequence p i j f s active there same work gave_up =
      let a = cmd_abor os p s in
      let e = aborted-session p i s active in
      let j' = f (mark_cancelled j) in
      let found : get_elem? (on_job i f a).server.jobs i ≡ some j' =
        get_elem?-update_nth i f a.server.jobs (
          ap (λ q. get_elem? q.1.jobs i) e
          ∙ get_elem?-update_nth i mark_cancelled s.server.jobs there) in
      let same' : j'.generation ≡ a.client.generation =
        work (mark_cancelled j) ∙ same ∙ sym (ap (λ q. q.0.generation) e) in
      let u = complete-session os i j' (on_job i f a) found same' in
      let said = canceled-final_reply j' (gave_up (mark_cancelled j)) in
      (
        ap (λ q. q.0.sent) u
            ∙ ap
                (λ (q : Client × Server).
                  q.0.sent ++ final_reply j' ∷ abort_replies q.0.abor_pending)
                e
            ∙ ap (λ (m : Message). s.client.sent ++ m ∷ abort_replies true) said,
        ap (λ q. q.0.job) u,
        ap (λ q. q.0.abor_pending) u,
      )

  module _ (net : Net W) where
    -- what is left of a client that disconnects during its transfer
    record IsGone (i : ℕ) (s d : State W) : Type 0 where
      job : d.client.job ≡ none
      generation : d.client.generation ≡ s.client.generation + 1
      refs : d.client.refs ≡ s.client.refs - 1
      closed : d.client.fd ≡ none
      no_listener : d.client.pasv_fd ≡ none
      sent : d.client.sent ≡ s.client.sent
      jobs : d.server.jobs ≡ update_nth i mark_cancelled s.server.jobs
