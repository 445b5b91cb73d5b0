-- ===== src/Completion/Ends.antt =====
-- src/datachan.c, with cmd_abor of src/commands.c and client_disconnect of src/server.c: how a transfer ends.
use openps3ftp.Base.{
  ℕ, zero, suc, ◌-◌, ◌≡◌, ◌≢◌, refl, ◌∙◌, ap, Bool, true, false, ◌==◌, none, some, List, [], ◌∷◌,
  ◌++◌, arith, codes, get_elem?, append_assoc, if◌then◌else◌,
}
use openps3ftp.Session.{Message, reply, Job, Client, Server, State, Os}
use openps3ftp.Rooted.Frame.{Frame, session}
use openps3ftp.Commands.Common.{update_nth, close_fd}
use openps3ftp.Commands.Jobs.{released, close_fd-Frame, close_pipe-Frame}
use openps3ftp.Stream.{client_release}
use openps3ftp.Completion.{final_reply, end_abort, finish_job, close_job, datachan_complete}

pub get_elem?-update_nth :
    (i : ℕ) (f : Job → Job) (js : List Job) {j : Job}
    → get_elem? js i ≡ some j
    → get_elem? (update_nth i f js) i ≡ some (f j)
get_elem?-update_nth i f [] h = absurd cc
get_elem?-update_nth zero f (x ∷ js) h = ground (arith, h)
get_elem?-update_nth (suc i) f (x ∷ js) h = get_elem?-update_nth i f js h

-- the replies at the end of a transfer
abbrev pub abort_replies : Bool → List Message
abort_replies true = reply 226 (codes "Abort successful.") ∷ []
abort_replies false = []

-- the client when its transfer is over, and what it was sent
abbrev pub over : List Message → Client × Server → Client × Server
over ms (c, v) =
    (record c { job = none; abor_pending = false; sent = c.sent ++ ms; refs = c.refs - 1 }, v)

module _ {W : Type 0} (os : Os W) where
  pub client_release-session : (s : State W) → session (client_release os s) ≡ released (session s)
  unfolding client_release
  client_release-session s =
      let left = record s { client = record s.client { refs = s.client.refs - 1 } } in
      ap (λ (p : Client × Server). p)
        (if_session (s.client.refs == 1) left (close_fd os s.client.fd left)
          (close_fd-Frame os s.client.fd left))
    where
      if_session : (b : Bool) (l t : State W) → Frame l t → session (if b then t else l) ≡ session l
      if_session true l t h = h
      if_session false l t h = refl

  close_job-Frame : (j : Job) (s : State W) → Frame s (close_job os j s)
  close_job-Frame j s =
      let s' = close_fd os j.data_fd s in
      let s'' = close_fd os j.pasv_fd s' in
      close_pipe-Frame os j.cancel_pipe s''
      ∙ close_fd-Frame os j.pasv_fd s'
      ∙ close_fd-Frame os j.data_fd s

  finish_job-session :
      (j : Job) (s : State W)
      → released (session (finish_job j s))
        ≡ over (final_reply j ∷ abort_replies s.client.abor_pending) (session s)
  unfolding finish_job end_abort
  finish_job-session j s =
      ground (
        arith,
        append_assoc s.client.sent (final_reply j ∷ []) (abort_replies s.client.abor_pending),
      )

  -- with the transfer's generation
  pub complete-session :
      (i : ℕ) (j : Job) (s : State W)
      → get_elem? s.server.jobs i ≡ some j
      → j.generation ≡ s.client.generation
      → session (datachan_complete os i s)
        ≡ over (final_reply j ∷ abort_replies s.client.abor_pending) (session s)
  unfolding datachan_complete
  complete-session i j s there same =
      let s' = close_job os j s in
      let e : (j.generation == s.client.generation) ≡ true = ground arith in
      rw (there, datachan_complete)
        (rw e (
          client_release-session (finish_job j s')
          ∙ finish_job-session j s'
          ∙ ap (λ (p : Client × Server). over (final_reply j ∷ abort_replies p.0.abor_pending) p)
              (close_job-Frame j s)))

  -- The completion of a job of an earlier generation sends nothing, and changes only the number of references, which is one less.
  pub complete-stale :
      (i : ℕ) (j : Job) (s : State W)
      → get_elem? s.server.jobs i ≡ some j
      → j.generation ≢ s.client.generation
      → session (datachan_complete os i s) ≡ released (session s)
  unfolding datachan_complete
  complete-stale i j s there other =
      let e : (j.generation == s.client.generation) ≡ false = ground arith in
      rw (there, datachan_complete)
        (rw e (client_release-session (close_job os j s) ∙ ap released (close_job-Frame j s)))
