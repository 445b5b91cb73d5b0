-- ===== src/Commands/Jobs.antt =====
-- job_new and job_free of src/commands.c: the job made last, and what freeing it leaves.
use openps3ftp.Base.{
  ℕ, ◌-◌, ◌≡◌, refl, ◌∙◌, ap, Option, none, some, List, [], ◌∷◌, ◌++◌, length, get_elem?,
}
use openps3ftp.Session.{Job, Client, Server, State, Os}
use openps3ftp.Rooted.Frame.{Frame, session}
use openps3ftp.Commands.Common.{close_fd, close_pipe, job_free, update_nth}

pub update_nth-last :
    (js : List Job) (f : Job → Job) (j : Job)
    → update_nth (length js) f (js ++ j ∷ []) ≡ js ++ f j ∷ []
update_nth-last [] f j = refl
update_nth-last (x ∷ js) f j = ap (λ l. x ∷ l) (update_nth-last js f j)

pub get_elem?-last : (js : List Job) (j : Job) → get_elem? (js ++ j ∷ []) (length js) ≡ some j
get_elem?-last [] j = refl
get_elem?-last (x ∷ js) j = get_elem?-last js j

abbrev pub released : Client × Server → Client × Server
released (c, v) = (record c { refs = c.refs - 1 }, v)

module _ {W : Type 0} (os : Os W) where
  pub close_fd-Frame : (fd : Option ℕ) (s : State W) → Frame s (close_fd os fd s)
  close_fd-Frame none s = refl
  close_fd-Frame (some fd) s = refl

  pub close_pipe-Frame : (p : Option (ℕ × ℕ)) (s : State W) → Frame s (close_pipe os p s)
  close_pipe-Frame none s = refl
  close_pipe-Frame (some (a, b)) s = refl

  pub job_free-session :
      (i : ℕ) (j : Job) (s : State W)
      → get_elem? s.server.jobs i ≡ some j
      → session (job_free os i s) ≡ released (session s)
  unfolding job_free
  job_free-session i j s e =
      rw (e, job_free)
        (ap released (
          close_fd-Frame j.pasv_fd (close_pipe os j.cancel_pipe s)
          ∙ close_pipe-Frame j.cancel_pipe s))
