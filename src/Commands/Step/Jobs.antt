-- ===== src/Commands/Step/Jobs.antt =====
-- A job made for an idle client (src/commands.c): dispatched, it is the active transfer; refused, it is freed.
use openps3ftp.Base.{
  ℕ, ◌+◌, ◌≡◌, refl, sym, ◌∙◌, ap, subst, Bool, Option, none, some, List, [], ◌++◌, append-nil,
  arith, All, Bytes, length, ◌&&◌, if◌then◌else◌,
}
use openps3ftp.Session.{Message, Client, Server, State}
use openps3ftp.Path.Tokens.{tokens}
use openps3ftp.Path.Walk.{IsClean}
use openps3ftp.Rooted.Frame.{session}
use openps3ftp.Commands.Common.{is_some}
use openps3ftp.Commands.OneChannel.{IsOneChannel}
use openps3ftp.Commands.Jobs.{released}
use openps3ftp.Commands.Step.{Step, Fixed, fixed_of, held}

-- what the start of a transfer leaves alone
pub record Calm : Type 0 where
  pub logged_in : Bool
  pub cwd : Bytes
  pub rbuf : Bytes
  pub fixed : Fixed

abbrev pub calm_of : Client × Server → Calm
calm_of (c, v) = record {
  logged_in = c.logged_in;
  cwd = c.cwd;
  rbuf = c.rbuf;
  fixed = fixed_of (c, v);
}

module _ {W : Type 0} where
  job-Step :
      (s t : State W) (ms : List Message)
      → calm_of (session t) ≡ calm_of (session s)
      → s.client.job ≡ none
      → t.client.refs + held s.client.job ≡ s.client.refs + held t.client.job
      → (IsOneChannel s → IsOneChannel t)
      → t.client.sent ≡ s.client.sent ++ ms
      → Step s t
  job-Step s t ms same idle counted channel more = record {
    fixed = ap (λ c. c.fixed) same;
    login = λ h. ap (λ c. c.logged_in) same ∙ h;
    buffer = omega (arith, ap (λ (c : Calm). length c.rbuf) same);
    job = λ i h. absurd (ground arith);
    refs = counted;
    channel = channel;
    canonical = λ r h. subst (λ (c : Bytes). All IsClean (tokens c)) (sym (ap (λ c. c.cwd) same)) h;
    sent = (ms, more);
  }

  pub begun-Step :
      (s t : State W) (i : ℕ) (ms : List Message)
      → calm_of (session t) ≡ calm_of (session s)
      → s.client.job ≡ none
      → t.client.job ≡ some i
      → t.client.refs ≡ s.client.refs + 1
      → (IsOneChannel s → IsOneChannel t)
      → t.client.sent ≡ s.client.sent ++ ms
      → Step s t
  begun-Step s t i ms same idle active counted channel more =
      job-Step s t ms same idle (omega (arith, ap held idle, ap held active)) channel more

  -- `s'` is the state with the job, which holds a reference.
  pub freed-Step :
      (s s' t : State W)
      → session t ≡ released (session s')
      → calm_of (session s') ≡ calm_of (session s)
      → s.client.job ≡ none
      → s'.client.job ≡ s.client.job
      → s'.client.refs ≡ s.client.refs + 1
      → s'.client.sent ≡ s.client.sent
      → (IsOneChannel s → IsOneChannel s')
      → Step s t
  freed-Step s s' t freed same idle same_job counted unsent channel =
      job-Step s t [] (ap calm_of freed ∙ same) idle
        (omega (arith, ap (λ p. p.0.refs) freed, ap held (ap (λ p. p.0.job) freed ∙ same_job)))
        (λ h. ap (λ p. is_some p.0.pasv_fd && p.0.have_data_peer) freed ∙ channel h)
        (ap (λ p. p.0.sent) freed ∙ unsent ∙ sym (append-nil s.client.sent))

-- a test for an active transfer
pub idle_both {ℓ κ} :
    {A : Type ℓ} (P : A → Type κ) (job : Option ℕ) {x y : A}
    → P x
    → (job ≡ none → P y)
    → P (if is_some job then x else y)
idle_both P none h k = k refl
idle_both P (some i) h k = h
