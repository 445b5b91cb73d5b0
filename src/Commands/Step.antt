-- ===== src/Commands/Step.antt =====
-- What every handler of src/commands.c keeps of a client and of the server, as a relation between the
-- states before and after; the children prove it for the handlers.
pub mod Login
pub mod Jobs
pub mod Files
pub mod Stats
pub mod Channel
pub mod Transfer
pub mod Run
use openps3ftp.Base.{
  ℕ, ◌+◌, ◌≤◌, ◌≡◌, refl, sym, ◌∙◌, ap, subst, Bool, true, false, ◌&&◌, Option, none, some, List,
  [], ◌∷◌, ◌++◌, append-nil, append_assoc, arith, All, Bytes, length, if◌then◌else◌,
}
use openps3ftp.Session.{Addr, Message, Client, Server, State, Os, send}
use openps3ftp.Path.Join.{IsRoot}
use openps3ftp.Path.Tokens.{tokens}
use openps3ftp.Path.Walk.{IsClean}
use openps3ftp.Rooted.{settle}
use openps3ftp.Rooted.Frame.{Frame, session}
use openps3ftp.Commands.Common.{is_some}
use openps3ftp.Commands.OneChannel.{IsOneChannel}
use openps3ftp.Commands.Cwd.{IsCanonical}

-- the server's configuration, and the identity of the connection
pub record Fixed : Type 0 where
  pub root : Bytes
  pub fs_root : Bytes
  pub check_realpath : Bool
  pub auth : Option (Bytes → Bytes → Bool)
  pub allow_foreign_port : Bool
  pub allow_stop : Bool
  pub server_tls : Bool
  pub queue_cap : ℕ
  pub fd : Option ℕ
  pub peer : Addr
  pub generation : ℕ

-- what most handlers leave alone
pub record Vital : Type 0 where
  pub logged_in : Bool
  pub cwd : Bytes
  pub rbuf : Bytes
  pub job : Option ℕ
  pub refs : ℕ
  pub pasv_fd : Option ℕ
  pub have_data_peer : Bool
  pub fixed : Fixed

abbrev pub fixed_of : Client × Server → Fixed
fixed_of (c, v) = record {
  root = v.root;
  fs_root = v.fs_root;
  check_realpath = v.check_realpath;
  auth = v.auth;
  allow_foreign_port = v.allow_foreign_port;
  allow_stop = v.allow_stop;
  server_tls = v.tls;
  queue_cap = v.queue_cap;
  fd = c.fd;
  peer = c.peer;
  generation = c.generation;
}

abbrev pub vital_of : Client × Server → Vital
vital_of (c, v) = record {
  logged_in = c.logged_in;
  cwd = c.cwd;
  rbuf = c.rbuf;
  job = c.job;
  refs = c.refs;
  pasv_fd = c.pasv_fd;
  have_data_peer = c.have_data_peer;
  fixed = fixed_of (c, v);
}

-- the reference that an active transfer holds
abbrev pub held : Option ℕ → ℕ
held none = 0
held (some i) = 1

module _ {W : Type 0} where
  pub record Step (s t : State W) : Type 0 where
    pub fixed : fixed_of (session t) ≡ fixed_of (session s)
    pub login : s.client.logged_in ≡ true → t.client.logged_in ≡ true
    pub buffer : length t.client.rbuf ≤ length s.client.rbuf
    pub job : (i : ℕ) → s.client.job ≡ some i → t.client.job ≡ some i
    pub refs : t.client.refs + held s.client.job ≡ s.client.refs + held t.client.job
    pub channel : IsOneChannel s → IsOneChannel t
    pub canonical : IsRoot s.server.root → IsCanonical s → IsCanonical t
    pub sent : (ms : List Message) × (t.client.sent ≡ s.client.sent ++ ms)

  pub Step-trans : {s t u : State W} → Step s t → Step t u → Step s u
  Step-trans {s} {t} {u} a b = record {
    fixed = b.fixed ∙ a.fixed;
    login = λ h. b.login (a.login h);
    buffer = omega (arith, a.buffer, b.buffer);
    job = λ i h. b.job i (a.job i h);
    refs = omega (arith, a.refs, b.refs);
    channel = λ h. b.channel (a.channel h);
    canonical =
        λ r h. b.canonical (subst IsRoot (sym (ap (λ f. f.root) a.fixed)) r) (a.canonical r h);
    sent = (
      a.sent.0 ++ b.sent.0,
      b.sent.1 ∙ ap (λ l. l ++ b.sent.0) a.sent.1 ∙ append_assoc s.client.sent a.sent.0 b.sent.0,
    );
  }

  -- the vital fields as they were, and more messages
  pub quiet :
      (s t : State W) (ms : List Message)
      → vital_of (session t) ≡ vital_of (session s)
      → t.client.sent ≡ s.client.sent ++ ms
      → Step s t
  quiet s t ms same more = record {
    fixed = ap (λ v. v.fixed) same;
    login = λ h. ap (λ v. v.logged_in) same ∙ h;
    buffer = omega (arith, ap (λ (v : Vital). length v.rbuf) same);
    job = λ i h. ap (λ v. v.job) same ∙ h;
    refs = omega (arith, ap (λ (v : Vital). v.refs) same, ap (λ (v : Vital). held v.job) same);
    channel = λ h. ap (λ v. is_some v.pasv_fd && v.have_data_peer) same ∙ h;
    canonical = λ r h. subst (λ (c : Bytes). All IsClean (tokens c)) (sym (ap (λ v. v.cwd) same)) h;
    sent = (ms, more);
  }

  pub Frame-Step : (s t : State W) → Frame s t → Step s t
  Frame-Step s t same =
      quiet s t [] (ap vital_of same) (ap (λ p. p.0.sent) same ∙ sym (append-nil s.client.sent))

  pub send-Step : (m : Message) (s : State W) → Step s (send m s)
  send-Step m s = quiet s (send m s) (m ∷ []) refl refl

  -- an operation of the file system, and then what is made of its result
  pub after-Step :
      {A : Type 0} (s : State W) (r : A × State W) (t : State W)
      → Frame s r.1
      → Step r.1 t
      → Step s t
  after-Step s r t same h = Step-trans (Frame-Step s r.1 same) h
