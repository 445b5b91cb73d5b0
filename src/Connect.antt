-- ===== src/Connect.antt =====
-- src/datachan.c: how a worker establishes the data connection of its job.
pub mod Trust
use openps3ftp.Base.{ℕ, Bool, true, false, not, ◌&&◌, Option, none, some, if◌then◌else◌}
use openps3ftp.Session.{
  Errno, eacces, ecanceled, eagain, etimedout, enotconn, Result, ok, err, Addr, Job,
}
use openps3ftp.Commands.Transfer.{addr_eq}
use openps3ftp.Worker.{Polled, poll_error, timed_out, woken, broken, ready, idle}

-- what `connect` says of a non-blocking socket
pub data Connecting : Type 0 where
  connected in_progress : Connecting
  refused : Errno → Connecting

-- The calls on sockets. `poll` waits at most two seconds for the socket, to be readable or writable, or for the cancel
-- pipe; `so_error` is the pending error of a socket.
pub record Dial (W : Type 0) : Type 0 where
  pub poll : ℕ → Bool → W → Polled × W
  pub cancelled : W → Bool × W
  pub accept : ℕ → W → Result (ℕ × Addr) × W
  pub socket : Addr → W → Result ℕ × W
  pub connect : ℕ → Addr → W → Connecting × W
  pub so_error : ℕ → W → Option Errno × W

-- the return code, the job, and the world
abbrev pub Outcome : Type 0 → Type 0
Outcome W = Result (Unit {0}) × Job × W

module _ {W : Type 0} (dial : Dial W) (allow_foreign_port : Bool) where
  abbrev pub failed : Errno → Job → W → Outcome W
  failed e j w = (err e, j, w)

  -- after the poll: an error, a time-out, the cancel pipe, or else the socket
  abbrev pub interrupted : Job → Bool × W → Outcome W
  interrupted j (true, w) = failed ecanceled j w
  interrupted j (false, w) = failed eagain j w

  unfoldable pub when_ready : Job → (W → Outcome W) → Polled × W → Outcome W
  when_ready j go (poll_error e, w) = failed e j w
  when_ready j go (timed_out, w) = failed etimedout j w
  when_ready j go (woken, w) = interrupted j (dial.cancelled w)
  when_ready j go (broken, w) = go w
  when_ready j go (ready, w) = go w
  when_ready j go (idle, w) = go w

  abbrev pub with_data_fd : ℕ → Job → Job
  with_data_fd fd j = record j { data_fd = some fd }

  abbrev pub is_open : Job → W → Outcome W
  is_open j w = (ok tt, record j { conn_ok = true }, w)

  unfoldable pub pasv_accepted : Job → Result (ℕ × Addr) × W → Outcome W
  unfolding addr_eq
  pasv_accepted j (err e, w) = failed e j w
  pasv_accepted j (ok p, w) =
      if not allow_foreign_port && not (addr_eq p.1 j.ctl_peer)
      then failed eacces (with_data_fd p.0 j) w
      else is_open (with_data_fd p.0 j) w

  unfoldable pub connect_done : Job → Option Errno × W → Outcome W
  connect_done j (none, w) = is_open j w
  connect_done j (some e, w) = failed e j w

  unfoldable pub connect_begun : ℕ → Job → Connecting × W → Outcome W
  unfolding when_ready connect_done
  connect_begun fd j (refused e, w) = failed e j w
  connect_begun fd j (connected, w) =
      when_ready j (λ v. connect_done j (dial.so_error fd v)) (dial.poll fd true w)
  connect_begun fd j (in_progress, w) =
      when_ready j (λ v. connect_done j (dial.so_error fd v)) (dial.poll fd true w)

  unfoldable pub port_socket : Job → Result ℕ × W → Outcome W
  unfolding connect_begun
  port_socket j (err e, w) = failed e j w
  port_socket j (ok fd, w) = connect_begun fd (with_data_fd fd j) (dial.connect fd j.data_peer w)

  -- opftp_datachan_connect_job
  unfoldable pub connect_job : Job → W → Outcome W
  unfolding when_ready pasv_accepted port_socket
  connect_job j w = elim j.pasv_fd [
    | some fd ↦ when_ready j (λ v. pasv_accepted j (dial.accept fd v)) (dial.poll fd false w)
    | none ↦
        if j.have_data_peer then port_socket j (dial.socket j.data_peer w) else failed enotconn j w
  ]
