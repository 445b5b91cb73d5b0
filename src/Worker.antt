-- ===== src/Worker.antt =====
-- src/transfer.c: how a worker moves the bytes of a transfer.
-- The flag that cancels a job is set by another thread, so reading it is an operation on the world.
pub mod Moves
pub mod Laws
pub mod Send
pub mod Retr
pub mod Ends
pub mod Stor
pub mod Keeps
pub mod Copy
pub mod Copied
pub mod Directory
pub mod Walk
pub mod Confined
pub mod Listed
use openps3ftp.Base.{
  ℕ, zero, suc, ◌+◌, Bool, true, false, not, ◌&&◌, Option, none, some, List, [], ◌∷◌, if◌then◌else◌,
  drop, length, Bytes, str_eq, is_nil, ltb, ◌==◌,
}
use openps3ftp.Session.{
  Errno, ecanceled, eagain, epipe, eio, Result, ok, err, Stat, JobOp, stor, appe, Fs,
}

-- TRANSFER_BUF
abbrev pub transfer_buf : ℕ
transfer_buf = 65536

-- OPFTP_O_WRONLY, OPFTP_O_CREAT, OPFTP_O_TRUNC and OPFTP_O_APPEND; without the first, OPFTP_O_RDONLY
pub record Flags : Type 0 where
  pub writes : Bool
  pub creates : Bool
  pub truncates : Bool
  pub appends : Bool

-- opftp_fs_t, for the operations on descriptors
pub record Files (W : Type 0) : Type 0 where
  pub open_file : Bytes → Flags → ℕ → W → Result ℕ × W
  pub close : ℕ → W → W
  pub read : ℕ → ℕ → W → Result Bytes × W
  pub write : ℕ → Bytes → W → Result ℕ × W
  pub seek : ℕ → ℕ → W → Result (Unit {0}) × W
  pub fstat : ℕ → W → Result Stat × W

-- What `poll` says of the data connection and the cancel pipe: an error, a time-out, a byte in the pipe, a broken
-- connection, the event that was waited for, or none of these.
pub data Polled : Type 0 where
  poll_error : Errno → Polled
  timed_out woken broken ready idle : Polled

-- what `send` and `opftp_tls_write` return
pub data Sent : Type 0 where
  accepted : ℕ → Sent
  want_read want_write : Sent
  send_error : Errno → Sent
  nothing : Sent

-- what `recv` and `opftp_tls_read` return; no bytes are the end
pub data Arrived : Type 0 where
  bytes : Bytes → Arrived
  want_read want_write : Arrived
  recv_error : Errno → Arrived

-- The data connection of a job, and its cancel flag. `poll` is told whether to wait for room to write. EAGAIN and
-- EWOULDBLOCK of `send` are `want_write`, and of `recv` `want_read`.
pub record Channel (W : Type 0) : Type 0 where
  pub cancelled : W → Bool × W
  pub poll : Bool → W → Polled × W
  pub send : Bytes → W → Sent × W
  pub recv : ℕ → W → Arrived × W
  pub tls_write : Bytes → W → Sent × W
  pub tls_read : ℕ → W → Arrived × W

-- The return code of a loop, `none` when the rounds given to it are used up, with the counter of bytes and the world.
abbrev pub Run : Type 0 → Type 0
Run W = Option (Result (Unit {0})) × ℕ × W

-- the rest of a loop, on the bytes that are left
abbrev pub Again : Type 0 → Type 0
Again W = Bytes → W → Option (Result (Unit {0})) × W

module _ {W : Type 0} (ch : Channel W) where
  -- `job_cancelled(j) ? -ECANCELED : -EAGAIN`
  abbrev pub retry_unless : Bool × W → Result (Unit {0}) × W
  retry_unless (true, w) = (err ecanceled, w)
  retry_unless (false, w) = (err eagain, w)

  unfoldable pub polled : Polled × W → Result (Unit {0}) × W
  polled (poll_error e, w) = (err e, w)
  polled (timed_out, w) = retry_unless (ch.cancelled w)
  polled (woken, w) = retry_unless (ch.cancelled w)
  polled (broken, w) = (err epipe, w)
  polled (ready, w) = (ok tt, w)
  polled (idle, w) = (err eagain, w)

  -- wait_fd
  unfoldable pub wait_fd : Bool → W → Result (Unit {0}) × W
  unfolding polled
  wait_fd output w = polled (ch.poll output w)

  -- A round of send_all after its wait, after its call of `send`, and after that of `opftp_tls_write`.
  unfoldable pub waited :
      (W → Option (Result (Unit {0})) × W)
      → (W → Option (Result (Unit {0})) × W)
      → Result (Unit {0}) × W
      → Option (Result (Unit {0})) × W
  waited again go (ok u, w) = go w
  waited again go (err eagain, w) = again w
  waited again go (err e, w) = (some (err e), w)

  unfoldable pub plain_sent : Again W → Bytes → Sent × W → Option (Result (Unit {0})) × W
  plain_sent again buf (accepted n, w) = again (drop n buf) w
  plain_sent again buf (Sent.want_write, w) = again buf w
  plain_sent again buf (Sent.want_read, w) = again buf w
  plain_sent again buf (send_error e, w) = (some (err e), w)
  plain_sent again buf (nothing, w) = (some (err epipe), w)

  unfoldable pub tls_sent : Again W → Bytes → Sent × W → Option (Result (Unit {0})) × W
  unfolding waited wait_fd
  tls_sent again buf (accepted n, w) = again (drop n buf) w
  tls_sent again buf (Sent.want_write, w) = waited (again buf) (again buf) (wait_fd true w)
  tls_sent again buf (Sent.want_read, w) = waited (again buf) (again buf) (wait_fd false w)
  tls_sent again buf (send_error e, w) = (some (err epipe), w)
  tls_sent again buf (nothing, w) = (some (err epipe), w)

  unfoldable pub send_round : Bool → Again W → Bytes → Bool × W → Option (Result (Unit {0})) × W
  unfolding plain_sent tls_sent
  send_round tls again buf (true, w) = (some (err ecanceled), w)
  send_round tls again buf (false, w) =
      if tls
      then tls_sent again buf (ch.tls_write buf w)
      else waited (again buf) (λ w'. plain_sent again buf (ch.send buf w')) (wait_fd true w)

  -- send_all, with a number of rounds
  unfoldable pub send_all : ℕ → Bool → Bytes → W → Option (Result (Unit {0})) × W
  unfolding send_round
  send_all n tls [] w = (some (ok tt), w)
  send_all zero tls (b ∷ buf) w = (none, w)
  send_all (suc n) tls (b ∷ buf) w = send_round tls (send_all n tls) (b ∷ buf) (ch.cancelled w)

module _ {W : Type 0} (files : Files W) where
  -- fs_write_all, with a number of rounds
  unfoldable pub wrote : Again W → Bytes → Result ℕ × W → Option (Result (Unit {0})) × W
  wrote again buf (ok zero, w) = (some (err eio), w)
  wrote again buf (ok (suc n), w) = again (drop (suc n) buf) w
  wrote again buf (err e, w) = (some (err e), w)

  unfoldable pub fs_write_all : ℕ → ℕ → Bytes → W → Option (Result (Unit {0})) × W
  unfolding wrote
  fs_write_all n fd [] w = (some (ok tt), w)
  fs_write_all zero fd (b ∷ buf) w = (none, w)
  fs_write_all (suc n) fd (b ∷ buf) w =
      wrote (fs_write_all n fd) (b ∷ buf) (files.write fd (b ∷ buf) w)

module _ {W : Type 0} (ch : Channel W) where
  -- the end of recv_some; -EAGAIN is `err eagain`, and no bytes are the end of the data
  unfoldable pub plain_arrived : Arrived × W → Result Bytes × W
  plain_arrived (bytes b, w) = (ok b, w)
  plain_arrived (Arrived.want_read, w) = (err eagain, w)
  plain_arrived (Arrived.want_write, w) = (err eagain, w)
  plain_arrived (recv_error e, w) = (err e, w)

  -- a wait before the next try
  abbrev pub pause : Result (Unit {0}) × W → Result Bytes × W
  pause (ok u, w) = (err eagain, w)
  pause (err e, w) = (err e, w)

  unfoldable pub tls_arrived : Arrived × W → Result Bytes × W
  unfolding wait_fd
  tls_arrived (bytes b, w) = (ok b, w)
  tls_arrived (Arrived.want_read, w) = pause (wait_fd ch false w)
  tls_arrived (Arrived.want_write, w) = pause (wait_fd ch true w)
  tls_arrived (recv_error e, w) = (err epipe, w)

  abbrev pub then_recv : ℕ → Result (Unit {0}) × W → Result Bytes × W
  then_recv room (ok u, w) = plain_arrived (ch.recv room w)
  then_recv room (err e, w) = (err e, w)

  abbrev pub recv_round : Bool → ℕ → Bool × W → Result Bytes × W
  recv_round tls room (true, w) = (err ecanceled, w)
  recv_round tls room (false, w) =
      if tls then tls_arrived (ch.tls_read room w) else then_recv room (wait_fd ch false w)

  unfoldable pub recv_some : Bool → ℕ → W → Result Bytes × W
  unfolding wait_fd plain_arrived tls_arrived
  recv_some tls room w = recv_round tls room (ch.cancelled w)
