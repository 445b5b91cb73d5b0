-- ===== src/Run.antt =====
-- src/transfer.c: the run of a job by a worker, from its data connection to its completion.
pub mod Answer
pub mod Prepared
pub mod Reply
use openps3ftp.Base.{
  ℕ, zero, suc, Bool, true, false, not, ◌&&◌, Option, none, some, Bytes, if◌then◌else◌,
}
use openps3ftp.Session.{
  Errno, ecanceled, eagain, epipe, enotsup, Result, ok, err, JobOp, list, stor, appe, retr, copy,
  Job, Fs,
}
use openps3ftp.Worker.{Files, Channel, wait_fd}
use openps3ftp.Worker.Moves.{transfer_retr, transfer_stor}
use openps3ftp.Worker.Directory.{Dirs, transfer_list}
use openps3ftp.Worker.Walk.{transfer_copy}
use openps3ftp.Connect.{Dial, Outcome, connect_job}
use openps3ftp.Completion.{is_copy}

-- what `opftp_tls_handshake` and `opftp_tls_close_notify` return
pub data TlsStep : Type 0 where
  hs_done hs_want_read hs_want_write hs_error : TlsStep

-- The calls on the TLS session of the data connection. `wait` polls the connection for a tenth of a second, to be readable
-- or writable, and says whether it is; `free` gives up the session.
pub record Tls (W : Type 0) : Type 0 where
  pub session_create : Option ℕ → W → Bool × W
  pub handshake : W → TlsStep × W
  pub close_notify : W → TlsStep × W
  pub wait : Bool → W → Bool × W
  pub free : W → W

-- Numbers of rounds: of the handshake, of the loops over directories, over entries, over chunks, and inside a chunk.
pub record Rounds : Type 0 where
  pub handshakes : ℕ
  pub directories : ℕ
  pub entries : ℕ
  pub chunks : ℕ
  pub sends : ℕ

-- The return code, the count of bytes and the world; a code of `none` means that the rounds are used up.
abbrev pub Ran : Type 0 → Type 0
Ran W = Option (Result (Unit {0})) × ℕ × W

module _ {W : Type 0} (dial : Dial W) (tls : Tls W) (fs : Fs W) (dirs : Dirs W) (files : Files W)
    (ch : Channel W) where
  -- data_tls_setup: the handshake
  abbrev pub hs_waited :
      (W → Option (Result (Unit {0})) × W) → Result (Unit {0}) × W → Option (Result (Unit {0})) × W
  hs_waited again (ok u, w) = again w
  hs_waited again (err eagain, w) = again w
  hs_waited again (err e, w) = (some (err e), w)

  unfoldable pub hs_step :
      (W → Option (Result (Unit {0})) × W) → TlsStep × W → Option (Result (Unit {0})) × W
  unfolding wait_fd
  hs_step again (hs_done, w) = (some (ok tt), w)
  hs_step again (hs_want_read, w) = hs_waited again (wait_fd ch false w)
  hs_step again (hs_want_write, w) = hs_waited again (wait_fd ch true w)
  hs_step again (hs_error, w) = (some (err epipe), w)

  abbrev pub hs_round :
      (W → Option (Result (Unit {0})) × W) → Bool × W → Option (Result (Unit {0})) × W
  hs_round go (true, w) = (some (err ecanceled), w)
  hs_round go (false, w) = go w

  unfoldable pub tls_handshakes : ℕ → W → Option (Result (Unit {0})) × W
  unfolding hs_step
  tls_handshakes zero w = (none, w)
  tls_handshakes (suc n) w =
      hs_round (λ v. hs_step (tls_handshakes n) (tls.handshake v)) (ch.cancelled w)

  -- data_tls_setup, and whether there is a session afterwards
  unfoldable pub session_made : ℕ → Bool × W → Option (Result (Unit {0})) × Bool × W
  unfolding tls_handshakes
  session_made n (false, w) = (some (err epipe), false, w)
  session_made n (true, w) = let (rc, w') = tls_handshakes n w in (rc, true, w')

  unfoldable pub data_tls_setup : ℕ → Bool → Option ℕ → W → Option (Result (Unit {0})) × Bool × W
  unfolding session_made
  data_tls_setup n server_tls fd w =
      if server_tls
      then session_made n (tls.session_create fd w)
      else (some (err enotsup), false, w)

  -- the switch over the operations
  unfoldable pub transfer_by : Rounds → Bool → Job → JobOp → W → Ran W
  unfolding transfer_list transfer_retr transfer_stor transfer_copy
  transfer_by k secure j list w =
      transfer_list fs dirs ch k.entries k.sends secure j.nlst j.mlsd j.path w
  transfer_by k secure j retr w = transfer_retr files ch k.chunks k.sends secure j.path j.rest w
  transfer_by k secure j stor w =
      transfer_stor files ch k.chunks k.sends secure stor j.path j.rest w
  transfer_by k secure j appe w =
      transfer_stor files ch k.chunks k.sends secure appe j.path j.rest w
  transfer_by k secure j copy w =
      transfer_copy fs dirs files ch j.path j.dst k.directories k.entries k.chunks k.sends w

  -- the close of the TLS session: 50 rounds at most, and only after a success
  unfoldable pub close_step : (W → W) → TlsStep × W → W
  close_step again (hs_done, w) = w
  close_step again (hs_error, w) = w
  close_step again (hs_want_read, w) =
      let (ready, v) = tls.wait false w in if ready then again v else v
  close_step again (hs_want_write, w) =
      let (ready, v) = tls.wait true w in if ready then again v else v

  unfoldable pub close_rounds : ℕ → W → W
  unfolding close_step
  close_rounds zero w = w
  close_rounds (suc n) w = close_step (close_rounds n) (tls.close_notify w)

  unfoldable pub end_session : Bool → Result (Unit {0}) → W → W
  unfolding close_rounds
  end_session false rc w = w
  end_session true (ok u) w = tls.free (close_rounds 50 w)
  end_session true (err e) w = tls.free w

  -- the completion fields; the list of completions is the caller's
  abbrev pub errno_of : Result (Unit {0}) → Option Errno
  errno_of (ok u) = none
  errno_of (err e) = some e

  abbrev pub post : Result (Unit {0}) → Job → Job
  post rc j = record j { result = errno_of rc; posted = true }

  unfoldable pub run_out : Job → Bool → Ran W → Option Job × ℕ × W
  unfolding end_session
  run_out j secure (none, count, w) = (none, count, w)
  run_out j secure (some rc, count, w) = (some (post rc j), count, end_session secure rc w)

  unfoldable pub secured : Rounds → Job → Option (Result (Unit {0})) × Bool × W → Option Job × ℕ × W
  unfolding transfer_by run_out
  secured k j (some (ok u), secure, w) = run_out j secure (transfer_by k secure j j.op w)
  secured k j (some (err e), secure, w) = run_out j secure (some (err e), 0, w)
  secured k j (none, secure, w) = run_out j secure (none, 0, w)

  unfoldable pub connected_run : Rounds → Bool → Outcome W → Option Job × ℕ × W
  unfolding secured data_tls_setup run_out
  connected_run k server_tls (err e, j, w) = run_out j false (some (err e), 0, w)
  connected_run k server_tls (ok u, j, w) = secured k j (
      if j.need_tls
      then data_tls_setup k.handshakes server_tls j.data_fd w
      else (some (ok tt), false, w))

  -- the data connection; a copy has none
  abbrev pub attempt : Bool → Job → W → Outcome W
  attempt allow_foreign_port j w =
      if is_copy j.op then (ok tt, j, w) else connect_job dial allow_foreign_port j w

  -- opftp_transfer_run: the job as it is posted, and the number of bytes
  unfoldable pub transfer_run : Rounds → Bool → Bool → Job → W → Option Job × ℕ × W
  unfolding connected_run
  transfer_run k server_tls allow_foreign_port j w =
      connected_run k server_tls (attempt allow_foreign_port j w)
