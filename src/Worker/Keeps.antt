-- ===== src/Worker/Keeps.antt =====
-- transfer_stor of src/transfer.c: what the calls of its loop keep, the loop keeps.
use openps3ftp.Base.{
  ℕ, zero, suc, Bool, true, false, Option, none, some, [], ◌∷◌, Bytes, length, drop, if_both,
}
use openps3ftp.Session.{eagain, Result, ok, err}
use openps3ftp.Worker.{
  Files, Channel, Again, Run, Polled, poll_error, timed_out, woken, broken, ready, idle, Arrived,
  bytes, recv_error, retry_unless, polled, wait_fd, wrote, fs_write_all, plain_arrived, pause,
  tls_arrived, then_recv, recv_round, recv_some, transfer_buf,
}
use openps3ftp.Worker.Moves.{moved, stor_chunk, unless_cancelled, stor_loop}

module _ {W : Type 0} (P : W → Type 0) (fd : ℕ) (files : Files W)
    (writes : (buf : Bytes) (w : W) → P w → P (files.write fd buf w).1) where
  wrote-keeps :
      (again : Again W) (buf : Bytes) (r : Result ℕ × W)
      → ((b : Bytes) (w : W) → P w → P (again b w).1)
      → P r.1
      → P (wrote files again buf r).1
  unfolding wrote
  wrote-keeps again buf (ok zero, w) h k = k
  wrote-keeps again buf (ok (suc n), w) h k = h (drop (suc n) buf) w k
  wrote-keeps again buf (err e, w) h k = k

  pub fs_write_all-keeps : (n : ℕ) (buf : Bytes) (w : W) → P w → P (fs_write_all files n fd buf w).1
  unfolding fs_write_all
  fs_write_all-keeps zero [] w h = h
  fs_write_all-keeps (suc n) [] w h = h
  fs_write_all-keeps zero (b ∷ buf) w h = h
  fs_write_all-keeps (suc n) (b ∷ buf) w h =
      wrote-keeps (fs_write_all files n fd) (b ∷ buf) (files.write fd (b ∷ buf) w)
        (fs_write_all-keeps n) (writes (b ∷ buf) w h)

module _ {W : Type 0} (P : W → Type 0) (fd : ℕ) (files : Files W) (ch : Channel W) where
  pub record IsKept : Type 0 where
    pub cancelled : (w : W) → P w → P (ch.cancelled w).1
    pub poll : (b : Bool) (w : W) → P w → P (ch.poll b w).1
    pub recv : (room : ℕ) (w : W) → P w → P (ch.recv room w).1
    pub tls_read : (room : ℕ) (w : W) → P w → P (ch.tls_read room w).1
    pub writes : (buf : Bytes) (w : W) → P w → P (files.write fd buf w).1

  module _ (law : IsKept) where
    retry-keeps : (b : Bool × W) → P b.1 → P (retry_unless ch b).1
    retry-keeps (true, w) h = h
    retry-keeps (false, w) h = h

    polled-keeps : (r : Polled × W) → P r.1 → P (polled ch r).1
    unfolding polled
    polled-keeps (poll_error e, w) h = h
    polled-keeps (timed_out, w) h = retry-keeps (ch.cancelled w) (law.cancelled w h)
    polled-keeps (woken, w) h = retry-keeps (ch.cancelled w) (law.cancelled w h)
    polled-keeps (broken, w) h = h
    polled-keeps (ready, w) h = h
    polled-keeps (idle, w) h = h

    wait_fd-keeps : (b : Bool) (w : W) → P w → P (wait_fd ch b w).1
    unfolding wait_fd
    wait_fd-keeps b w h = polled-keeps (ch.poll b w) (law.poll b w h)

    plain_arrived-keeps : (r : Arrived × W) → P r.1 → P (plain_arrived ch r).1
    unfolding plain_arrived
    plain_arrived-keeps (bytes b, w) h = h
    plain_arrived-keeps (Arrived.want_read, w) h = h
    plain_arrived-keeps (Arrived.want_write, w) h = h
    plain_arrived-keeps (recv_error e, w) h = h

    pause-keeps : (r : Result (Unit {0}) × W) → P r.1 → P (pause ch r).1
    pause-keeps (ok u, w) h = h
    pause-keeps (err e, w) h = h

    tls_arrived-keeps : (r : Arrived × W) → P r.1 → P (tls_arrived ch r).1
    unfolding tls_arrived
    tls_arrived-keeps (bytes b, w) h = h
    tls_arrived-keeps (Arrived.want_read, w) h =
        pause-keeps (wait_fd ch false w) (wait_fd-keeps false w h)
    tls_arrived-keeps (Arrived.want_write, w) h =
        pause-keeps (wait_fd ch true w) (wait_fd-keeps true w h)
    tls_arrived-keeps (recv_error e, w) h = h

    then_recv-keeps : (room : ℕ) (r : Result (Unit {0}) × W) → P r.1 → P (then_recv ch room r).1
    then_recv-keeps room (ok u, w) h = plain_arrived-keeps (ch.recv room w) (law.recv room w h)
    then_recv-keeps room (err e, w) h = h

    recv_round-keeps :
        (tls : Bool) (room : ℕ) (r : Bool × W) → P r.1 → P (recv_round ch tls room r).1
    recv_round-keeps tls room (true, w) h = h
    recv_round-keeps tls room (false, w) h =
        if_both (λ (r : Result Bytes × W). P r.1) tls
          (tls_arrived-keeps (ch.tls_read room w) (law.tls_read room w h))
          (then_recv-keeps room (wait_fd ch false w) (wait_fd-keeps false w h))

    recv_some-keeps : (tls : Bool) (room : ℕ) (w : W) → P w → P (recv_some ch tls room w).1
    unfolding recv_some
    recv_some-keeps tls room w h = recv_round-keeps tls room (ch.cancelled w) (law.cancelled w h)

    moved-keeps :
        (again : ℕ → W → Run W) (len count : ℕ) (r : Option (Result (Unit {0})) × W)
        → ((c : ℕ) (w : W) → P w → P (again c w).2)
        → P r.1
        → P (moved files ch again len count r).2
    unfolding moved
    moved-keeps again len count (some (ok u), w) h k = h _ w k
    moved-keeps again len count (some (err e), w) h k = k
    moved-keeps again len count (none, w) h k = k

    stor_chunk-keeps :
        (again : ℕ → W → Run W) (n count : ℕ) (r : Result Bytes × W)
        → ((c : ℕ) (w : W) → P w → P (again c w).2)
        → P r.1
        → P (stor_chunk files ch again n fd count r).2
    unfolding stor_chunk
    stor_chunk-keeps again n count (ok [], w) h k = k
    stor_chunk-keeps again n count (ok (b ∷ buf), w) h k =
        moved-keeps again (length (b ∷ buf)) count (fs_write_all files n fd (b ∷ buf) w) h
          (fs_write_all-keeps P fd files law.writes n (b ∷ buf) w k)
    stor_chunk-keeps again n count (err eagain, w) h k = h count w k
    stor_chunk-keeps again n count (err e, w) h k = k

    unless_cancelled-keeps :
        (go : W → Run W) (count : ℕ) (r : Bool × W)
        → ((w : W) → P w → P (go w).2)
        → P r.1
        → P (unless_cancelled files ch go count r).2
    unless_cancelled-keeps go count (true, w) h k = k
    unless_cancelled-keeps go count (false, w) h k = h w k

    pub stor_loop-keeps :
        (m n : ℕ) (tls : Bool) (count : ℕ) (w : W)
        → P w
        → P (stor_loop files ch m n tls fd count w).2
    unfolding stor_loop
    stor_loop-keeps zero n tls count w h = h
    stor_loop-keeps (suc m) n tls count w h =
        unless_cancelled-keeps
          (λ v.
            stor_chunk files ch (stor_loop files ch m n tls fd) n fd count
              (recv_some ch tls transfer_buf v))
          count (ch.cancelled w)
          (λ v k.
            stor_chunk-keeps (stor_loop files ch m n tls fd) n count
              (recv_some ch tls transfer_buf v) (λ c u. stor_loop-keeps m n tls c u)
              (recv_some-keeps tls transfer_buf v k))
          (law.cancelled w h)
