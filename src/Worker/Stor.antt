-- ===== src/Worker/Stor.antt =====
-- fs_write_all, recv_some and the loop of transfer_stor of src/transfer.c: what the file gets of what the client sends.
use openps3ftp.Base.{
  ℕ, zero, suc, ◌+◌, ◌≡◌, refl, sym, ◌∙◌, ap, Bool, true, false, Option, none, some, [], ◌∷◌, ◌++◌,
  Bytes, length, drop, arith, append-nil, append_assoc, if_both,
}
use openps3ftp.Session.{eio, ecanceled, eagain, Result, ok, err}
use openps3ftp.Worker.{
  Files, Channel, Again, Run, Polled, poll_error, timed_out, woken, broken, ready, idle, Arrived,
  bytes, recv_error, retry_unless, polled, wait_fd, wrote, fs_write_all, plain_arrived, pause,
  tls_arrived, then_recv, recv_round, recv_some, transfer_buf,
}
use openps3ftp.Worker.Moves.{moved, stor_chunk, unless_cancelled, stor_loop}
use openps3ftp.Worker.Laws.{store_view, Writes, Receives, IsKeeping}
use openps3ftp.Worker.Send.{IsPart, halt, pass}
use openps3ftp.Worker.Retr.{Through, Through-append}

module _ {W : Type 0} (written : ℕ → W → Bytes) (arrived : W → Bytes) (fd : ℕ) (files : Files W)
    (writes : (buf : Bytes) (w : W) → Writes written arrived fd buf w (files.write fd buf w)) where
  -- The file gets the first part of a buffer, and all of it if the loop says so; nothing is received.
  abbrev pub IsWritten : Bytes → W → Option (Result (Unit {0})) × W → Type 0
  IsWritten = IsPart (written fd) (λ fd w. arrived w) fd

  wrote-IsWritten :
      (buf : Bytes) (again : Again W) (w : W) (r : Result ℕ × W)
      → ((b : Bytes) (w' : W) → IsWritten b w' (again b w'))
      → Writes written arrived fd buf w r
      → IsWritten buf w (wrote files again buf r)
  unfolding wrote
  wrote-IsWritten buf again w (ok zero, w') h p =
      halt (written fd) (λ fd w. arrived w) fd buf w w' (some (err eio)) tt
        (p.1 ∙ ap (λ (o : Bytes). (o, arrived w)) (append-nil (written fd w)))
  wrote-IsWritten buf again w (ok (suc n), w') h p =
      pass (written fd) (λ fd w. arrived w) fd (suc n) buf w w' (again (drop (suc n) buf) w') p.1
        (h (drop (suc n) buf) w')
  wrote-IsWritten buf again w (err e, w') h p =
      halt (written fd) (λ fd w. arrived w) fd buf w w' (some (err e)) tt p

  pub fs_write_all-IsWritten :
      (n : ℕ) (buf : Bytes) (w : W) → IsWritten buf w (fs_write_all files n fd buf w)
  unfolding fs_write_all
  fs_write_all-IsWritten zero [] w =
      halt (written fd) (λ fd w. arrived w) fd [] w w (some (ok tt)) refl refl
  fs_write_all-IsWritten (suc n) [] w =
      halt (written fd) (λ fd w. arrived w) fd [] w w (some (ok tt)) refl refl
  fs_write_all-IsWritten zero (b ∷ buf) w =
      halt (written fd) (λ fd w. arrived w) fd (b ∷ buf) w w none tt refl
  fs_write_all-IsWritten (suc n) (b ∷ buf) w =
      wrote-IsWritten (b ∷ buf) (fs_write_all files n fd) w (files.write fd (b ∷ buf) w)
        (fs_write_all-IsWritten n) (writes (b ∷ buf) w)

module _ {W : Type 0} (written : ℕ → W → Bytes) (arrived : W → Bytes) (fd : ℕ) (files : Files W)
    (ch : Channel W) (law : IsKeeping written arrived files ch) where
  -- the bytes that recv_some returns are those received, and nothing is written
  Takes : W → Result Bytes × W → Type 0
  Takes w (ok b, w') = store_view written arrived fd w' ≡ (written fd w, arrived w ++ b)
  Takes w (err e, w') = store_view written arrived fd w' ≡ store_view written arrived fd w

  Keeps : W → W → Type 0
  Keeps w w' = store_view written arrived fd w' ≡ store_view written arrived fd w

  retry-Keeps : (w : W) (b : Bool × W) → Keeps w b.1 → Keeps w (retry_unless ch b).1
  retry-Keeps w (true, w') h = h
  retry-Keeps w (false, w') h = h

  polled-Keeps : (w : W) (p : Polled × W) → Keeps w p.1 → Keeps w (polled ch p).1
  unfolding polled Keeps
  polled-Keeps w (poll_error e, w') h = h
  polled-Keeps w (timed_out, w') h = retry-Keeps w (ch.cancelled w') (law.cancelled fd w' ∙ h)
  polled-Keeps w (woken, w') h = retry-Keeps w (ch.cancelled w') (law.cancelled fd w' ∙ h)
  polled-Keeps w (broken, w') h = h
  polled-Keeps w (ready, w') h = h
  polled-Keeps w (idle, w') h = h

  wait_fd-Keeps : (b : Bool) (w : W) → Keeps w (wait_fd ch b w).1
  unfolding wait_fd Keeps
  wait_fd-Keeps b w = polled-Keeps w (ch.poll b w) (law.poll fd b w)

  plain_arrived-Takes :
      (w w' : W) (r : Arrived × W)
      → Keeps w w'
      → Receives written arrived fd w' r
      → Takes w (plain_arrived ch r)
  unfolding plain_arrived Takes Keeps
  plain_arrived-Takes w w' (bytes b, v) e h = h ∙ ap (λ (p : Bytes × Bytes). (p.0, p.1 ++ b)) e
  plain_arrived-Takes w w' (Arrived.want_read, v) e h = h ∙ e
  plain_arrived-Takes w w' (Arrived.want_write, v) e h = h ∙ e
  plain_arrived-Takes w w' (recv_error x, v) e h = h ∙ e

  pause-Takes : (w : W) (r : Result (Unit {0}) × W) → Keeps w r.1 → Takes w (pause ch r)
  unfolding Takes Keeps
  pause-Takes w (ok u, v) e = e
  pause-Takes w (err x, v) e = e

  tls_arrived-Takes :
      (w w' : W) (r : Arrived × W)
      → Keeps w w'
      → Receives written arrived fd w' r
      → Takes w (tls_arrived ch r)
  unfolding tls_arrived Takes Keeps
  tls_arrived-Takes w w' (bytes b, v) e h = h ∙ ap (λ (p : Bytes × Bytes). (p.0, p.1 ++ b)) e
  tls_arrived-Takes w w' (Arrived.want_read, v) e h =
      pause-Takes w (wait_fd ch false v) (wait_fd-Keeps false v ∙ h ∙ e)
  tls_arrived-Takes w w' (Arrived.want_write, v) e h =
      pause-Takes w (wait_fd ch true v) (wait_fd-Keeps true v ∙ h ∙ e)
  tls_arrived-Takes w w' (recv_error x, v) e h = h ∙ e

  then_recv-Takes :
      (room : ℕ) (w : W) (r : Result (Unit {0}) × W) → Keeps w r.1 → Takes w (then_recv ch room r)
  then_recv-Takes room w (ok u, w') e =
      plain_arrived-Takes w w' (ch.recv room w') e (law.recv fd room w')
  then_recv-Takes room w (err x, w') e = unfold Takes Keeps in e

  recv_round-Takes :
      (tls : Bool) (room : ℕ) (w : W) (r : Bool × W)
      → Keeps w r.1
      → Takes w (recv_round ch tls room r)
  unfolding Takes Keeps
  recv_round-Takes tls room w (true, w') e = e
  recv_round-Takes tls room w (false, w') e =
      if_both (Takes w) tls
        (tls_arrived-Takes w w' (ch.tls_read room w') e (law.tls_read fd room w'))
        (then_recv-Takes room w (wait_fd ch false w') (wait_fd-Keeps false w' ∙ e))

  recv_some-Takes : (tls : Bool) (room : ℕ) (w : W) → Takes w (recv_some ch tls room w)
  unfolding recv_some Keeps
  recv_some-Takes tls room w = recv_round-Takes tls room w (ch.cancelled w) (law.cancelled fd w)

  -- What is received is written, in order: all of it when the loop says so, else up to some byte.
  pub record IsStored (count : ℕ) (w : W) (r : Run W) : Type 0 where
    pub kept : Bytes
    pub lost : Bytes
    pub received : arrived r.2 ≡ arrived w ++ (kept ++ lost)
    pub stored : written fd r.2 ≡ written fd w ++ kept
    pub through : Through r.0 count r.1 kept lost

  quiet_end :
      (count : ℕ) (w w' : W) (rc : Option (Result (Unit {0})))
      → Through rc count count [] []
      → Keeps w w'
      → IsStored count w (rc, count, w')
  unfolding Keeps
  quiet_end count w w' rc t e = record {
    kept = [];
    lost = [];
    received = ap (λ (v : Bytes × Bytes). v.1) e ∙ sym (append-nil (arrived w));
    stored = ap (λ (v : Bytes × Bytes). v.0) e ∙ sym (append-nil (written fd w));
    through = t;
  }

  -- some bytes are received and written, and then others
  more :
      (chunk : Bytes) (count : ℕ) (w w' : W) (r : Run W)
      → store_view written arrived fd w' ≡ (written fd w ++ chunk, arrived w ++ chunk)
      → IsStored (count + length chunk) w' r
      → IsStored count w r
  more chunk count w w' r e h = record {
    kept = chunk ++ h.kept;
    lost = h.lost;
    received =
        h.received
        ∙ ap (λ (v : Bytes × Bytes). v.1 ++ (h.kept ++ h.lost)) e
        ∙ append_assoc (arrived w) chunk (h.kept ++ h.lost)
        ∙ ap (λ l. arrived w ++ l) (sym (append_assoc chunk h.kept h.lost));
    stored =
        h.stored
        ∙ ap (λ (v : Bytes × Bytes). v.0 ++ h.kept) e
        ∙ append_assoc (written fd w) chunk h.kept;
    through = Through-append r.0 count r.1 chunk h.kept h.lost h.through;
  }

  -- the loop ends within a chunk
  partly :
      (chunk : Bytes) (count : ℕ) (w w' v : W) (rc : Option (Result (Unit {0})))
      → ((k l : Bytes) → Through rc count count k l)
      → store_view written arrived fd w' ≡ (written fd w, arrived w ++ chunk)
      → IsWritten written arrived fd files (law.writes fd) chunk w' (rc, v)
      → IsStored count w (rc, count, v)
  partly chunk count w w' v rc t e p = record {
    kept = p.sent;
    lost = p.unsent;
    received =
        ap (λ (q : Bytes × Bytes). q.1) p.moved
        ∙ ap (λ (q : Bytes × Bytes). q.1) e
        ∙ ap (λ l. arrived w ++ l) p.parts;
    stored = ap (λ (q : Bytes × Bytes). q.0) p.moved ∙ ap (λ (q : Bytes × Bytes). q.0 ++ p.sent) e;
    through = t p.sent p.unsent;
  }

  -- nothing is received and nothing written, and the loop goes on
  again_from :
      (count : ℕ) (w w' : W) (r : Run W) → Keeps w w' → IsStored count w' r → IsStored count w r
  unfolding Keeps
  again_from count w w' r e h = record {
    kept = h.kept;
    lost = h.lost;
    received = h.received ∙ ap (λ (v : Bytes × Bytes). v.1 ++ (h.kept ++ h.lost)) e;
    stored = h.stored ∙ ap (λ (v : Bytes × Bytes). v.0 ++ h.kept) e;
    through = h.through;
  }

  stored_chunk :
      (chunk : Bytes) (again : ℕ → W → Run W) (count : ℕ) (w w' : W)
      (r : Option (Result (Unit {0})) × W)
      → ((c : ℕ) (v : W) → IsStored c v (again c v))
      → store_view written arrived fd w' ≡ (written fd w, arrived w ++ chunk)
      → IsWritten written arrived fd files (law.writes fd) chunk w' r
      → IsStored count w (moved files ch again (length chunk) count r)
  unfolding moved
  stored_chunk chunk again count w w' (some (ok u), v) h e p =
      let whole : chunk ≡ p.sent = p.parts ∙ ap (λ l. p.sent ++ l) p.done ∙ append-nil p.sent in
      more chunk count w v (again (count + length chunk) v)
        (p.moved
          ∙ ap (λ (q : Bytes × Bytes). (q.0 ++ p.sent, q.1)) e
          ∙ ap (λ (b : Bytes). (written fd w ++ b, arrived w ++ chunk)) (sym whole))
        (h (count + length chunk) v)
  stored_chunk chunk again count w w' (some (err x), v) h e p =
      partly chunk count w w' v (some (err x)) (λ k l. tt) e p
  stored_chunk chunk again count w w' (none, v) h e p =
      partly chunk count w w' v none (λ k l. tt) e p

  stor_chunk-IsStored :
      (n : ℕ) (again : ℕ → W → Run W) (count : ℕ) (w : W) (r : Result Bytes × W)
      → ((c : ℕ) (v : W) → IsStored c v (again c v))
      → Takes w r
      → IsStored count w (stor_chunk files ch again n fd count r)
  unfolding stor_chunk Takes
  stor_chunk-IsStored n again count w (ok [], w') h e =
      quiet_end count w w' (some (ok tt)) (refl, omega arith)
        (unfold Keeps in e ∙ ap (λ (b : Bytes). (written fd w, b)) (append-nil (arrived w)))
  stor_chunk-IsStored n again count w (ok (b ∷ buf), w') h e =
      stored_chunk (b ∷ buf) again count w w' (fs_write_all files n fd (b ∷ buf) w') h e
        (fs_write_all-IsWritten written arrived fd files (law.writes fd) n (b ∷ buf) w')
  stor_chunk-IsStored n again count w (err eagain, w') h e =
      again_from count w w' (again count w') (unfold Keeps in e) (h count w')
  stor_chunk-IsStored n again count w (err x, w') h e =
      quiet_end count w w' (some (err x)) tt (unfold Keeps in e)

  unless_cancelled-IsStored :
      (count : ℕ) (w : W) (go : W → Run W) (r : Bool × W)
      → ((w' : W) → IsStored count w' (go w'))
      → Keeps w r.1
      → IsStored count w (unless_cancelled files ch go count r)
  unless_cancelled-IsStored count w go (true, w') h e =
      quiet_end count w w' (some (err ecanceled)) tt e
  unless_cancelled-IsStored count w go (false, w') h e = again_from count w w' (go w') e (h w')

  -- However many rounds the loop of STOR and APPE has made, and whatever its result, what has been written to the file is the
  -- first part of what has been received, in order; when the result is 0 all of it has been written, and its length added to
  -- the count.
  pub stor_loop-IsStored :
      (m n : ℕ) (tls : Bool) (count : ℕ) (w : W)
      → IsStored count w (stor_loop files ch m n tls fd count w)
  unfolding stor_loop Keeps
  stor_loop-IsStored zero n tls count w = quiet_end count w w none tt refl
  stor_loop-IsStored (suc m) n tls count w =
      let again = stor_loop files ch m n tls fd in
      unless_cancelled-IsStored count w
        (λ v. stor_chunk files ch again n fd count (recv_some ch tls transfer_buf v))
        (ch.cancelled w)
        (λ v.
          stor_chunk-IsStored n again count v (recv_some ch tls transfer_buf v)
            (λ c u. stor_loop-IsStored m n tls c u) (recv_some-Takes tls transfer_buf v))
        (law.cancelled fd w)
