-- ===== src/Connect/Trust.antt =====
-- src/datachan.c: which connection a worker uses for the data of its job.
use openps3ftp.Base.{
  ℕ, ◌≡◌, ◌↔◌, refl, Bool, true, false, not, ◌&&◌, Option, none, some, option_some, Bool-cases, inl,
  inr, if◌then◌else◌, if_both,
}
use openps3ftp.Session.{Errno, enotconn, Result, ok, err, Addr, JobOp, Job}
use openps3ftp.Commands.Transfer.{addr_eq}
use openps3ftp.Worker.{Polled, poll_error, timed_out, woken, broken, ready, idle}
use openps3ftp.Connect.{
  Connecting, connected, in_progress, refused, Dial, Outcome, failed, interrupted, when_ready,
  with_data_fd, pasv_accepted, connect_done, connect_begun, port_socket, connect_job,
}

module _ {W : Type 0} (dial : Dial W) (allow : Bool) (op : JobOp) where
  -- a job of the operation that has no connection yet
  abbrev pub IsFresh : Job → Type 0
  IsFresh j = (j.conn_ok ≡ false) × (j.op ≡ op)

  -- the flag is set exactly with the return code 0
  unfoldable pub IsHonest : Outcome W → Type 0
  IsHonest (ok u, j, w) = j.conn_ok ≡ true
  IsHonest (err e, j, w) = IsFresh j

  when_ready-IsHonest :
      (j : Job) (go : W → Outcome W) (p : Polled × W)
      → IsFresh j
      → ((w : W) → IsHonest (go w))
      → IsHonest (when_ready dial allow j go p)
  unfolding when_ready IsHonest
  when_ready-IsHonest j go (poll_error e, w) fresh h = fresh
  when_ready-IsHonest j go (timed_out, w) fresh h = fresh
  when_ready-IsHonest j go (woken, w) fresh h = interrupted_honest (dial.cancelled w)
    where
      interrupted_honest : (b : Bool × W) → IsHonest (interrupted dial allow j b)
      interrupted_honest (true, v) = fresh
      interrupted_honest (false, v) = fresh
  when_ready-IsHonest j go (broken, w) fresh h = h w
  when_ready-IsHonest j go (ready, w) fresh h = h w
  when_ready-IsHonest j go (idle, w) fresh h = h w

  pasv_accepted-IsHonest :
      (j : Job) (r : Result (ℕ × Addr) × W) → IsFresh j → IsHonest (pasv_accepted dial allow j r)
  unfolding pasv_accepted IsHonest
  pasv_accepted-IsHonest j (err e, w) fresh = fresh
  pasv_accepted-IsHonest j (ok p, w) fresh =
      if_both IsHonest (not allow && not (addr_eq p.1 j.ctl_peer)) fresh refl

  connect_done-IsHonest :
      (j : Job) (r : Option Errno × W) → IsFresh j → IsHonest (connect_done dial allow j r)
  unfolding connect_done IsHonest
  connect_done-IsHonest j (none, w) fresh = refl
  connect_done-IsHonest j (some e, w) fresh = fresh

  connect_begun-IsHonest :
      (fd : ℕ) (j : Job) (r : Connecting × W)
      → IsFresh j
      → IsHonest (connect_begun dial allow fd j r)
  unfolding connect_begun IsHonest
  connect_begun-IsHonest fd j (refused e, w) fresh = fresh
  connect_begun-IsHonest fd j (connected, w) fresh =
      when_ready-IsHonest j _ (dial.poll fd true w) fresh
        (λ v. connect_done-IsHonest j (dial.so_error fd v) fresh)
  connect_begun-IsHonest fd j (in_progress, w) fresh =
      when_ready-IsHonest j _ (dial.poll fd true w) fresh
        (λ v. connect_done-IsHonest j (dial.so_error fd v) fresh)

  port_socket-IsHonest :
      (j : Job) (r : Result ℕ × W) → IsFresh j → IsHonest (port_socket dial allow j r)
  unfolding port_socket IsHonest
  port_socket-IsHonest j (err e, w) fresh = fresh
  port_socket-IsHonest j (ok fd, w) fresh =
      connect_begun-IsHonest fd (with_data_fd dial allow fd j) (dial.connect fd j.data_peer w) fresh

  pub connect_job-IsHonest : (j : Job) (w : W) → IsFresh j → IsHonest (connect_job dial allow j w)
  unfolding connect_job IsHonest
  connect_job-IsHonest j w fresh = by_listener j.pasv_fd
    where
      by_listener :
          (o : Option ℕ)
          → IsHonest (elim o [
            | some fd ↦
                when_ready dial allow j
                  (λ v. pasv_accepted dial allow j (dial.accept fd v))
                  (dial.poll fd false w)
            | none ↦
                if j.have_data_peer
                then port_socket dial allow j (dial.socket j.data_peer w)
                else failed dial allow enotconn j w
          ])
      by_listener (some fd) =
          when_ready-IsHonest j _ (dial.poll fd false w) fresh
            (λ v. pasv_accepted-IsHonest j (dial.accept fd v) fresh)
      by_listener none =
          if_both IsHonest j.have_data_peer
            (port_socket-IsHonest j (dial.socket j.data_peer w) fresh) fresh

module _ {W : Type 0} (dial : Dial W) (allow : Bool) where
  honest_iff :
      (op : JobOp) (r : Outcome W) → IsHonest dial allow op r → (r.1.conn_ok ≡ true) ↔ (r.0 ≡ ok tt)
  unfolding IsHonest
  honest_iff op (ok u, j, w) h = (λ e. refl, λ e. h)
  honest_iff op (err x, j, w) h = (λ e. cc, λ e. cc)

  -- A job that has no connection yet is marked as connected exactly when its connection is reported to be established.
  pub connect_job_iff :
      (j : Job) (w : W)
      → j.conn_ok ≡ false
      → ((connect_job dial allow j w).1.conn_ok ≡ true) ↔ ((connect_job dial allow j w).0 ≡ ok tt)
  connect_job_iff j w fresh =
      honest_iff j.op (connect_job dial allow j w)
        (connect_job-IsHonest dial allow j.op j w (fresh, refl))

  -- the connection that the listener gave is from the host of the control connection
  pub record IsFromClient (l : ℕ) (j t : Job) : Type 0 where
    pub fd : ℕ
    pub peer : Addr
    pub before : W
    pub after : W
    pub accepted : dial.accept l before ≡ (ok (fd, peer), after)
    pub same_host : addr_eq peer j.ctl_peer ≡ true
    pub used : t.data_fd ≡ some fd

  Trusted : ℕ → Job → Outcome W → Type 0
  Trusted l j (ok u, t, w) = IsFromClient l j t
  Trusted l j (err e, t, w) = Unit {0}

  pasv_accepted-Trusted :
      (l : ℕ) (j : Job) (v : W) (r : Result (ℕ × Addr) × W)
      → allow ≡ false
      → dial.accept l v ≡ r
      → Trusted l j (pasv_accepted dial allow j r)
  unfolding pasv_accepted Trusted
  pasv_accepted-Trusted l j v (err e, w) closed here = tt
  pasv_accepted-Trusted l j v (ok p, w) closed here = elim (Bool-cases (addr_eq p.1 j.ctl_peer)) [
    | inl same ↦
        rw (closed, same)
          (record {
            fd = p.0;
            peer = p.1;
            before = v;
            after = w;
            accepted = here;
            same_host = same;
            used = refl;
          })
    | inr other ↦ rw (closed, other) tt
  ]

  when_ready-Trusted :
      (l : ℕ) (j : Job) (go : W → Outcome W) (p : Polled × W)
      → ((w : W) → Trusted l j (go w))
      → Trusted l j (when_ready dial allow j go p)
  unfolding when_ready Trusted
  when_ready-Trusted l j go (poll_error e, w) h = tt
  when_ready-Trusted l j go (timed_out, w) h = tt
  when_ready-Trusted l j go (woken, w) h = interrupted_trusted (dial.cancelled w)
    where
      interrupted_trusted : (b : Bool × W) → Trusted l j (interrupted dial allow j b)
      interrupted_trusted (true, v) = tt
      interrupted_trusted (false, v) = tt
  when_ready-Trusted l j go (broken, w) h = h w
  when_ready-Trusted l j go (ready, w) h = h w
  when_ready-Trusted l j go (idle, w) h = h w

  connect_job-Trusted :
      (l : ℕ) (j : Job) (w : W)
      → allow ≡ false
      → j.pasv_fd ≡ some l
      → Trusted l j (connect_job dial allow j w)
  unfolding connect_job
  connect_job-Trusted l j w closed listening =
      option_some (λ (r : Outcome W). Trusted l j r) j.pasv_fd
        (if j.have_data_peer
          then port_socket dial allow j (dial.socket j.data_peer w)
          else failed dial allow enotconn j w)
        (λ fd.
          when_ready dial allow j (λ v. pasv_accepted dial allow j (dial.accept fd v))
            (dial.poll fd false w))
        listening
        (when_ready-Trusted l j _ (dial.poll l false w)
          (λ v. pasv_accepted-Trusted l j v (dial.accept l v) closed refl))

  Trusted-ok :
      (l : ℕ) (j : Job) (r : Outcome W) → Trusted l j r → r.0 ≡ ok tt → IsFromClient l j r.1
  unfolding Trusted
  Trusted-ok l j (ok u, t, w) h e = h
  Trusted-ok l j (err x, t, w) h e = absurd cc

  -- With foreign ports not allowed, a passive connection that is established is one that the listener accepted from the host
  -- of the control connection: nobody else's is used.
  pub connect_job-IsFromClient :
      (l : ℕ) (j : Job) (w : W)
      → allow ≡ false
      → j.pasv_fd ≡ some l
      → (connect_job dial allow j w).0 ≡ ok tt
      → IsFromClient l j (connect_job dial allow j w).1
  connect_job-IsFromClient l j w closed listening done =
      Trusted-ok l j (connect_job dial allow j w) (connect_job-Trusted l j w closed listening) done
