-- ===== src/Run/Reply.antt =====
-- src/transfer.c with src/datachan.c: the reply that a job leads to.
use openps3ftp.Base.{
  ℕ, ◌≡◌, ◌⊎◌, refl, sym, ◌∙◌, ap, subst, Bool, true, false, not, ◌&&◌, Option, none, some,
  if◌then◌else◌, arith, Bool-cases, inl, inr, some-inj,
}
use openps3ftp.Session.{Errno, Result, ok, err, Job, Fs}
use openps3ftp.Worker.{Files, Channel}
use openps3ftp.Worker.Directory.{Dirs}
use openps3ftp.Connect.{Dial, Outcome, connect_job}
use openps3ftp.Connect.Trust.{IsHonest, connect_job-IsHonest}
use openps3ftp.Completion.{is_copy, final_reply}
use openps3ftp.Run.{
  Tls, Rounds, Ran, attempt, post, run_out, transfer_by, secured, data_tls_setup, connected_run,
  transfer_run,
}
use openps3ftp.Run.Answer.{code_of, IsAnswer, result_reply-IsAnswer, unconnected-IsAnswer}
use openps3ftp.Run.Prepared.{
  Transferred, IsReady, transfer_by-Transferred, Prepared, setup-Prepared,
}

module _ {W : Type 0} (dial : Dial W) (tls : Tls W) (fs : Fs W) (dirs : Dirs W) (files : Files W)
    (ch : Channel W) where
  -- whether the reply is chosen by the result of the transfer
  Tells : Outcome W → Type 0
  Tells (ok u, j, w) = (not j.conn_ok && not (is_copy j.op)) ≡ false
  Tells (err e, j, w) = (not j.conn_ok && not (is_copy j.op)) ≡ true

  honest-Tells :
      (allow : Bool) (j : Job) (r : Outcome W)
      → is_copy j.op ≡ false
      → IsHonest dial allow j.op r
      → Tells r
  unfolding IsHonest Tells
  honest-Tells allow j (ok u, j', w) c h = rw h refl
  honest-Tells allow j (err e, j', w) c h = rw (h.0, h.1, c) refl

  attempt-Tells :
      (allow : Bool) (j : Job) (w : W)
      → j.conn_ok ≡ false
      → Tells (attempt dial tls fs dirs files ch allow j w)
  unfolding Tells
  attempt-Tells allow j w fresh = elim (Bool-cases (is_copy j.op)) [
    | inl copies ↦ rw copies (ground (arith, copies))
    | inr moves ↦ rw moves (
        honest-Tells allow j (connect_job dial allow j w) moves
          (connect_job-IsHonest dial allow j.op j w (fresh, refl)))
  ]

  -- a transfer that returned 0, over TLS exactly when the job wants it
  pub record Succeeded (k : Rounds) (server_tls : Bool) (o : Outcome W) (r : Option Job × ℕ × W)
      : Type 0 where
    pub connected : o.0 ≡ ok tt
    pub before : W
    pub ready : IsReady dial tls fs dirs files ch o.1.need_tls server_tls o.1.data_fd o.2 before
    pub moved : Transferred dial tls fs dirs files ch k o.1 o.1.op before (ok tt) r.1

  run_out-count :
      (j t : Job) (secure : Bool) (r : Ran W)
      → (run_out dial tls fs dirs files ch j secure r).0 ≡ some t
      → t.result ≡ none
      → (r.0 ≡ some (ok tt)) × ((run_out dial tls fs dirs files ch j secure r).1 ≡ r.1)
  unfolding run_out
  run_out-count j t secure (none, count, w) h e = absurd cc
  run_out-count j t secure (some (ok u), count, w) h e = (refl, refl)
  run_out-count j t secure (some (err x), count, w) h e =
      let bad : some x ≡ none = ap (λ (j : Job). j.result) (some-inj h) ∙ e in absurd cc

  secured-Succeeded :
      (k : Rounds) (server_tls : Bool) (j t : Job) (w₀ : W)
      (x : Option (Result (Unit {0})) × Bool × W)
      → Prepared dial tls fs dirs files ch j.need_tls server_tls j.data_fd w₀ x
      → (secured dial tls fs dirs files ch k j x).0 ≡ some t
      → t.result ≡ none
      → Succeeded k server_tls (ok tt, j, w₀) (secured dial tls fs dirs files ch k j x)
  unfolding secured
  secured-Succeeded k server_tls j t w₀ (some (ok u), secure, w) s h e =
      let by : Bool → Ran W = λ b. transfer_by dial tls fs dirs files ch k b j j.op w in
      let c = run_out-count j t secure (by secure) h e in
      let (same, ready) = s refl in
      record {
        connected = refl;
        before = w;
        ready = ready;
        moved =
            transfer_by-Transferred dial tls fs dirs files ch k j j.op w (ok tt) _
              (subst (λ (b : Bool). (by b).0 ≡ some (ok tt)) same c.0)
              (sym (c.1 ∙ ap (λ b. (by b).1) same));
      }
  secured-Succeeded k server_tls j t w₀ (some (err x), secure, w) s h e =
      let c = (run_out-count j t secure (some (err x), 0, w) h e).0 in absurd cc
  secured-Succeeded k server_tls j t w₀ (none, secure, w) s h e =
      let c = (run_out-count j t secure (none, 0, w) h e).0 in absurd cc

  connected_run-Succeeded :
      (k : Rounds) (server_tls : Bool) (o : Outcome W) (t : Job)
      → (connected_run dial tls fs dirs files ch k server_tls o).0 ≡ some t
      → t.result ≡ none
      → Succeeded k server_tls o (connected_run dial tls fs dirs files ch k server_tls o)
  unfolding connected_run
  connected_run-Succeeded k server_tls (err x, j, w) t h e =
      let c = (run_out-count j t false (some (err x), 0, w) h e).0 in absurd cc
  connected_run-Succeeded k server_tls (ok u, j, w) t h e =
      secured-Succeeded k server_tls j t w _
        (setup-Prepared dial tls fs dirs files ch k.handshakes j.need_tls server_tls j.data_fd w) h
        e

  -- A job is posted with the result 0 only when its data connection was established (a copy needs none); when, if it wants TLS,
  -- the server allows that, a session was created on the connection, and the transfer started after a handshake call
  -- that said it was done; and when the transfer of its operation, over TLS exactly when it wants that, returned 0. The
  -- bytes counted are those of the transfer.
  pub transfer_run-Succeeded :
      (k : Rounds) (server_tls allow : Bool) (j t : Job) (w : W)
      → (transfer_run dial tls fs dirs files ch k server_tls allow j w).0 ≡ some t
      → t.result ≡ none
      → Succeeded k server_tls
          (attempt dial tls fs dirs files ch allow j w)
          (transfer_run dial tls fs dirs files ch k server_tls allow j w)
  unfolding transfer_run
  transfer_run-Succeeded k server_tls allow j t w h e =
      connected_run-Succeeded k server_tls (attempt dial tls fs dirs files ch allow j w) t h e

  -- What is posted when the connection attempt failed: its error, and no byte. Otherwise what the transfer returned, with its
  -- count; or, where TLS is wanted and its setup failed, the error of that, and no byte.
  abbrev pub Posted : Rounds → Bool → Outcome W → ℕ → Option Errno → Type 0
  Posted k server_tls (err e, j, w) count result = (result ≡ some e) × (count ≡ 0)
  Posted k server_tls (ok u, j, w) count result =
      ((rc : Result (Unit {0})) × (before : W) × IsReady dial tls fs dirs files ch j.need_tls
          server_tls j.data_fd w before
        × Transferred dial tls fs dirs files ch k j j.op before rc count
        × (result ≡ code_of rc))
      ⊎ ((e : Errno) × (j.need_tls ≡ true)
          × ((data_tls_setup dial tls fs dirs files ch k.handshakes server_tls j.data_fd w).0
              ≡ some (err e))
          × (result ≡ some e)
          × (count ≡ 0))

  pub record Answered (k : Rounds) (server_tls : Bool) (o : Outcome W) (r : Option Job × ℕ × W)
      (t : Job) : Type 0 where
    pub result : Posted k server_tls o r.1 t.result
    pub posted : t.posted ≡ true
    pub answer : IsAnswer t.op t.result (final_reply t)

  setup_failed :
      (n : ℕ) (need server_tls : Bool) (fd : Option ℕ) (w : W) (e : Errno)
      → (if need
          then data_tls_setup dial tls fs dirs files ch n server_tls fd w
          else (some (ok tt), false, w)).0
        ≡ some (err e)
      → (need ≡ true)
        × ((data_tls_setup dial tls fs dirs files ch n server_tls fd w).0 ≡ some (err e))
  setup_failed n true server_tls fd w e h = (refl, h)
  setup_failed n false server_tls fd w e h = absurd cc

  -- the reply to a job with a connection, or to a copy
  answered :
      (rc : Result (Unit {0})) (j : Job)
      → (not j.conn_ok && not (is_copy j.op)) ≡ false
      → let t = post dial tls fs dirs files ch rc j in IsAnswer t.op t.result (final_reply t)
  unfolding final_reply
  answered rc j d = rw d (result_reply-IsAnswer j.op (code_of rc))

  -- what a result that is posted is to satisfy
  Answers : Rounds → Bool → Outcome W → Job → ℕ → Result (Unit {0}) → Type 0
  Answers k server_tls o j count rc =
      Posted k server_tls o count (code_of rc)
      × IsAnswer j.op (code_of rc) (final_reply (post dial tls fs dirs files ch rc j))

  run_out-Answered :
      (k : Rounds) (server_tls : Bool) (o : Outcome W) (j t : Job) (secure : Bool) (r : Ran W)
      → (run_out dial tls fs dirs files ch j secure r).0 ≡ some t
      → ((rc : Result (Unit {0})) → r.0 ≡ some rc → Answers k server_tls o j r.1 rc)
      → Answered k server_tls o (run_out dial tls fs dirs files ch j secure r) t
  unfolding run_out Answers
  run_out-Answered k server_tls o j t secure (none, count, w) h g = absurd cc
  run_out-Answered k server_tls o j t secure (some rc, count, w) h g =
      let p = g rc refl in
      let r = run_out dial tls fs dirs files ch j secure (some rc, count, w) in
      subst (λ (t : Job). Answered k server_tls o r t) (some-inj h)
        (record { result = p.0; posted = refl; answer = p.1 })

  secured-Answered :
      (k : Rounds) (server_tls : Bool) (j t : Job) (w₀ : W)
      (x : Option (Result (Unit {0})) × Bool × W)
      → Prepared dial tls fs dirs files ch j.need_tls server_tls j.data_fd w₀ x
      → ((e : Errno)
          → x.0 ≡ some (err e)
          → (j.need_tls ≡ true)
            × ((data_tls_setup dial tls fs dirs files ch k.handshakes server_tls j.data_fd w₀).0
                ≡ some (err e)))
      → (not j.conn_ok && not (is_copy j.op)) ≡ false
      → (secured dial tls fs dirs files ch k j x).0 ≡ some t
      → Answered k server_tls (ok tt, j, w₀) (secured dial tls fs dirs files ch k j x) t
  unfolding secured Answers run_out
  secured-Answered k server_tls j t w₀ (some (ok u), secure, w) s f d h =
      let by : Bool → Ran W = λ b. transfer_by dial tls fs dirs files ch k b j j.op w in
      let (same, ready) = s refl in
      run_out-Answered k server_tls (ok tt, j, w₀) j t secure (by secure) h
        (λ rc e. (
          inl (
            rc,
            w,
            ready,
            transfer_by-Transferred dial tls fs dirs files ch k j j.op w rc (by secure).1
                (subst (λ (b : Bool). (by b).0 ≡ some rc) same e) (sym (ap (λ b. (by b).1) same)),
            refl,
          ),
          answered rc j d,
        ))
  secured-Answered k server_tls j t w₀ (some (err e), secure, w) s f d h =
      run_out-Answered k server_tls (ok tt, j, w₀) j t secure (some (err e), 0, w) h
        (λ rc same.
          subst (Answers k server_tls (ok tt, j, w₀) j 0) (some-inj same)
            (inr (e, (f e refl).0, (f e refl).1, refl, refl), answered (err e) j d))
  secured-Answered k server_tls j t w₀ (none, secure, w) s f d h = absurd cc

  connected_run-Answered :
      (k : Rounds) (server_tls : Bool) (o : Outcome W) (t : Job)
      → Tells o
      → (connected_run dial tls fs dirs files ch k server_tls o).0 ≡ some t
      → Answered k server_tls o (connected_run dial tls fs dirs files ch k server_tls o) t
  unfolding connected_run Tells Answers final_reply run_out
  connected_run-Answered k server_tls (err e, j, w) t d h =
      run_out-Answered k server_tls (err e, j, w) j t false (some (err e), 0, w) h
        (λ rc same.
          subst (Answers k server_tls (err e, j, w) j 0) (some-inj same)
            ((refl, refl), rw d (unconnected-IsAnswer j.op e)))
  connected_run-Answered k server_tls (ok u, j, w) t d h =
      secured-Answered k server_tls j t w _
        (setup-Prepared dial tls fs dirs files ch k.handshakes j.need_tls server_tls j.data_fd w)
        (λ e. setup_failed k.handshakes j.need_tls server_tls j.data_fd w e) d h

  -- When a job without a connection is run and posted, its result is the error of the connection attempt where that
  -- fails, and no byte is counted; the error of the TLS setup where the job wants TLS and that fails, and no byte is counted; and
  -- otherwise, and for a copy, what the transfer of its operation returned, with its count. The reply that the completion
  -- sends is 226, or 250 for a copy, exactly to the result 0 of a job that was connected; else its code is 400 or more, and
  -- 426 for ECANCELED.
  pub transfer_run-Answered :
      (k : Rounds) (server_tls allow : Bool) (j t : Job) (w : W)
      → j.conn_ok ≡ false
      → (transfer_run dial tls fs dirs files ch k server_tls allow j w).0 ≡ some t
      → Answered k server_tls
          (attempt dial tls fs dirs files ch allow j w)
          (transfer_run dial tls fs dirs files ch k server_tls allow j w)
          t
  unfolding transfer_run
  transfer_run-Answered k server_tls allow j t w fresh h =
      connected_run-Answered k server_tls (attempt dial tls fs dirs files ch allow j w) t
        (attempt-Tells allow j w fresh) h
