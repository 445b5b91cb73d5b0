-- ===== src/Run/Prepared.antt =====
-- src/transfer.c: in which world a transfer starts, and what it is.
use openps3ftp.Base.{ℕ, zero, suc, ◌≡◌, refl, ap, Bool, true, false, Option, some, if◌then◌else◌}
use openps3ftp.Session.{Result, ok, err, eagain, Job, Fs, JobOp, list, stor, appe, retr, copy}
use openps3ftp.Worker.{Files, Channel, wait_fd}
use openps3ftp.Worker.Moves.{transfer_retr, transfer_stor}
use openps3ftp.Worker.Walk.{transfer_copy}
use openps3ftp.Worker.Directory.{Dirs, transfer_list}
use openps3ftp.Connect.{Dial}
use openps3ftp.Run.{
  Tls, Rounds, transfer_by, session_made, data_tls_setup, TlsStep, hs_done, hs_want_read,
  hs_want_write, hs_error, hs_waited, hs_step, hs_round, tls_handshakes,
}

module _ {W : Type 0} (dial : Dial W) (tls : Tls W) (fs : Fs W) (dirs : Dirs W) (files : Files W)
    (ch : Channel W) where
  -- what each operation transfers
  abbrev pub Transferred : Rounds → Job → JobOp → W → Result (Unit {0}) → ℕ → Type 0
  Transferred k j list w rc count =
      let r = transfer_list fs dirs ch k.entries k.sends j.need_tls j.nlst j.mlsd j.path w in
      (r.0 ≡ some rc) × (r.1 ≡ count)
  Transferred k j retr w rc count =
      let r = transfer_retr files ch k.chunks k.sends j.need_tls j.path j.rest w in
      (r.0 ≡ some rc) × (r.1 ≡ count)
  Transferred k j stor w rc count =
      let r = transfer_stor files ch k.chunks k.sends j.need_tls stor j.path j.rest w in
      (r.0 ≡ some rc) × (r.1 ≡ count)
  Transferred k j appe w rc count =
      let r = transfer_stor files ch k.chunks k.sends j.need_tls appe j.path j.rest w in
      (r.0 ≡ some rc) × (r.1 ≡ count)
  Transferred k j copy w rc count =
      let r =
        transfer_copy fs dirs files ch j.path j.dst k.directories k.entries k.chunks k.sends w in
      (r.0 ≡ some rc) × (r.1 ≡ count)

  -- A session is made in the world `w`, and the last call of the handshake says that it is done and leaves `v`.
  pub record HasSession (server_tls : Bool) (fd : Option ℕ) (w v : W) : Type 0 where
    pub allowed : server_tls ≡ true
    pub created : (tls.session_create fd w).0 ≡ true
    pub last : W
    pub done : tls.handshake last ≡ (hs_done, v)

  -- the world in which the transfer starts
  abbrev pub IsReady : Bool → Bool → Option ℕ → W → W → Type 0
  IsReady true server_tls fd w v = HasSession server_tls fd w v
  IsReady false server_tls fd w v = v ≡ w

  pub transfer_by-Transferred :
      (k : Rounds) (j : Job) (op : JobOp) (w : W) (rc : Result (Unit {0})) (count : ℕ)
      → (transfer_by dial tls fs dirs files ch k j.need_tls j op w).0 ≡ some rc
      → (transfer_by dial tls fs dirs files ch k j.need_tls j op w).1 ≡ count
      → Transferred k j op w rc count
  unfolding transfer_by
  transfer_by-Transferred k j list w rc count h e = (h, e)
  transfer_by-Transferred k j retr w rc count h e = (h, e)
  transfer_by-Transferred k j stor w rc count h e = (h, e)
  transfer_by-Transferred k j appe w rc count h e = (h, e)
  transfer_by-Transferred k j copy w rc count h e = (h, e)

  -- the worlds of a handshake that returned 0
  Shaken : Option (Result (Unit {0})) × W → Type 0
  Shaken r = r.0 ≡ some (ok tt) → (u : W) × (tls.handshake u ≡ (hs_done, r.1))

  hs_waited-Shaken :
      (again : W → Option (Result (Unit {0})) × W) (r : Result (Unit {0}) × W)
      → ((w : W) → Shaken (again w))
      → Shaken (hs_waited dial tls fs dirs files ch again r)
  unfolding Shaken
  hs_waited-Shaken again (ok u, w) h = h w
  hs_waited-Shaken again (err eagain, w) h = h w
  hs_waited-Shaken again (err e, w) h = λ bad. absurd cc

  hs_step-Shaken :
      (again : W → Option (Result (Unit {0})) × W) (u : W) (r : TlsStep × W)
      → tls.handshake u ≡ r
      → ((w : W) → Shaken (again w))
      → Shaken (hs_step dial tls fs dirs files ch again r)
  unfolding hs_step Shaken
  hs_step-Shaken again u (hs_done, w) e h = λ _. (u, e)
  hs_step-Shaken again u (hs_want_read, w) e h = hs_waited-Shaken again (wait_fd ch false w) h
  hs_step-Shaken again u (hs_want_write, w) e h = hs_waited-Shaken again (wait_fd ch true w) h
  hs_step-Shaken again u (hs_error, w) e h = λ bad. absurd cc

  hs_round-Shaken :
      (go : W → Option (Result (Unit {0})) × W) (r : Bool × W)
      → ((w : W) → Shaken (go w))
      → Shaken (hs_round dial tls fs dirs files ch go r)
  unfolding Shaken
  hs_round-Shaken go (true, w) h = λ bad. absurd cc
  hs_round-Shaken go (false, w) h = h w

  tls_handshakes-Shaken : (n : ℕ) (w : W) → Shaken (tls_handshakes dial tls fs dirs files ch n w)
  unfolding tls_handshakes Shaken
  tls_handshakes-Shaken zero w = λ bad. absurd cc
  tls_handshakes-Shaken (suc n) w =
      let again = tls_handshakes dial tls fs dirs files ch n in
      hs_round-Shaken (λ v. hs_step dial tls fs dirs files ch again (tls.handshake v))
        (ch.cancelled w)
        (λ v. hs_step-Shaken again v (tls.handshake v) refl (λ u. tls_handshakes-Shaken n u))

  -- whether there is a session, and in which world the transfer starts
  abbrev pub Prepared : Bool → Bool → Option ℕ → W → Option (Result (Unit {0})) × Bool × W → Type 0
  Prepared need server_tls fd w x =
      x.0 ≡ some (ok tt) → (x.1 ≡ need) × IsReady need server_tls fd w x.2

  session_made-Prepared :
      (n : ℕ) (fd : Option ℕ) (w : W) (b : Bool × W)
      → tls.session_create fd w ≡ b
      → Prepared true true fd w (session_made dial tls fs dirs files ch n b)
  unfolding session_made Shaken
  session_made-Prepared n fd w (false, v) e = λ bad. absurd cc
  session_made-Prepared n fd w (true, v) e = λ h.
      let (u, done) = tls_handshakes-Shaken n v h in
      (
        refl,
        record { allowed = refl; created = ap (λ (r : Bool × W). r.0) e; last = u; done = done },
      )

  pub setup-Prepared :
      (n : ℕ) (need server_tls : Bool) (fd : Option ℕ) (w : W)
      → Prepared need server_tls fd w (
          if need
          then data_tls_setup dial tls fs dirs files ch n server_tls fd w
          else (some (ok tt), false, w))
  unfolding data_tls_setup
  setup-Prepared n true true fd w = session_made-Prepared n fd w (tls.session_create fd w) refl
  setup-Prepared n true false fd w = λ bad. absurd cc
  setup-Prepared n false server_tls fd w = λ h. (refl, refl)
